-- ===== src/Lib.antt =====
-- A verification library for the device models of the GPSMAP machine, the QEMU board that
-- qemu/hw/arm/garmin_gpsmap.c adds for the firmware of a marine chart plotter on an OMAP4, and for its
-- interception of OpenGL ES calls, qemu/hw/arm/garmin_gl.c.
--
-- The program. Each device is a QEMU object: a C struct of registers, a read and a write handler
-- for its register window, callbacks of timers and of buses, and output interrupt lines. The guest
-- enters through the handlers, time through the timer callbacks, the outside world through pins,
-- I2C masters and pointer events.
--
-- How it is modelled. A device is a record with the struct's fields; an operation takes and returns
-- it, and a read handler returns the value and the new state.
--   * `irq` is the level last given to qemu_set_irq, a timer field the deadline last given to
--     timer_mod (none after timer_del), and the clock is an argument.
--   * Words are numbers of ℕ with the casts of the source written out (u8, u32, u64). `x &= ~v` is
--     never more than x, so that no cast stands there.
--   * Accesses are of aligned words, as the MemoryRegionOps of the devices ask; those of RegStub and of
--     the SDHCI core have a size.
--   * Code that is not in this repository is a parameter: muldiv64, the I2C bus with its slaves
--     (BusOps), the SDHCI core (SdhciOps), the address space (MemOps, GpuOps, GuestOps),
--     qemu_input_scale_axis, the console's surface, the host's OpenGL with its float arithmetic.
--   * For the SGX shim and the GL calls reads are functions of the memory: tables, command buffers
--     and vertex data lie in RAM.
--   * Logging, VMState tables, realize functions and type registration are left out.
--
-- The files. Gl is about qemu/hw/arm/garmin_gl.c, the others about qemu/hw/arm/garmin_gpsmap.c.
--   * Gpio: Omap4Gpio, omap4_gpio_*. Irq is about the interrupt line, Pins about the data registers.
--   * GpTimer: Omap4GPTimer, gpt_rate to gpt_tick and gpt_reset; Decode has gpt_decode, Regs the
--     handlers. Count and Ticks are about the counter, Irq about the line, Resync about rounding.
--   * I2c: Omap4I2C, omap4_i2c_*; Bus is the interface of the bus, Regs the handlers. Valid is
--     about bounds, Window and Receive about a whole receive, Done about the completion. The loop over
--     the queued bytes runs on the number of bytes queued.
--   * Regfile: GarminI2CRegfile, a slave with a register pointer; RoundTrip is about it.
--   * Egalax: GarminEgalax, the touch controller, another slave; Touch is its pointer side. Valid
--     is about bounds, Queue about the ring, Stall about long commands, Hold about the hold time.
--   * Mailbox: Omap4Mbox with mbox_ducati_reply; Regs has the handlers. Fifo is about the queues,
--     Echo about the responder, NewMsg and Events about the interrupt state. The loop that collects a
--     request runs on 4, the number of words of a request.
--   * Hsmmc: Omap4Hsmmc, the wrapper of the SDHCI; Response is about 136-bit responses.
--   * Sdma: Omap4Sdma, sdma_*; Regs has the handlers. Copy and Transfer are about what a transfer
--     leaves in memory, Progress about the counts and the engine timer. The copy loop runs on the
--     number of elements that it may move. The DMA does not write its own registers.
--   * RegStub: GarminRegStub, regstub_* and wkupgen_write_hook; Fixup has the read fixups of the
--     clock, power, random number, SmartReflex and McSPI stubs, Power is about the status registers.
--   * Sgx: the pretend microkernel of the GPU, sgx_* with rd32 and wr32. Command has the commands and
--     Kick the register hooks. The loops over the clients' rings run on `guard`, 64 as in the source;
--     the loop over the kernel's ring has no such bound in the source and runs on 256 here. Mmu,
--     Counter, Drain and Event are about the walk, the completion counters, that last loop and events.
--   * Dispc: Omap4Dispc, dispc_*; Draw is the scan-out. Scanout is about what it shows, Channel and
--     Frame about the callback at the end of a frame.
--   * BootRom: build_boot_rom. Arm describes the instructions that the ROM uses, after the manual of the
--     architecture with WFI as QEMU's halt, Run and Start are about what the ROM does on them.
--   * Sync32k and Uart: sync32k_read and omap4_uart_ext_*.
--   * Gl: enc_trampoline, gl_trap and the handlers of the trap's window; Op has the operations. Client
--     and Buffers have the state that gl_dispatch tracks without the renderer, Vertex marshal_array, Frame
--     the queue of requests. Thumb describes the instructions of a trampoline; Placed and Hook are about
--     trampolines, Sized and Safe about buffer objects, Inside about vertices, Order about the order of
--     requests. `store_at` and `component` give none where the source accesses bytes outside a buffer.
--     Render is the hand-over of requests to the render thread, render_thread, render_call_req and
--     render_start, as steps of two threads; Serve is about what has run, Progress about the wake-ups,
--     Flush about the loop of frame_flush. Host has the host's OpenGL calls, Plain, Arrays and Exec
--     render_exec with render_draw_setup and render_init; Calm, Bound, Start
--     and Window are about the framebuffer that is bound. Palette is decode_compressed. Table is garmin_gl_load_table with the table of functions in
--     Opdefs; Loaded is about it. Texture has uploads and their sources, which Rendered and Calls are about.
--   * Machine: gpsmap_init; Stubs has the register stubs with their values at power-up, which Preset is
--     about, Slaves the I2C addresses. Map is about the memory map, Lines about the interrupt lines.
--   * Prelude: tests, lists, words, the digits of words (Bits) and words of several fields (Fields).
--
-- Not modelled: the loading of images and the properties of the machine, which are calls of QEMU;
-- the branches of gl_dispatch that put the requests for indexed draws, parameters and queries
-- together and write answers back; the crop rectangles of textures; the conversion of components to
-- floats, a parameter; the contexts of the host's OpenGL; the splitting of the lines of the table of
-- hooks. The scripts under tools/ are not part of the emulated machine.
-- The resets of Gpio, GpTimer, I2c, Sdma, Mailbox and Dispc leave `irq` as it is, as the source does; the
-- runs of events have no reset among them.
pub mod Prelude
pub mod Sgx
pub mod Dispc
pub mod BootRom
pub mod Sync32k
pub mod Uart
pub mod Gl
pub mod Gpio
pub mod GpTimer
pub mod I2c
pub mod Regfile
pub mod Egalax
pub mod Mailbox
pub mod Hsmmc
pub mod Sdma
pub mod Machine
pub mod RegStub
