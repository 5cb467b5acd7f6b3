-- ===== src/Mailbox.antt =====
-- The OMAP4 system mailbox of qemu/hw/arm/garmin_gpsmap.c (`struct Omap4Mbox`) with the pretend
-- Ducati that echoes each request: 8 mailboxes of 4 words, 4 users.
-- The arrays over mailboxes and users are functions of the index; `irq u` is the level last given
-- to `qemu_set_irq` for user `u`, `reply_timer` the deadline last given to `timer_mod`.
pub mod Regs
pub mod Fifo
pub mod Echo
pub mod NewMsg
pub mod Events
mod Tests
use garmin_gpsmap_emu.Prelude.{ℕ, zero, suc, ◌+◌, ◌-◌, ◌*◌, ◌^◌}
use garmin_gpsmap_emu.Prelude.{bit_and, bit_or, u32, not32, nonzero, has}
use garmin_gpsmap_emu.Prelude.{Bool, ◌&&◌, if◌then◌else◌, ◌==◌, ltb}
use garmin_gpsmap_emu.Prelude.{Option, none, List, [], ◌∷◌, ◌++◌}
use garmin_gpsmap_emu.Prelude.{update, get_or, set, drop, replicate}

abbrev pub mbox_n : ℕ
mbox_n = 8

abbrev pub depth : ℕ
depth = 4

abbrev pub users : ℕ
users = 4

-- MPU to Ducati, and back.
abbrev pub mpu_tx : ℕ
mpu_tx = 3

abbrev pub mpu_rx : ℕ
mpu_rx = 2

abbrev pub reply_ns : ℕ
reply_ns = 200000

pub record Mailbox : Type 0 where
  pub irq : ℕ → Bool
  pub reply_timer : Option ℕ
  pub fifo : ℕ → List ℕ
  pub count : ℕ → ℕ
  pub irqstatus : ℕ → ℕ
  pub irqenable : ℕ → ℕ
  pub sysconfig : ℕ
  pub req : List ℕ
  pub req_n : ℕ
  pub seq : ℕ

-- `for (int u = 0; u < MBOX_USERS; u++)`: the assignment at each user.
abbrev pub for_users {ℓ} : {A : Type ℓ} → (ℕ → A) → (ℕ → A) → ℕ → A
for_users new old u = if ltb u users then new u else old u

unfoldable pub update_irq : Mailbox → Mailbox
update_irq s = record s { irq = for_users (λ u. has (s.irqstatus u) (s.irqenable u)) s.irq }

unfoldable pub push : Mailbox → ℕ → ℕ → Mailbox
push s m val =
    let t =
      if ltb (s.count m) depth
      then record s {
        fifo = update s.fifo m (set (s.fifo m) (s.count m) (u32 val));
        count = update s.count m (s.count m + 1);
      }
      else s in
    update_irq
      (record t { irqstatus = for_users (λ u. bit_or (t.irqstatus u) (2 ^ (2 * m))) t.irqstatus })

-- `memmove` of the last three words to the front.
unfoldable pub shift_fifo : List ℕ → List ℕ
shift_fifo f = drop 1 f ++ drop (depth - 1) f

unfoldable pub pop : Mailbox → ℕ → ℕ × Mailbox
pop s m =
    if nonzero (s.count m)
    then (let n = s.count m - 1 in
        let cleared =
          if n == 0
          then for_users (λ u. bit_and (s.irqstatus u) (not32 (2 ^ (2 * m)))) s.irqstatus
          else s.irqstatus in
        (
          get_or (s.fifo m) 0 0,
          update_irq (record s {
            fifo = update s.fifo m (shift_fifo (s.fifo m));
            count = update s.count m n;
            irqstatus = for_users (λ u. bit_or (cleared u) (2 ^ (2 * m + 1))) cleared;
          }),
        ))
    else (0, s)

-- `while (s->count[MBOX_MPU_TX] && s->req_n < MBOX_DEPTH)`, with `n` rounds at most.
unfoldable pub collect : ℕ → Mailbox → Mailbox
collect zero s = s
collect (suc n) s =
    let rest =
      (let (v, t) = pop s mpu_tx in
        collect n (record t { req = set t.req t.req_n v; req_n = t.req_n + 1 })) in
    if nonzero (s.count mpu_tx) && ltb s.req_n depth then rest else s

unfoldable pub push_all : Mailbox → ℕ → List ℕ → Mailbox
push_all s m [] = s
push_all s m (v ∷ vs) = push_all (push s m v) m vs

-- The callback; each round of the loop takes one of the `depth` places of the request.
unfoldable pub ducati_reply : Mailbox → Mailbox
ducati_reply s =
    let t = collect depth s in
    if ltb t.req_n depth
    then t
    else push_all (record t { req_n = 0; seq = u32 (t.seq + 1) }) mpu_rx t.req

unfoldable pub reset : Mailbox → Mailbox
reset s = record s {
  fifo = λ m. replicate depth 0;
  count = λ m. 0;
  irqstatus = λ u. 0;
  irqenable = λ u. 0;
  sysconfig = 0;
  req_n = 0;
  seq = 0;
  reply_timer = none;
}
