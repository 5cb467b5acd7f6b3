-- ===== src/Gl/Host/Arrays.antt =====
-- The arrays of a draw in qemu/hw/arm/garmin_gl.c, `render_draw_setup`.
use garmin_gpsmap_emu.Prelude.{ℕ, zero, suc, ◌+◌, ◌-◌}
use garmin_gpsmap_emu.Prelude.{false, if◌then◌else◌, leb}
use garmin_gpsmap_emu.Prelude.{List, [], ◌∷◌, ◌++◌, get_or}
use garmin_gpsmap_emu.Gl.Frame.{ArrayBlob}
use garmin_gpsmap_emu.Gl.Host.{
  HostCall, host, int, floats, gl_bind_buffer, gl_client_active_texture,
}
use garmin_gpsmap_emu.Gl.Host.{gl_disable_client_state, gl_enable_client_state, gl_vertex_pointer}
use garmin_gpsmap_emu.Gl.Host.{gl_normal_pointer, gl_color_pointer, gl_tex_coord_pointer}

abbrev pub no_blob : ArrayBlob
no_blob = record { enabled = false; size = 0; off = 0 }

abbrev pub array_name : ℕ → ℕ
array_name i = get_or (0x8074 ∷ 0x8075 ∷ 0x8076 ∷ []) i 0x8078

unfoldable pub array_pointer : ℕ → ArrayBlob → HostCall
array_pointer zero b = host gl_vertex_pointer (int b.size ∷ int 0x1406 ∷ int 0 ∷ floats b.off ∷ [])
array_pointer (suc zero) b = host gl_normal_pointer (int 0x1406 ∷ int 0 ∷ floats b.off ∷ [])
array_pointer (suc (suc zero)) b =
    host gl_color_pointer (int b.size ∷ int 0x1406 ∷ int 0 ∷ floats b.off ∷ [])
array_pointer i b = host gl_tex_coord_pointer (int b.size ∷ int 0x1406 ∷ int 0 ∷ floats b.off ∷ [])

unfoldable pub setup_array : ℕ → ArrayBlob → List HostCall
setup_array i b =
    let unit : List HostCall =
      if leb 3 i then host gl_client_active_texture (int (0x84c0 + (i - 3)) ∷ []) ∷ [] else [] in
    unit
    ++ (if b.enabled
        then host gl_enable_client_state (int (array_name i) ∷ []) ∷ array_pointer i b ∷ []
        else host gl_disable_client_state (int (array_name i) ∷ []) ∷ [])

unfoldable pub setup_arrays : ℕ → ℕ → List ArrayBlob → List HostCall
setup_arrays zero i blobs = []
setup_arrays (suc n) i blobs =
    setup_array i (get_or blobs i no_blob) ++ setup_arrays n (suc i) blobs

unfoldable pub render_draw_setup : List ArrayBlob → List HostCall
render_draw_setup blobs =
    host gl_bind_buffer (int 0x8892 ∷ int 0 ∷ [])
    ∷ host gl_bind_buffer (int 0x8893 ∷ int 0 ∷ [])
    ∷ (setup_arrays 7 0 blobs ++ (host gl_client_active_texture (int 0x84c0 ∷ []) ∷ []))
