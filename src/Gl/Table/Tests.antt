-- ===== src/Gl/Table/Tests.antt =====
-- Tests of the table of functions to intercept, and its theorem at a concrete file.
use garmin_gpsmap_emu.Prelude.{◌≡◌, refl, true, false, Option, none, some, List, [], ◌∷◌, map}
use garmin_gpsmap_emu.Gl.Op.{GlOp, op_blendfunc}
use garmin_gpsmap_emu.Gl.Table.{
  Line, ignored, patch_line, hook_line, NamedHook, garmin_gl_load_table,
}
use garmin_gpsmap_emu.Gl.Table.{load_lines, named_hook, find_def, add_patch}
use garmin_gpsmap_emu.Gl.Table.Opdefs.{GlOpDef}
use garmin_gpsmap_emu.Gl.Table.Loaded.{IsLoaded, load_table-IsLoaded}

abbrev file : List Line
file =
    ignored
    ∷ hook_line "glBlendFunc" 0x803d02c1 2
    ∷ patch_line 0x80000001 (0x70 ∷ 0x47 ∷ [])
    ∷ hook_line "glGenerateMipmapOES" 0x80313706 1
    ∷ hook_line "glNothing" 0x80313708 0
    ∷ []

abbrev op_of : Option GlOpDef → Option GlOp
op_of none = none
op_of (some d) = some d.op

-- The second function is off by default, the third has no entry.
loaded_ops :
    map {A = NamedHook} (λ h. op_of h.def) (garmin_gl_load_table false [] file).hooks
    ≡ some op_blendfunc ∷ none ∷ none ∷ []
unfolding garmin_gl_load_table load_lines named_hook find_def add_patch
loaded_ops = refl

loaded_off :
    map {A = NamedHook} (λ h. h.disabled) (garmin_gl_load_table false [] file).hooks
    ≡ false ∷ true ∷ false ∷ []
unfolding garmin_gl_load_table load_lines named_hook find_def add_patch
loaded_off = refl

load_table-IsLoaded_example : IsLoaded false (garmin_gl_load_table false [] file)
load_table-IsLoaded_example = load_table-IsLoaded false file
