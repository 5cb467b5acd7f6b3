-- ===== src/Gl/Table.antt =====
-- The table of functions to intercept in qemu/hw/arm/garmin_gl.c, `garmin_gl_load_table`. A line is what
-- `sscanf` makes of it; arguments are not counted below 0.
pub mod Opdefs
pub mod Loaded
mod Tests
use Prim.Native.String.{String}
use text.Mathlib.Text.{◌==◌ as str_eq}
use garmin_gpsmap_emu.Prelude.{ℕ, bit_and, not32, ◌==◌, Bool, true, false, not, ◌&&◌}
use garmin_gpsmap_emu.Prelude.{
  if◌then◌else◌, Option, none, some, List, [], ◌∷◌, ◌++◌, length, take, ltb,
}
use garmin_gpsmap_emu.Gl.{GlHook, CodePatch, max_hooks}
use garmin_gpsmap_emu.Gl.Table.Opdefs.{GlOpDef, opdefs}

-- A comment or a line that does not fit, a patch with its bytes, or a function with its address and
-- the number of its arguments.
pub data Line : Type 0 where
  ignored : Line
  patch_line : ℕ → List ℕ → Line
  hook_line : String → ℕ → ℕ → Line

-- A hook with the fields that the trap does not change.
pub record NamedHook : Type 0 where
  pub name : String
  pub hook : GlHook
  pub def : Option GlOpDef
  pub disabled : Bool

pub record Table : Type 0 where
  pub hooks : List NamedHook
  pub patches : List CodePatch

-- The entry of that name; one that is off by default stays unused without `fbo`.
unfoldable pub find_def : Bool → String → List GlOpDef → Option GlOpDef × Bool
find_def fbo name [] = (none, false)
find_def fbo name (d ∷ rest) =
    let later = find_def fbo name rest in
    if str_eq d.name name
    then (if d.opt_in && not fbo then (none, true) else (some d, false))
    else later

unfoldable pub named_hook : Bool → String → ℕ → ℕ → NamedHook
named_hook fbo name addr nargs =
    let (def, disabled) = find_def fbo name opdefs in
    record {
      name = name;
      hook = record { addr = bit_and addr (not32 1); nargs = nargs; calls = 0 };
      def = def;
      disabled = disabled;
    }

unfoldable pub add_patch : Table → ℕ → List ℕ → Table
add_patch t addr bytes =
    if ltb (length t.patches) 32
    then record t {
      patches = t.patches ++ (record { addr = bit_and addr (not32 1); bytes = take 32 bytes } ∷ []);
    }
    else t

-- The loop over the lines; the first function for which there is no room ends it.
unfoldable pub load_lines : Bool → Table → List Line → Table
load_lines fbo t [] = t
load_lines fbo t (ignored ∷ rest) = load_lines fbo t rest
load_lines fbo t (patch_line addr bytes ∷ rest) = load_lines fbo (add_patch t addr bytes) rest
load_lines fbo t (hook_line name addr nargs ∷ rest) =
    let next =
      load_lines fbo (record t { hooks = t.hooks ++ (named_hook fbo name addr nargs ∷ []) }) rest in
    if length t.hooks == max_hooks then t else next

unfoldable pub garmin_gl_load_table : Bool → List CodePatch → List Line → Table
garmin_gl_load_table fbo patches lines =
    load_lines fbo (record { hooks = []; patches = patches }) lines
