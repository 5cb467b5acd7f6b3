-- ===== src/Gl/Table/Loaded.antt =====
-- What the table of functions to intercept holds, qemu/hw/arm/garmin_gl.c.
use Prim.Native.String.{String}
use text.Mathlib.Text.{◌==◌ as str_eq}
use text.Mathlib.TextEquality.{eq_iff}
use garmin_gpsmap_emu.Prelude.{arith, ℕ, zero, suc, ◌≤◌, ◌≡◌, ◌==◌}
use garmin_gpsmap_emu.Prelude.{Bool, false, not, ◌&&◌, Option, none, some, List, [], ◌∷◌, ◌++◌}
use garmin_gpsmap_emu.Prelude.{
  bit_and, not32, ◌+◌, length, length-append, if_elim, take, ltb, ltb→lt,
}
use garmin_gpsmap_emu.Gl.{CodePatch, max_hooks}
use garmin_gpsmap_emu.Gl.Table.Opdefs.{GlOpDef, opdefs}
use garmin_gpsmap_emu.Gl.Table.{Line, ignored, patch_line, hook_line, NamedHook, Table}
use garmin_gpsmap_emu.Gl.Table.{find_def, named_hook, add_patch, load_lines, garmin_gl_load_table}

-- An entry that is used has the function's name and is on.
abbrev pub IsResolved : Bool → String → Option GlOpDef → Type 0
IsResolved fbo name none = Unit
IsResolved fbo name (some d) = (d.name ≡ name) × (d.opt_in && not fbo ≡ false)

abbrev pub AllResolved : Bool → List NamedHook → Type 0
AllResolved fbo [] = Unit
AllResolved fbo (h ∷ rest) = IsResolved fbo h.name h.def × AllResolved fbo rest

abbrev pub AllShort : List CodePatch → Type 0
AllShort [] = Unit
AllShort (c ∷ rest) = (length c.bytes ≤ 32) × AllShort rest

-- The hooks and patches fit the arrays of the source.
abbrev pub IsLoaded : Bool → Table → Type 0
IsLoaded fbo t =
    (length t.hooks ≤ max_hooks)
    × (length t.patches ≤ 32)
    × AllResolved fbo t.hooks
    × AllShort t.patches

AllResolved-append :
    (fbo : Bool) (xs : List NamedHook) (h : NamedHook)
    → AllResolved fbo xs
    → IsResolved fbo h.name h.def
    → AllResolved fbo (xs ++ (h ∷ []))
AllResolved-append fbo [] h a r = (r, tt)
AllResolved-append fbo (x ∷ xs) h a r = (a.0, AllResolved-append fbo xs h a.1 r)

AllShort-append :
    (xs : List CodePatch) (c : CodePatch)
    → AllShort xs
    → length c.bytes ≤ 32
    → AllShort (xs ++ (c ∷ []))
AllShort-append [] c a r = (r, tt)
AllShort-append (x ∷ xs) c a r = (a.0, AllShort-append xs c a.1 r)

take_short : (n : ℕ) (xs : List ℕ) → length (take n xs) ≤ n
take_short zero xs = omega arith
take_short (suc n) [] = omega arith
take_short (suc n) (x ∷ xs) = let rest = take_short n xs in omega arith

find_def-IsResolved :
    (fbo : Bool) (name : String) (ds : List GlOpDef) → IsResolved fbo name (find_def fbo name ds).0
unfolding find_def
find_def-IsResolved fbo name [] = tt
find_def-IsResolved fbo name (d ∷ rest) =
    if_elim (λ (r : Option GlOpDef × Bool). IsResolved fbo name r.0) (str_eq d.name name)
      (λ same.
        if_elim (λ (r : Option GlOpDef × Bool). IsResolved fbo name r.0) (d.opt_in && not fbo)
          (λ off. tt) (λ on. ((eq_iff d.name name).0 same, on)))
      (λ other. find_def-IsResolved fbo name rest)

add_patch-IsLoaded :
    (fbo : Bool) (t : Table) (addr : ℕ) (bytes : List ℕ)
    → IsLoaded fbo t
    → IsLoaded fbo (add_patch t addr bytes)
unfolding add_patch
add_patch-IsLoaded fbo t addr bytes (few, fits, all, short) =
    let new : CodePatch = record { addr = bit_and addr (not32 1); bytes = take 32 bytes } in
    if_elim (IsLoaded fbo) (ltb (length t.patches) 32)
      (λ room.
        let more = length-append t.patches (new ∷ []) in
        let less = ltb→lt (length t.patches) 32 room in
        (few, omega arith, all, AllShort-append t.patches new short (take_short 32 bytes)))
      (λ full. (few, fits, all, short))

named_hook-IsResolved :
    (fbo : Bool) (name : String) (addr nargs : ℕ)
    → IsResolved fbo (named_hook fbo name addr nargs).name (named_hook fbo name addr nargs).def
unfolding named_hook
named_hook-IsResolved fbo name addr nargs = find_def-IsResolved fbo name opdefs

next_fits : (n : ℕ) {m : ℕ} → n ≤ max_hooks → (n == max_hooks) ≡ false → m ≡ n + 1 → m ≤ max_hooks
next_fits n few room more = ground arith

load_lines-IsLoaded :
    (fbo : Bool) (ls : List Line) (t : Table) → IsLoaded fbo t → IsLoaded fbo (load_lines fbo t ls)
unfolding load_lines
load_lines-IsLoaded fbo [] t h = h
load_lines-IsLoaded fbo (ignored ∷ rest) t h = load_lines-IsLoaded fbo rest t h
load_lines-IsLoaded fbo (patch_line addr bytes ∷ rest) t h =
    load_lines-IsLoaded fbo rest (add_patch t addr bytes) (add_patch-IsLoaded fbo t addr bytes h)
load_lines-IsLoaded fbo (hook_line name addr nargs ∷ rest) t (few, fits, all, short) =
    let new = named_hook fbo name addr nargs in
    let next : Table = record t { hooks = t.hooks ++ (new ∷ []) } in
    if_elim (IsLoaded fbo) (length t.hooks == max_hooks) (λ full. (few, fits, all, short))
      (λ room.
        let more = length-append t.hooks (new ∷ []) in
        load_lines-IsLoaded fbo rest next (
          next_fits (length t.hooks) few room more,
          fits,
          AllResolved-append fbo t.hooks new all (named_hook-IsResolved fbo name addr nargs),
          short,
        ))

-- Whatever the file says, no more hooks are loaded than the trap has slots and no more patches, of no
-- more bytes, than there is room for; a hook that is carried out has the entry of its own name, and
-- none that is off by default without the switch.
pub load_table-IsLoaded :
    (fbo : Bool) (ls : List Line) → IsLoaded fbo (garmin_gl_load_table fbo [] ls)
unfolding garmin_gl_load_table
load_table-IsLoaded fbo ls =
    load_lines-IsLoaded fbo ls (record { hooks = []; patches = [] })
      (omega arith, omega arith, tt, tt)
