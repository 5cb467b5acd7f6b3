-- ===== src/Gl/Inside.antt =====
-- Vertices that lie in their source.
use garmin_gpsmap_emu.Prelude.{ℕ, zero, suc, ◌+◌, ◌*◌, ◌≤◌}
use garmin_gpsmap_emu.Prelude.{◌≡◌, refl, arith}
use garmin_gpsmap_emu.Prelude.{Bool, true, leb}
use garmin_gpsmap_emu.Prelude.{some, List, [], ◌∷◌, ◌++◌}
use garmin_gpsmap_emu.Prelude.{length, take, drop}
use garmin_gpsmap_emu.Gl.Client.{type_size}
use garmin_gpsmap_emu.Gl.Vertex.{comp_bytes, cons_some, append_some, component, vertex, vertices}

comp_bytes-le : (type : ℕ) → comp_bytes type ≤ type_size type
unfolding comp_bytes type_size
comp_bytes-le type = ground arith

suc_mul : (n x : ℕ) → suc n * x ≡ x + n * x
suc_mul n x = omega arith

module _ (comp_to_float : List ℕ → ℕ → Bool → ℕ) (src : List ℕ) (type : ℕ) (norm : Bool) where
  component_reads :
      (at : ℕ)
      → at + type_size type ≤ length src
      → (x : ℕ) × (component comp_to_float src at type norm ≡ some x)
  unfolding component
  component_reads at h =
      let n = comp_bytes type in
      let inside : leb (at + n) (length src) ≡ true = ground (arith, comp_bytes-le type) in
      (comp_to_float (take n (drop at src)) type norm, rw (component, inside) refl)

  vertex_reads :
      (n at : ℕ)
      → at + n * type_size type ≤ length src
      → (xs : List ℕ) × (vertex comp_to_float n src at type norm ≡ some xs)
  unfolding vertex cons_some
  vertex_reads zero at h = ([], refl)
  vertex_reads (suc n) at h =
      let m = suc_mul n (type_size type) in
      let (x, e) = component_reads at (omega (arith, m)) in
      let (xs, f) = vertex_reads n (at + type_size type) (omega (arith, m)) in
      (x ∷ xs, rw (e, f) refl)

  -- `n` vertices that end in their source, each no longer than the stride, are read inside it.
  pub vertices_reads :
      (n size stride at : ℕ)
      → size * type_size type ≤ stride
      → at + n * stride ≤ length src
      → (xs : List ℕ) × (vertices comp_to_float n size src at type norm stride ≡ some xs)
  unfolding vertices append_some
  vertices_reads zero size stride at fits h = ([], refl)
  vertices_reads (suc n) size stride at fits h =
      let m = suc_mul n stride in
      let (x, e) = vertex_reads size at (omega (arith, m)) in
      let (xs, f) = vertices_reads n size stride (at + stride) fits (omega (arith, m)) in
      (x ++ xs, rw (e, f) refl)
