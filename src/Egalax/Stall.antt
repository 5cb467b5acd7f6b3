-- ===== src/Egalax/Stall.antt =====
-- A command frame that announces more bytes than the assembly buffer of the touch controller
-- in qemu/hw/arm/garmin_gpsmap.c holds.
use garmin_gpsmap_emu.Prelude.{ℕ, ◌+◌, ◌≤◌, ◌<◌, min}
use garmin_gpsmap_emu.Prelude.{◌≡◌, refl, ◌∙◌, arith}
use garmin_gpsmap_emu.Prelude.{List, [], ◌∷◌}
use garmin_gpsmap_emu.Prelude.{length, get_or, set, take, drop}
use garmin_gpsmap_emu.Prelude.{length-set, get_or-set_ne}
use garmin_gpsmap_emu.Egalax.{Egalax, copy_into, grow, assemble, finish}

-- An inner frame 03 n ... with n + 2 > 64 has begun.
pub record IsStalled (s : Egalax) : Type 0 where
  pub size : length s.inner ≡ 64
  pub begun : 2 ≤ s.inner_len
  pub room : s.inner_len ≤ 64
  pub announced : 63 ≤ get_or s.inner 1 0

-- The master has written an outer chunk `rx` of `len` bytes and ends the transfer.
unfoldable pub chunk : Egalax → List ℕ × ℕ → Egalax
chunk s (rx, len) = finish (record s { rx = rx; rx_len = len })

unfoldable pub chunks : Egalax → List (List ℕ × ℕ) → Egalax
chunks s [] = s
chunks s (c ∷ cs) = chunks (chunk s c) cs

-- The chunks are of the form 03 ... .
abbrev pub AllOuter : List (List ℕ × ℕ) → Type 0
AllOuter [] = Unit
AllOuter (c ∷ cs) = (0 < c.1) × (get_or c.0 0 0 ≡ 3) × AllOuter cs

copy_into_below :
    (dst : List ℕ) (at : ℕ) (src : List ℕ) (i : ℕ)
    → i < at
    → (get_or (copy_into dst at src) i 0 ≡ get_or dst i 0)
      × (length (copy_into dst at src) ≡ length dst)
unfolding copy_into
copy_into_below dst at [] i h = (refl, refl)
copy_into_below dst at (x ∷ xs) i h =
    let r = copy_into_below (set dst at x) (at + 1) xs i (omega arith) in
    (r.0 ∙ get_or-set_ne dst at i x 0 (omega arith), r.1 ∙ length-set dst at x)

grow-IsStalled :
    (s : Egalax)
    → IsStalled s
    → IsStalled (grow s) × ((grow s).queue ≡ s.queue) × ((grow s).q_count ≡ s.q_count)
unfolding grow
grow-IsStalled s v =
    ground
      (arith, copy_into_below s.inner s.inner_len (take (min (get_or s.rx 1 0) 8) (drop 2 s.rx)) 1)

chunk-IsStalled :
    (s : Egalax) (rx : List ℕ) (len : ℕ)
    → IsStalled s
    → 0 < len
    → get_or rx 0 0 ≡ 3
    → IsStalled (chunk s (rx, len))
      × ((chunk s (rx, len)).queue ≡ s.queue)
      × ((chunk s (rx, len)).q_count ≡ s.q_count)
unfolding chunk finish assemble
chunk-IsStalled s rx len v h e =
    let t = record s { rx = rx; rx_len = len } in
    let w : IsStalled t = record {
      size = v.size;
      begun = v.begun;
      room = v.room;
      announced = v.announced;
    } in
    ground (arith, grow-IsStalled t w)

-- Once a host has begun an inner frame that announces 63 bytes or more, no number of further
-- outer chunks 03 ... is ever answered: no frame is queued, and the controller stays so.
pub chunks-IsStalled :
    (s : Egalax) (cs : List (List ℕ × ℕ))
    → IsStalled s
    → AllOuter cs
    → IsStalled (chunks s cs)
      × ((chunks s cs).queue ≡ s.queue)
      × ((chunks s cs).q_count ≡ s.q_count)
unfolding chunks
chunks-IsStalled s [] v h = (v, refl, refl)
chunks-IsStalled s ((rx, len) ∷ cs) v (p, e, rest) =
    let (w, q, n) = chunk-IsStalled s rx len v p e in
    let (w', q', n') = chunks-IsStalled (chunk s (rx, len)) cs w rest in (w', q' ∙ q, n' ∙ n)
