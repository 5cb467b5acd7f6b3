-- ===== src/Sdma/Copy.antt =====
-- What a memory-to-memory transfer of the system DMA of qemu/hw/arm/garmin_gpsmap.c leaves in
-- memory, for any memory that behaves as RAM.
use garmin_gpsmap_emu.Prelude.{ℕ, zero, suc, ◌+◌, ◌-◌, ◌*◌, ◌^◌, ◌≤◌, ◌<◌}
use garmin_gpsmap_emu.Prelude.{◌≡◌, refl, sym, ap, ◌∙◌, ◌≢◌, ◌⊎◌, inl, arith}
use garmin_gpsmap_emu.Prelude.{none}
use native.Mathlib.Decide.{ℕ_discrete}
use garmin_gpsmap_emu.Sdma.{MemOps, Chan, src_amode, dst_amode, elem_size, move, mmc_ready, copy}

-- RAM, at elements of `es` bytes: a read changes nothing, an element that was read and is written
-- elsewhere is read back, and a write does not reach an element apart from it.
pub record IsRam {M : Type 0} (ops : MemOps M) (es : ℕ) : Type 0 where
  pub pure : (m : M) (a : ℕ) → (ops.read m a es).1 ≡ m
  pub same :
      (m : M) (a b : ℕ)
      → (ops.read (ops.write m a es (ops.read m b es).0) a es).0 ≡ (ops.read m b es).0
  pub apart :
      (m : M) (a b v : ℕ)
      → (a + es ≤ b) ⊎ (b + es ≤ a)
      → (ops.read (ops.write m a es v) b es).0 ≡ (ops.read m b es).0

-- `n` elements from `a` on and from `b` on do not meet.
abbrev pub Apart : ℕ → ℕ → ℕ → Type 0
Apart len a b = (a + len ≤ b) ⊎ (b + len ≤ a)

-- A channel that steps through both buffers.
pub record IsLinear (c : Chan) (n : ℕ) : Type 0 where
  pub src_steps : src_amode c.ccr ≢ 0
  pub dst_steps : dst_amode c.ccr ≢ 0
  pub src_fits : c.src + n * elem_size c < 2 ^ 64
  pub dst_fits : c.dst + n * elem_size c < 2 ^ 64
  pub enough : n ≤ c.remaining

mul_suc : (n e : ℕ) → suc n * e ≡ e + n * e
mul_suc n e = omega arith

mul_le : (j n e : ℕ) → j < n → j * e + e ≤ n * e
mul_le j n e h = grind arith

module _ {M : Type 0} (ops : MemOps M) (bases : ℕ → ℕ) where
  copy_moves :
      (n : ℕ) (c : Chan) (m : M)
      → c.remaining ≢ 0
      → copy ops bases (suc n) none none c m ≡ (
          let (d, a) = move ops bases c m in
          let (e, b, moved) = copy ops bases n none none d a in (e, b, moved + 1))
  unfolding copy mmc_ready
  copy_moves n c m h = ground arith

  move_steps :
      (n : ℕ) (c : Chan) (m : M)
      → IsLinear c (suc n)
      → ((move ops bases c m).0.src ≡ c.src + elem_size c)
        × ((move ops bases c m).0.dst ≡ c.dst + elem_size c)
        × ((move ops bases c m).0.remaining ≡ c.remaining - 1)
        × ((move ops bases c m).0.ccr ≡ c.ccr)
        × ((move ops bases c m).0.csdp ≡ c.csdp)
  unfolding move
  move_steps n c m l =
      ground (arith, mul_suc n (elem_size c), l.src_fits, l.dst_fits, l.src_steps, l.dst_steps)

  move-IsLinear :
      (n : ℕ) (c : Chan) (m : M) → IsLinear c (suc n) → IsLinear (move ops bases c m).0 n
  move-IsLinear n c m l =
      let (a, b, d, e, f) = move_steps n c m l in
      record {
        src_steps = rw e l.src_steps;
        dst_steps = rw e l.dst_steps;
        src_fits = rw (a, f) (omega (arith, mul_suc n (elem_size c), l.src_fits));
        dst_fits = rw (b, f) (omega (arith, mul_suc n (elem_size c), l.dst_fits));
        enough = omega (arith, d, l.enough);
      }

  move-mem :
      (c : Chan) (m : M)
      → IsRam ops (elem_size c)
      → (move ops bases c m).1 ≡ ops.write m c.dst (elem_size c) (ops.read m c.src (elem_size c)).0
  unfolding move
  move-mem c m ram =
      ap (λ a. ops.write a c.dst (elem_size c) (ops.read m c.src (elem_size c)).0)
        (ram.pure m c.src)

  -- What the loop leaves of a channel and of memory, for elements of `es` bytes.
  pub record IsCopied (es n : ℕ) (c : Chan) (m : M) (r : Chan × M × ℕ) : Type 0 where
    pub left : r.0.remaining ≡ c.remaining - n
    pub moved : r.2 ≡ n
    pub copied :
        (i : ℕ) → i < n → (ops.read r.1 (c.dst + i * es) es).0 ≡ (ops.read m (c.src + i * es) es).0
    pub kept :
        (b : ℕ)
        → (b + es ≤ c.dst) ⊎ (c.dst + n * es ≤ b)
        → (ops.read r.1 b es).0 ≡ (ops.read m b es).0

  first :
      (es n : ℕ) (c d : Chan) (m a : M) (r : Chan × M × ℕ)
      → IsRam ops es
      → Apart (suc n * es) c.src c.dst
      → d.dst ≡ c.dst + es
      → a ≡ ops.write m c.dst es (ops.read m c.src es).0
      → IsCopied es n d a r
      → (ops.read r.1 (c.dst + 0 * es) es).0 ≡ (ops.read m (c.src + 0 * es) es).0
  first es n c d m a r ram h q w v =
      let z : c.dst + 0 * es ≡ c.dst = omega arith in
      let y : c.src + 0 * es ≡ c.src = omega arith in
      rw (z, y) (v.kept c.dst (inl (omega (arith, q))) ∙ rw w (ram.same m c.dst c.src))

  later :
      (es n : ℕ) (c d : Chan) (m a : M) (r : Chan × M × ℕ)
      → IsRam ops es
      → Apart (suc n * es) c.src c.dst
      → d.src ≡ c.src + es
      → d.dst ≡ c.dst + es
      → a ≡ ops.write m c.dst es (ops.read m c.src es).0
      → IsCopied es n d a r
      → (j i : ℕ) → i ≡ suc j
      → j < n
      → (ops.read r.1 (c.dst + i * es) es).0 ≡ (ops.read m (c.src + i * es) es).0
  later es n c d m a r ram h p q w v j i e hj =
      let x : c.dst + i * es ≡ d.dst + j * es = rw (e, q) (omega (arith, mul_suc j es)) in
      let y : c.src + i * es ≡ d.src + j * es = rw (e, p) (omega (arith, mul_suc j es)) in
      rw (x, y)
        (v.copied j hj
          ∙ rw w (
              ram.apart m c.dst (d.src + j * es) _
                (ground (arith, mul_suc n es, mul_le j n es hj))))

  -- One element moved before the others.
  moved_first :
      (es n : ℕ) (c d : Chan) (m a : M) (r : Chan × M × ℕ)
      → IsRam ops es
      → Apart (suc n * es) c.src c.dst
      → d.src ≡ c.src + es
      → d.dst ≡ c.dst + es
      → d.remaining ≡ c.remaining - 1
      → a ≡ ops.write m c.dst es (ops.read m c.src es).0
      → IsCopied es n d a r
      → IsCopied es (suc n) c m (r.0, r.1, r.2 + 1)
  moved_first es n c d m a r ram h p q l w v = record {
    left = omega (arith, v.left);
    moved = omega (arith, v.moved);
    copied = λ i hi. elim (ℕ_discrete i 0) [
      | yes z ↦ rw z (first es n c d m a r ram h q w v)
      | no z ↦ later es n c d m a r ram h p q w v (i - 1) i (omega arith) (omega arith)
    ];
    kept = λ b hb.
        v.kept b (ground (arith, mul_suc n es))
        ∙ rw w (ram.apart m c.dst b _ (ground (arith, mul_suc n es)));
  }

  pub copies :
      (n : ℕ) (c : Chan) (m : M) (es : ℕ)
      → elem_size c ≡ es
      → IsRam ops es
      → IsLinear c n
      → Apart (n * es) c.src c.dst
      → IsCopied es n c m (copy ops bases n none none c m)
  unfolding copy
  copies zero c m es e ram l h = record {
    left = omega arith;
    moved = refl;
    copied = λ i hi. absurd (omega arith);
    kept = λ b hb. refl;
  }
  copies (suc n) c m es e ram l h =
      let (p, q, k, _, f) = move_steps n c m l in
      let size : elem_size (move ops bases c m).0 ≡ es = rw f e in
      let ram' : IsRam ops (elem_size c) = rw e ram in
      rw (copy_moves n c m (omega (arith, l.enough))) (
        moved_first es n c (move ops bases c m).0 m (move ops bases c m).1 _ ram h (rw (sym e) p)
          (rw (sym e) q) k (rw (sym e) (move-mem c m ram'))
          (copies n (move ops bases c m).0 (move ops bases c m).1 es size ram
            (move-IsLinear n c m l) (rw (p, q, e) (ground (arith, mul_suc n es)))))
