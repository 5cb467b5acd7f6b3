-- ===== src/Regfile/RoundTrip.antt =====
-- Bursts of writes and reads of the register file of qemu/hw/arm/garmin_gpsmap.c.
use garmin_gpsmap_emu.Prelude.{ℕ, zero, suc, ◌+◌, ◌-◌, ◌%◌, ◌≤◌, ◌<◌}
use garmin_gpsmap_emu.Prelude.{u8}
use garmin_gpsmap_emu.Prelude.{◌≡◌, refl, ap, ◌∙◌, arith}
use garmin_gpsmap_emu.Prelude.{true}
use garmin_gpsmap_emu.Prelude.{List, [], ◌∷◌}
use garmin_gpsmap_emu.Prelude.{length, get_or, set}
use garmin_gpsmap_emu.Prelude.{length-set, get_or-set_self, get_or-set_ne}
use garmin_gpsmap_emu.Regfile.{Regfile, I2cEvent, event, send, recv}

pub record IsValid (s : Regfile) : Type 0 where
  pub size : length s.regs ≡ 256
  pub ptr_in : s.ptr < 256

unfoldable pub send_all : Regfile → List ℕ → Regfile
send_all s [] = s
send_all s (x ∷ xs) = send_all (send s x) xs

unfoldable pub recv_all : ℕ → Regfile → List ℕ
recv_all zero s = []
recv_all (suc n) s = let (v, t) = recv s in v ∷ recv_all n t

-- A byte after the pointer byte.
abbrev stored : Regfile → ℕ → Regfile
stored s x = record s { regs = set s.regs s.ptr x; ptr = u8 (s.ptr + 1) }

send_lem : (s : Regfile) (x : ℕ) → s.have_ptr ≡ true → send s x ≡ stored s x
unfolding send
send_lem s x p = rw p

stored-IsValid : (s : Regfile) (x : ℕ) → IsValid s → IsValid (stored s x)
stored-IsValid s x v = record { size = length-set s.regs s.ptr x ∙ v.size; ptr_in = omega arith }

-- A register that lies `d` after the pointer is not reached by at most `d` bytes.
send_all_untouched :
    (s : Regfile) (xs : List ℕ) (d j : ℕ)
    → IsValid s
    → s.have_ptr ≡ true
    → (s.ptr + d) % 256 ≡ j
    → length xs ≤ d
    → d < 256
    → get_or (send_all s xs).regs j 0 ≡ get_or s.regs j 0
unfolding send_all
send_all_untouched s [] d j v p e h l = refl
send_all_untouched s (x ∷ xs) d j v p e h l =
    ap (λ (r : Regfile). get_or (send_all r xs).regs j 0) (send_lem s x p)
    ∙ send_all_untouched (stored s x) xs (d - 1) j (stored-IsValid s x v) p (omega arith)
        (omega arith) (omega arith)
    ∙ get_or-set_ne s.regs s.ptr j x 0 (omega arith)

send_all-recv_all :
    (s : Regfile) (xs : List ℕ) (t : Regfile)
    → IsValid s
    → s.have_ptr ≡ true
    → length xs ≤ 256
    → t.regs ≡ (send_all s xs).regs
    → t.ptr ≡ s.ptr
    → recv_all (length xs) t ≡ xs
unfolding send_all recv_all recv
send_all-recv_all s [] t v p h r q = refl
send_all-recv_all s (x ∷ xs) t v p h r q =
    let after = ap (λ (a : Regfile). (send_all a xs).regs) (send_lem s x p) in
    let head : get_or t.regs t.ptr 0 ≡ x =
      ap (λ (l : List ℕ). get_or l t.ptr 0) (r ∙ after)
      ∙ send_all_untouched (stored s x) xs 255 t.ptr (stored-IsValid s x v) p (omega arith)
          (omega arith) (omega arith)
      ∙ ap (λ (i : ℕ). get_or (set s.regs s.ptr x) i 0) q
      ∙ get_or-set_self s.regs s.ptr x 0 (omega arith) in
    let rest =
      send_all-recv_all (stored s x) xs (record t { ptr = u8 (t.ptr + 1) }) (stored-IsValid s x v) p
        (omega arith) (r ∙ after) (ap (λ (i : ℕ). u8 (i + 1)) q) in
    λ i. head i ∷ rest i

-- A master addresses register `ptr` and writes up to 256 bytes, then addresses `ptr` again and
-- reads as many: it reads what it wrote, also where the pointer wraps at 256.
pub write-read :
    (s : Regfile) (ptr : ℕ) (xs : List ℕ)
    → length s.regs ≡ 256
    → ptr < 256
    → length xs ≤ 256
    → let written = send_all (send (event s I2cEvent.start_send) ptr) xs in
      recv_all
        (length xs)
        (event (send (event written I2cEvent.start_send) ptr) I2cEvent.start_recv)
      ≡ xs
unfolding event send
write-read s ptr xs size h l =
    send_all-recv_all (record s { ptr = ptr; have_ptr = true }) xs
      (record (send_all (record s { ptr = ptr; have_ptr = true }) xs) {
        ptr = ptr;
        have_ptr = true;
      })
      (record { size = size; ptr_in = h }) refl l refl refl
