-- ===== src/Mailbox/NewMsg.antt =====
-- The interrupt state of the mailbox of qemu/hw/arm/garmin_gpsmap.c: the NEWMSG bits and the
-- interrupt lines, whatever the users read and write and whenever the callback comes.
use garmin_gpsmap_emu.Prelude.{ℕ, zero, suc, ◌+◌, ◌-◌, ◌*◌, ◌%◌, ◌^◌, ◌≤◌, ◌<◌}
use garmin_gpsmap_emu.Prelude.{bit_and, bit_or, not32, not64, nonzero, has}
use garmin_gpsmap_emu.Prelude.{◌≡◌, ap, ◌≢◌, arith}
use garmin_gpsmap_emu.Prelude.{◌&&◌, if◌then◌else◌, ◌==◌, ltb}
use garmin_gpsmap_emu.Prelude.{List}
use garmin_gpsmap_emu.Prelude.{update}
use garmin_gpsmap_emu.Prelude.Bits.{bit, bit_le, bit-and, bit-or, bit-not32, bit-not64, bit-clear}
use garmin_gpsmap_emu.Prelude.Bits.{bit-eq_zero}
use garmin_gpsmap_emu.Prelude.Bits.{bit_and-le_left, bit_or-lt, bit-two_pow}
use native.Mathlib.Decide.{ℕ_discrete}
use native.Mathlib.Nat.{pow-le-pow_right}
use garmin_gpsmap_emu.Mailbox.{Mailbox, mbox_n, users, for_users, update_irq, push, pop, shift_fifo}
use garmin_gpsmap_emu.Mailbox.Regs.{keep_level, soft_reset}

two_pow_lt : (k : ℕ) → k < 32 → 2 ^ k < 2 ^ 32
two_pow_lt k h =
    omega (
      arith,
      pow-le-pow_right (let e : 0 < 2 = omega arith in e) (let e : k ≤ 31 = omega arith in e),
    )

-- NEWMSG of mailbox `m` raised.
bit-raise :
    (x m j : ℕ) → bit (bit_or x (2 ^ (2 * m))) (2 * j) ≡ (if j == m then 1 else bit x (2 * j))
bit-raise x m j =
    ground (arith, bit-or x (2 ^ (2 * m)) (2 * j), bit-two_pow (2 * m) (2 * j), bit_le x (2 * j))

-- NOTFULL of mailbox `m` raised.
bit-raise_odd : (x m j : ℕ) → bit (bit_or x (2 ^ (2 * m + 1))) (2 * j) ≡ bit x (2 * j)
bit-raise_odd x m j =
    ground
      (arith, bit-or x (2 ^ (2 * m + 1)) (2 * j), bit-two_pow (2 * m + 1) (2 * j), bit_le x (2 * j))

-- NEWMSG of mailbox `m` cleared.
bit-drop :
    (x m j : ℕ)
    → x < 2 ^ 32
    → j < 16
    → bit (bit_and x (not32 (2 ^ (2 * m)))) (2 * j) ≡ (if j == m then 0 else bit x (2 * j))
bit-drop x m j fits h = ground (
  arith,
  bit-and x (2 ^ 32 - 1 - 2 ^ (2 * m) % 2 ^ 32) (2 * j),
  bit-not32 (2 ^ (2 * m)) (2 * j) (omega arith),
  bit-two_pow (2 * m) (2 * j),
  bit_le x (2 * j),
)

-- What a write of IRQSTATUS clears.
bit-keep_level :
    (n : ℕ) (count : ℕ → ℕ) (val j : ℕ)
    → j < 16
    → bit (keep_level n count val) (2 * j)
      ≡ (if ltb j n && nonzero (count j) then 0 else bit val (2 * j))
unfolding keep_level
bit-keep_level zero count val j h = ground arith
bit-keep_level (suc m) count val j h = ground (
  arith,
  bit-keep_level m count val j h,
  bit-and (keep_level m count val) (2 ^ 64 - 1 - 2 ^ (2 * m) % 2 ^ 64) (2 * j),
  bit-not64 (2 ^ (2 * m)) (2 * j) (omega arith),
  bit-two_pow (2 * m) (2 * j),
  bit_le (keep_level m count val) (2 * j),
)

-- The NEWMSG bits are those of the mailboxes that hold a word.
pub record IsLevel (s : Mailbox) : Type 0 where
  pub fits : (u : ℕ) → u < users → s.irqstatus u < 2 ^ 32
  pub level :
      (m u : ℕ)
      → m < mbox_n
      → u < users
      → bit (s.irqstatus u) (2 * m) ≡ (if nonzero (s.count m) then 1 else 0)

-- And the line of each user is up exactly when a bit that the user enabled is up.
pub record IsSound (s : Mailbox) : Type 0 where
  pub newmsg : IsLevel s
  pub line : (u : ℕ) → u < users → s.irq u ≡ has (s.irqstatus u) (s.irqenable u)

pub update_irq-IsSound : (s : Mailbox) → IsLevel s → IsSound (update_irq s)
unfolding update_irq
update_irq-IsSound s v = record {
  newmsg = record { fits = v.fits; level = v.level };
  line = λ u h. ground arith;
}

pub push-IsSound : (s : Mailbox) (m v : ℕ) → m < mbox_n → IsLevel s → IsSound (push s m v)
unfolding push
push-IsSound s m v h l = update_irq-IsSound _ (record {
  fits = λ u hu. ground (
    arith,
    l.fits u hu,
    bit_or-lt 32 (s.irqstatus u) (2 ^ (2 * m)),
    two_pow_lt (2 * m) (omega arith),
  );
  level = λ j u hj hu. ground (arith, l.level j u hj hu, bit-raise (s.irqstatus u) m j);
})

-- The status words and the whole state that a pop of a mailbox that holds a word leaves.
unfoldable cleared : Mailbox → ℕ → ℕ → ℕ
cleared s m =
    if s.count m - 1 == 0
    then for_users (λ u. bit_and (s.irqstatus u) (not32 (2 ^ (2 * m)))) s.irqstatus
    else s.irqstatus

unfoldable popped : Mailbox → ℕ → List ℕ → Mailbox
popped s m f = record s {
  fifo = update s.fifo m f;
  count = update s.count m (s.count m - 1);
  irqstatus = for_users (λ u. bit_or (cleared s m u) (2 ^ (2 * m + 1))) (cleared s m);
}

pop_held :
    (s : Mailbox) (m : ℕ)
    → s.count m ≢ 0
    → (pop s m).1 ≡ update_irq (popped s m (shift_fifo (s.fifo m)))
unfolding pop popped cleared
pop_held s m h = ground arith

pop_empty : (s : Mailbox) (m : ℕ) → s.count m ≡ 0 → (pop s m).1 ≡ s
unfolding pop
pop_empty s m h = ground arith

cleared-fits : (s : Mailbox) (m u : ℕ) → s.irqstatus u < 2 ^ 32 → cleared s m u < 2 ^ 32
unfolding cleared
cleared-fits s m u h =
    ground (arith, bit_and-le_left (s.irqstatus u) (2 ^ 32 - 1 - 2 ^ (2 * m) % 2 ^ 32))

cleared-level :
    (s : Mailbox) (m j u : ℕ)
    → s.irqstatus u < 2 ^ 32
    → j < 16
    → u < users
    → bit (cleared s m u) (2 * j)
      ≡ (if j == m && s.count m - 1 == 0 then 0 else bit (s.irqstatus u) (2 * j))
unfolding cleared
cleared-level s m j u fits h hu = ground (arith, bit-drop (s.irqstatus u) m j fits h)

popped-IsLevel :
    (s : Mailbox) (m : ℕ) (f : List ℕ)
    → m < mbox_n
    → s.count m ≢ 0
    → IsLevel s
    → IsLevel (popped s m f)
unfolding popped
popped-IsLevel s m f h some_held l = record {
  fits = λ u hu. ground (
    arith,
    bit_or-lt 32 (cleared s m u) (2 ^ (2 * m + 1)) (cleared-fits s m u (l.fits u hu)),
    two_pow_lt (2 * m + 1) (omega arith),
  );
  level = λ j u hj hu. ground (
    arith,
    l.level j u hj hu,
    bit-raise_odd (cleared s m u) m j,
    cleared-level s m j u (l.fits u hu) (omega arith) hu,
  );
}

pub pop-IsSound : (s : Mailbox) (m : ℕ) → m < mbox_n → IsSound s → IsSound (pop s m).1
pop-IsSound s m h l = elim (ℕ_discrete (s.count m) 0) [
  | yes p ↦ rw (pop_empty s m p) l
  | no p ↦ rw (pop_held s m p) (update_irq-IsSound _ (popped-IsLevel s m _ h p l.newmsg))
]

pub soft_reset-IsSound : (s : Mailbox) → IsSound (soft_reset s)
unfolding soft_reset
soft_reset-IsSound s = update_irq-IsSound _ (record {
  fits = λ u hu. omega arith;
  level = λ j u hj hu. ground (arith, bit-eq_zero 0 (2 * j) 0);
})

-- A state that differs in the other registers only.
pub same-IsSound :
    (s t : Mailbox)
    → s.irqstatus ≡ t.irqstatus
    → s.irqenable ≡ t.irqenable
    → s.irq ≡ t.irq
    → s.count ≡ t.count
    → IsSound s
    → IsSound t
same-IsSound s t a b c d l = record {
  newmsg = record {
    fits = λ u hu. ground (arith, l.newmsg.fits u hu, ap (λ f. f u) a);
    level = λ j u hj hu. ground (arith, l.newmsg.level j u hj hu, ap (λ f. f u) a, ap (λ f. f j) d);
  };
  line = λ u hu. ground (arith, l.line u hu, ap (λ f. f u) a, ap (λ f. f u) b, ap (λ f. f u) c);
}

pub clear-IsLevel :
    (s : Mailbox) (idx val : ℕ)
    → IsLevel s
    → IsLevel (record s {
      irqstatus =
          update s.irqstatus idx
            (bit_and (s.irqstatus idx) (not64 (keep_level mbox_n s.count val)));
    })
clear-IsLevel s idx val l = record {
  fits = λ u hu. ground (
    arith,
    l.fits u hu,
    bit_and-le_left (s.irqstatus idx) (2 ^ 64 - 1 - keep_level mbox_n s.count val % 2 ^ 64),
  );
  level = λ j u hj hu. ground (
    arith,
    l.level j u hj hu,
    bit-clear (s.irqstatus u) (keep_level mbox_n s.count val) (2 * j) (l.fits u hu),
    bit-keep_level mbox_n s.count val j (omega arith),
  );
}
