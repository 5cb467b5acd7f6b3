-- ===== src/Mailbox/Fifo.antt =====
-- The FIFOs of the mailbox as queues: what `mbox_push` and `mbox_pop` of
-- qemu/hw/arm/garmin_gpsmap.c do to the words that a mailbox holds.
use garmin_gpsmap_emu.Prelude.{ℕ, zero, suc, ◌+◌, ◌-◌, ◌≤◌, ◌<◌}
use garmin_gpsmap_emu.Prelude.{u32}
use garmin_gpsmap_emu.Prelude.{◌≡◌, refl, sym, ap, ◌∙◌, ◌≢◌, arith}
use garmin_gpsmap_emu.Prelude.{List, [], ◌∷◌, ◌++◌, map}
use garmin_gpsmap_emu.Prelude.{length, get_or, set, take, drop}
use garmin_gpsmap_emu.Prelude.{length-append, length-set, length-take, length-drop}
use mathlib.Core.List.{append_assoc, append-nil}
use garmin_gpsmap_emu.Mailbox.{Mailbox, depth, update_irq, push, pop, shift_fifo, push_all}

-- The words that mailbox `m` holds, the oldest first.
unfoldable pub contents : Mailbox → ℕ → List ℕ
contents s m = take (s.count m) (s.fifo m)

-- The array of mailbox `m` is whole and its counter within it.
unfoldable pub HasRoom : Mailbox → ℕ → Type 0
HasRoom s m = (length (s.fifo m) ≡ depth) × (s.count m ≤ depth)

module _ {A : Type 0} where
  pub take-suc-set :
      (xs : List A) (n : ℕ) (v : A)
      → n < length xs
      → take (suc n) (set xs n v) ≡ take n xs ++ (v ∷ [])
  take-suc-set [] n v h = absurd (omega arith)
  take-suc-set (x ∷ xs) zero v h = refl
  take-suc-set (x ∷ xs) (suc n) v h = ap (λ ys. x ∷ ys) (take-suc-set xs n v (omega arith))

  take-append : (xs ys : List A) (n : ℕ) → n ≤ length xs → take n (xs ++ ys) ≡ take n xs
  take-append xs ys zero h = refl
  take-append [] ys (suc n) h = absurd (omega arith)
  take-append (x ∷ xs) ys (suc n) h = ap (λ zs. x ∷ zs) (take-append xs ys n (omega arith))

  pub take_all : (xs : List A) (n : ℕ) → n ≡ length xs → take n xs ≡ xs
  take_all [] zero h = refl
  take_all [] (suc n) h = refl
  take_all (x ∷ xs) zero h = absurd (omega arith)
  take_all (x ∷ xs) (suc n) h = ap (λ ys. x ∷ ys) (take_all xs n (omega arith))

take-first :
    (f g : List ℕ) (c w : ℕ) (ws : List ℕ)
    → c ≤ length f
    → take c f ≡ w ∷ ws
    → (get_or f 0 0 ≡ w) × (take (c - 1) (drop 1 f ++ g) ≡ ws) × (c ≡ length ws + 1)
take-first f g zero w ws h e = absurd (omega (arith, ap length e))
take-first [] g (suc c) w ws h e = absurd (omega arith)
take-first (x ∷ xs) g (suc c) w ws h e =
    let same : suc c - 1 ≡ c = omega arith in
    (
      ap (λ l. get_or l 0 0) e,
      rw same (take-append xs g c (omega arith) ∙ ap (drop 1) e),
      omega (arith, ap length e, length-take xs c (omega arith)),
    )

pub contents-push :
    (s : Mailbox) (m v : ℕ)
    → HasRoom s m
    → s.count m < depth
    → contents (push s m v) m ≡ contents s m ++ (u32 v ∷ [])
unfolding contents HasRoom push update_irq
contents-push s m v h fits =
    ground (arith, take-suc-set (s.fifo m) (s.count m) (u32 v) (omega arith))

-- Another mailbox is not touched.
contents-push_ne : (s : Mailbox) (m j v : ℕ) → j ≢ m → contents (push s m v) j ≡ contents s j
unfolding contents push update_irq
contents-push_ne s m j v h = ground arith

count-push : (s : Mailbox) (m v : ℕ) → s.count m < depth → (push s m v).count m ≡ s.count m + 1
unfolding push update_irq
count-push s m v h = ground arith

push-HasRoom : (s : Mailbox) (m j v : ℕ) → HasRoom s j → HasRoom (push s m v) j
unfolding HasRoom push update_irq
push-HasRoom s m j v h = ground (arith, length-set (s.fifo m) (s.count m) (u32 v))

-- Words pushed on a mailbox with room for them all stand behind those it holds.
pub contents-push_all :
    (ws : List ℕ) (s : Mailbox) (m : ℕ)
    → HasRoom s m
    → s.count m + length ws ≤ depth
    → contents (push_all s m ws) m ≡ contents s m ++ map u32 ws
unfolding push_all
contents-push_all [] s m h fits = sym (append-nil (contents s m))
contents-push_all (w ∷ ws) s m h fits =
    contents-push_all ws (push s m w) m (push-HasRoom s m m w h)
      (omega (arith, count-push s m w (omega arith)))
    ∙ ap (λ l. l ++ map u32 ws) (contents-push s m w h (omega arith))
    ∙ append_assoc (contents s m) (u32 w ∷ []) (map u32 ws)

pub contents-push_all_ne :
    (ws : List ℕ) (s : Mailbox) (m j : ℕ) → j ≢ m → contents (push_all s m ws) j ≡ contents s j
unfolding push_all
contents-push_all_ne [] s m j h = refl
contents-push_all_ne (w ∷ ws) s m j h =
    contents-push_all_ne ws (push s m w) m j h ∙ contents-push_ne s m j w h

-- A pop takes the oldest word.
pub pop-contents :
    (s : Mailbox) (m w : ℕ) (ws : List ℕ)
    → HasRoom s m
    → contents s m ≡ w ∷ ws
    → ((pop s m).0 ≡ w) × (contents (pop s m).1 m ≡ ws)
unfolding contents HasRoom pop shift_fifo update_irq
pop-contents s m w ws h e =
    ground (
      arith,
      take-first (s.fifo m) (drop 3 (s.fifo m)) (s.count m) w ws (omega (arith, h.0, h.1)) e,
    )

pub pop-contents_ne : (s : Mailbox) (m j : ℕ) → j ≢ m → contents (pop s m).1 j ≡ contents s j
unfolding contents pop update_irq
pop-contents_ne s m j h = ground arith

pub pop-HasRoom : (s : Mailbox) (m j : ℕ) → HasRoom s j → HasRoom (pop s m).1 j
unfolding HasRoom pop shift_fifo update_irq
pop-HasRoom s m j h = ground (
  arith,
  length-append (drop 1 (s.fifo m)) (drop 3 (s.fifo m)),
  length-drop (s.fifo m) 1,
  length-drop (s.fifo m) 3,
)

-- The words collected of a request are not touched by a pop.
pub pop_keeps : (s : Mailbox) (m : ℕ) → ((pop s m).1.req ≡ s.req) × ((pop s m).1.req_n ≡ s.req_n)
unfolding pop update_irq
pop_keeps s m = ground arith

push_keeps : (s : Mailbox) (m v : ℕ) → (push s m v).req_n ≡ s.req_n
unfolding push update_irq
push_keeps s m v = ground arith

pub push_all_keeps : (ws : List ℕ) (s : Mailbox) (m : ℕ) → (push_all s m ws).req_n ≡ s.req_n
unfolding push_all push update_irq
push_all_keeps [] s m = refl
push_all_keeps (w ∷ ws) s m = push_all_keeps ws (push s m w) m ∙ push_keeps s m w
