-- ===== src/Egalax/Queue.antt =====
-- The ring of frames towards the host against the queue of the frames that wait.
use garmin_gpsmap_emu.Prelude.{ℕ, zero, suc, ◌+◌, ◌-◌, ◌%◌, ◌<◌}
use garmin_gpsmap_emu.Prelude.{◌≡◌, refl, sym, ap, ◌∙◌, inl, inr, arith}
use garmin_gpsmap_emu.Prelude.{if◌then◌else◌, ◌==◌}
use garmin_gpsmap_emu.Prelude.{List, [], ◌∷◌, ◌++◌, Bool-cases}
use garmin_gpsmap_emu.Prelude.{length, get_or, set}
use garmin_gpsmap_emu.Prelude.{get_or-set_self, get_or-set_ne}
use garmin_gpsmap_emu.Regfile.{I2cEvent}
use garmin_gpsmap_emu.Egalax.{
  Egalax, frame_size, queue_size, frame_of, update_irq, queue_frame, drop_frame, event, recv,
}
use garmin_gpsmap_emu.Egalax.Valid.{IsValid}

-- The `n` frames from index `h` of the ring on.
abbrev pub frames : List (List ℕ) → ℕ → ℕ → List (List ℕ)
frames q h zero = []
frames q h (suc n) = get_or q h [] ∷ frames q ((h + 1) % queue_size) n

-- The frames that wait, oldest first.
abbrev pub contents : Egalax → List (List ℕ)
contents s = frames s.queue s.q_head s.q_count

frames-set :
    (q : List (List ℕ)) (f : List ℕ) (n h i : ℕ)
    → length q ≡ queue_size
    → h < queue_size
    → n < queue_size
    → i ≡ (h + n) % queue_size
    → frames (set q i f) h (suc n) ≡ frames q h n ++ (f ∷ [])
frames-set q f zero h i l hh hn e =
    let k : i ≡ h = omega arith in
    rw k (ap (λ (x : List ℕ). x ∷ []) (get_or-set_self q h f [] (omega arith)))
frames-set q f (suc n) h i l hh hn e =
    let head = get_or-set_ne q i h f [] (omega arith) in
    let rest =
      frames-set q f n ((h + 1) % queue_size) i l (omega arith) (omega arith) (omega arith) in
    λ j. head j ∷ rest j

-- The bytes of frame `f` from index `i` on.
abbrev pub bytes : List ℕ → ℕ → ℕ → List ℕ
bytes f i zero = []
bytes f i (suc n) = get_or f i 0 ∷ bytes f (i + 1) n

-- `n` single-byte reads of the I2C master.
unfoldable pub recv_all : ℕ → Egalax → List ℕ × Egalax
recv_all zero s = ([], s)
recv_all (suc n) s = let (v, t) = recv s in let (vs, u) = recv_all n t in (v ∷ vs, u)

recv_lem :
    (s : Egalax) (i : ℕ)
    → s.tx_pos ≡ i
    → i < 9
    → 0 < s.q_count
    → ((recv s).0 ≡ get_or (get_or s.queue s.q_head []) i 0)
      × ((recv s).1 ≡ record s { tx_pos = i + 1 })
unfolding recv
recv_lem s i e h c = ground arith

recv_last :
    (s : Egalax)
    → s.tx_pos ≡ 9
    → 0 < s.q_count
    → ((recv s).0 ≡ get_or (get_or s.queue s.q_head []) 9 0)
      × ((recv s).1 ≡ drop_frame (record s { tx_pos = 10 }))
unfolding recv
recv_last s e c = ground arith

recv_all_frame :
    (n i : ℕ) (s : Egalax)
    → s.tx_pos ≡ i
    → i + n ≡ 9
    → 0 < s.q_count
    → ((recv_all (suc n) s).0 ≡ bytes (get_or s.queue s.q_head []) i (suc n))
      × ((recv_all (suc n) s).1 ≡ drop_frame (record s { tx_pos = 10 }))
unfolding recv_all
recv_all_frame zero i s e h c =
    let j : i ≡ 9 = omega arith in let r = recv_last s (e ∙ j) c in (rw (r.0, j) refl, r.1)
recv_all_frame (suc n) i s e h c =
    let r = recv_lem s i e (omega arith) c in
    let t = record s { tx_pos = i + 1 } in
    let k = recv_all_frame n (i + 1) t refl (omega arith) c in
    (
      λ j. r.0 j ∷ (ap (λ (u : Egalax). (recv_all (suc n) u).0) r.1 ∙ k.0) j,
      ap (λ (u : Egalax). (recv_all (suc n) u).1) r.1 ∙ k.1,
    )

-- A frame that is queued joins the end of the queue, cut or filled with zeros to 10 bytes; a full
-- queue stays as it is.
pub contents-queue_frame :
    (s : Egalax) (f : List ℕ)
    → IsValid s
    → contents (queue_frame s f)
      ≡ (if s.q_count == queue_size then contents s else contents s ++ (frame_of f ∷ []))
unfolding queue_frame update_irq
contents-queue_frame s f v = elim (Bool-cases (s.q_count == queue_size)) [
  | inl e ↦ rw e
  | inr e ↦ rw e (
      ap (frames (set s.queue ((s.q_head + s.q_count) % queue_size) (frame_of f)) s.q_head)
        (let one : s.q_count + 1 ≡ suc s.q_count = omega arith in one)
      ∙ frames-set s.queue (frame_of f) s.q_count s.q_head ((s.q_head + s.q_count) % queue_size)
          v.queue_array v.head_in (ground arith) refl)
]

frames_step :
    (q : List (List ℕ)) (h n : ℕ)
    → 0 < n
    → frames q h n ≡ get_or q h [] ∷ frames q ((h + 1) % queue_size) (n - 1)
frames_step q h zero p = absurd (omega arith)
frames_step q h (suc n) p =
    ap (λ (k : ℕ). get_or q h [] ∷ frames q ((h + 1) % queue_size) k) (omega arith)

-- If a frame waits, a master that starts a read and takes 10 bytes, without a STOP, gets exactly
-- the oldest frame, and exactly that one leaves the queue.
pub recv_frame :
    (s : Egalax)
    → 0 < s.q_count
    → let r = recv_all frame_size (event s I2cEvent.start_recv) in
      (r.0 ≡ bytes (get_or s.queue s.q_head []) 0 frame_size)
      × (contents s ≡ get_or s.queue s.q_head [] ∷ contents r.1)
unfolding event drop_frame update_irq
recv_frame s c =
    let t = record s { tx_pos = 0 } in
    let r = recv_all_frame 9 0 t refl (omega arith) c in
    (
      r.0,
      frames_step s.queue s.q_head s.q_count c
          ∙ ap (λ (u : Egalax). get_or s.queue s.q_head [] ∷ contents u) (sym r.1),
    )
