-- ===== src/Gl/Order.antt =====
-- The order in which the render thread runs the requests of a frame.
use garmin_gpsmap_emu.Prelude.{ℕ}
use garmin_gpsmap_emu.Prelude.{arith, ◌≡◌, refl, sym, ap, ◌∙◌, ◌⊎◌, inl, inr}
use garmin_gpsmap_emu.Prelude.{true, false, ◌||◌}
use garmin_gpsmap_emu.Prelude.{Option, List, [], ◌∷◌, ◌++◌, map, Bool-cases}
use mathlib.Core.List.{append_assoc, append-nil}
use garmin_gpsmap_emu.Gl.Op.{op_is_query}
use garmin_gpsmap_emu.Gl.Frame.{GlReq, Frame, is_swap, is_upload}
use garmin_gpsmap_emu.Gl.Frame.{
  frame_flush, needs_sync, reread, mark_synced, sync_queue, sync_large_textures, submit,
}

module _ (guest_read : ℕ → ℕ → Option (List ℕ)) where
  -- Requests one after the other, each with the texture bound at the time.
  unfoldable pub submits : Frame → List (ℕ × GlReq) → Frame
  submits f [] = f
  submits f ((bound, r) ∷ rest) = submits (submit guest_read false [] bound f r) rest

  -- What has run for a request: the request itself, or an upload with its texels read again.
  unfoldable pub Kept : GlReq → GlReq → Type 0
  Kept q e = (e ≡ q) ⊎ ((is_upload q.op ≡ true) × (e ≡ reread guest_read q))

  -- The same for lists of requests, place by place.
  pub data AllKept : List GlReq → List GlReq → Type 0 where
    no_more : AllKept [] []
    one_more :
        {q e : GlReq} {qs es : List GlReq} → Kept q e → AllKept qs es → AllKept (q ∷ qs) (e ∷ es)

  AllKept-refl : (qs : List GlReq) → AllKept qs qs
  unfolding Kept
  AllKept-refl [] = no_more
  AllKept-refl (q ∷ qs) = one_more (inl refl) (AllKept-refl qs)

  AllKept-append :
      {qs es rs fs : List GlReq} → AllKept qs es → AllKept rs fs → AllKept (qs ++ rs) (es ++ fs)
  AllKept-append no_more l = l
  AllKept-append (one_more k h) l = one_more k (AllKept-append h l)

  AllKept-snoc :
      {qs es : List GlReq} (q e : GlReq)
      → AllKept qs es
      → Kept q e
      → AllKept (qs ++ (q ∷ [])) (es ++ (e ∷ []))
  AllKept-snoc q e h k = AllKept-append h (one_more k no_more)

  needs_sync-upload :
      (f : Frame) (e : GlReq) → needs_sync guest_read f e ≡ true → is_upload e.op ≡ true
  unfolding needs_sync
  needs_sync-upload f e h = ground arith

  sync_queue-AllKept :
      (q before : List GlReq) (f : Frame)
      → AllKept before f.queue
      → AllKept (before ++ q) (sync_queue guest_read f q).queue
  unfolding sync_queue Kept
  sync_queue-AllKept [] before f h = rw (append-nil before) h
  sync_queue-AllKept (e ∷ rest) before f h = elim (Bool-cases (needs_sync guest_read f e)) [
    | inl s ↦
        let fresh = reread guest_read e in
        let next = record f {
          queue = f.queue ++ (fresh ∷ []);
          texsrcs = mark_synced guest_read f.texsrcs fresh;
        } in
        rw (sync_queue, s, sym (append_assoc before (e ∷ []) rest))
          (sync_queue-AllKept rest (before ++ (e ∷ [])) next
            (AllKept-snoc e fresh h (inr (needs_sync-upload f e s, refl))))
    | inr s ↦
        rw (sync_queue, s, sym (append_assoc before (e ∷ []) rest))
          (sync_queue-AllKept rest (before ++ (e ∷ [])) (record f { queue = f.queue ++ (e ∷ []) })
            (AllKept-snoc e e h (inl refl)))
  ]

  sync_queue-executed :
      (q : List GlReq) (f : Frame) → (sync_queue guest_read f q).executed ≡ f.executed
  unfolding sync_queue
  sync_queue-executed [] f = refl
  sync_queue-executed (e ∷ rest) f = elim (Bool-cases (needs_sync guest_read f e)) [
    | inl h ↦
        let fresh = reread guest_read e in
        rw (sync_queue, h)
          (sync_queue-executed rest (record f {
            queue = f.queue ++ (fresh ∷ []);
            texsrcs = mark_synced guest_read f.texsrcs fresh;
          }))
    | inr h ↦
        rw (sync_queue, h) (sync_queue-executed rest (record f { queue = f.queue ++ (e ∷ []) }))
  ]

  -- What was asked for has run, but for the queue.
  unfoldable Ran : List GlReq → Frame → Type 0
  Ran asked f = (done : List GlReq) × (asked ≡ done ++ f.queue) × AllKept done f.executed

  -- The queue flushed and a request run.
  flushed :
      (asked : List GlReq) (f : Frame) (q : List GlReq) (r : GlReq)
      → Ran asked f
      → AllKept f.queue q
      → (done : List GlReq) × (asked ++ (r ∷ []) ≡ done ++ [])
        × AllKept done ((f.executed ++ q) ++ (r ∷ []))
  unfolding Ran Kept
  flushed asked f q r (done, e, k) h = (
    (done ++ f.queue) ++ (r ∷ []),
    ap (λ l. l ++ (r ∷ [])) e ∙ sym (append-nil ((done ++ f.queue) ++ (r ∷ []))),
    AllKept-snoc r r (AllKept-append k h) (inl refl),
  )

  submit-Ran :
      (asked : List GlReq) (f : Frame) (b : ℕ) (r : GlReq)
      → Ran asked f
      → Ran (asked ++ (r ∷ [])) (submit guest_read false [] b f r)
  unfolding submit frame_flush sync_large_textures Ran
  submit-Ran asked f b r h = elim (Bool-cases (is_swap r.op)) [
    | inl swap ↦
        let synced = sync_queue guest_read (record f { queue = [] }) f.queue in
        rw (submit, swap, sync_queue-executed f.queue (record f { queue = [] }))
          (flushed asked f synced.queue r h
            (sync_queue-AllKept f.queue [] (record f { queue = [] }) no_more))
    | inr other ↦ elim (Bool-cases (op_is_query r.op)) [
      | inl query ↦ rw (submit, other, query) (flushed asked f f.queue r h (AllKept-refl f.queue))
      | inr held ↦
          rw (submit, other, held)
            (let (done, e, k) = h in
              (done, ap (λ l. l ++ (r ∷ [])) e ∙ append_assoc done f.queue (r ∷ []), k))
    ]
  ]

  submits-Ran :
      (rs : List (ℕ × GlReq)) (asked : List GlReq) (f : Frame)
      → Ran asked f
      → Ran (asked ++ map (λ p. p.1) rs) (submits f rs)
  unfolding submits
  submits-Ran [] asked f h = rw (append-nil asked) h
  submits-Ran ((b, r) ∷ rest) asked f h =
      rw (sym (append_assoc asked (r ∷ []) (map (λ p. p.1) rest))) (
        submits-Ran rest (asked ++ (r ∷ [])) (submit guest_read false [] b f r)
          (submit-Ran asked f b r h))

  submit-queue :
      (f : Frame) (b : ℕ) (r : GlReq)
      → is_swap r.op || op_is_query r.op ≡ true
      → (submit guest_read false [] b f r).queue ≡ []
  unfolding submit frame_flush
  submit-queue f b r h = elim (Bool-cases (is_swap r.op)) [
    | inl swap ↦ rw (submit, swap) refl
    | inr other ↦
        let query : op_is_query r.op ≡ true = ap (λ s. s || op_is_query r.op) (sym other) ∙ h in
        rw (submit, other, query) refl
  ]

  everything_answered :
      (asked : List GlReq) (g : Frame) → g.queue ≡ [] → Ran asked g → AllKept asked g.executed
  unfolding Ran
  everything_answered asked g empty (done, e, k) =
      rw (e ∙ ap (λ q. done ++ q) empty ∙ append-nil done) k

  -- When a call waits for its answer, as a swap or a query does, the queue is empty and everything has
  -- run in the order of submission: what had run and waited before, then the requests since, then this
  -- one. Each has run with all that it was submitted with, or is an upload whose texels are read again
  -- from the guest's memory, which is the same throughout. GARMIN_GL_RESYNC is off.
  pub answers_in_order :
      (rs : List (ℕ × GlReq)) (f : Frame) (b : ℕ) (r : GlReq)
      → is_swap r.op || op_is_query r.op ≡ true
      → let g = submit guest_read false [] b (submits f rs) r in
        (g.queue ≡ [])
        × AllKept (((f.executed ++ f.queue) ++ map (λ p. p.1) rs) ++ (r ∷ [])) g.executed
  unfolding Ran
  answers_in_order rs f b r h =
      let start : Ran (f.executed ++ f.queue) f = (f.executed, refl, AllKept-refl f.executed) in
      let last = submits-Ran rs (f.executed ++ f.queue) f start in
      let g = submit guest_read false [] b (submits f rs) r in
      let empty = submit-queue (submits f rs) b r h in
      (
        empty,
        everything_answered (((f.executed ++ f.queue) ++ map (λ p. p.1) rs) ++ (r ∷ [])) g empty
            (submit-Ran ((f.executed ++ f.queue) ++ map (λ p. p.1) rs) (submits f rs) b r last),
      )
