-- ===== src/Mailbox/Echo.antt =====
-- The pretend Ducati, `mbox_ducati_reply` of qemu/hw/arm/garmin_gpsmap.c, and its requests.
use garmin_gpsmap_emu.Prelude.{ℕ, zero, suc, ◌+◌, ◌≤◌, ◌<◌}
use garmin_gpsmap_emu.Prelude.{u32}
use garmin_gpsmap_emu.Prelude.{◌≡◌, refl, sym, ap, ◌∙◌, ◌≢◌, arith}
use garmin_gpsmap_emu.Prelude.{List, [], ◌∷◌, ◌++◌, map}
use garmin_gpsmap_emu.Prelude.{length, set, take}
use garmin_gpsmap_emu.Prelude.{length-append, length-take, length-set}
use mathlib.Core.List.{append_assoc, append-nil}
use garmin_gpsmap_emu.Mailbox.{Mailbox, depth, mpu_tx, mpu_rx, pop, collect, push_all, ducati_reply}
use garmin_gpsmap_emu.Mailbox.Fifo.{
  contents, HasRoom, contents-push_all, contents-push_all_ne, pop-contents, pop-contents_ne,
  pop-HasRoom, pop_keeps, push_all_keeps, take_all, take-suc-set,
}

-- The request so far: the words collected and the words still queued.
unfoldable pub request : Mailbox → List ℕ
request s = take s.req_n s.req ++ contents s mpu_tx

-- The arrays are whole and their counters within them.
pub record IsWhole (s : Mailbox) : Type 0 where
  pub queue : HasRoom s mpu_tx
  pub answer : HasRoom s mpu_rx
  pub buffer : length s.req ≡ depth
  pub filled : s.req_n ≤ depth

-- One round of the loop.
unfoldable pub round : Mailbox → Mailbox
round s = (let (v, t) = pop s mpu_tx in record t { req = set t.req t.req_n v; req_n = t.req_n + 1 })

round-IsWhole : (s : Mailbox) → IsWhole s → s.req_n < depth → IsWhole (round s)
unfolding round contents HasRoom
round-IsWhole s w h =
    let k = pop_keeps s mpu_tx in
    record {
      queue = pop-HasRoom s mpu_tx mpu_tx w.queue;
      answer = pop-HasRoom s mpu_tx mpu_rx w.answer;
      buffer =
          length-set (pop s mpu_tx).1.req (pop s mpu_tx).1.req_n (pop s mpu_tx).0
          ∙ ap length k.0
          ∙ w.buffer;
      filled = omega (arith, k.1);
    }

round_collects :
    (s : Mailbox) (w : ℕ) (ws : List ℕ)
    → IsWhole s
    → s.req_n < depth
    → contents s mpu_tx ≡ w ∷ ws
    → (contents (round s) mpu_tx ≡ ws)
      × (take (round s).req_n (round s).req ≡ take s.req_n s.req ++ (w ∷ []))
      × ((round s).req_n ≡ s.req_n + 1)
      × (contents (round s) mpu_rx ≡ contents s mpu_rx)
unfolding round contents HasRoom
round_collects s w ws v h e =
    let k = pop_keeps s mpu_tx in
    let p = pop-contents s mpu_tx w ws v.queue e in
    let one : s.req_n + 1 ≡ suc s.req_n = omega arith in
    (
      p.1,
      rw (k.0, k.1, p.0, one) (take-suc-set s.req s.req_n w (omega (arith, v.buffer))),
      omega (arith, k.1),
      pop-contents_ne s mpu_tx mpu_rx (omega arith),
    )

-- What the loop leaves, while the request fits.
record IsCollected (s t : Mailbox) : Type 0 where
  whole : IsWhole t
  drained : contents t mpu_tx ≡ []
  taken : take t.req_n t.req ≡ request s
  size : t.req_n ≡ length (request s)
  answered : contents t mpu_rx ≡ contents s mpu_rx

collect-round :
    (n : ℕ) (s : Mailbox)
    → s.count mpu_tx ≢ 0
    → s.req_n < depth
    → collect (suc n) s ≡ collect n (round s)
unfolding collect round
collect-round n s h r = ground arith

collect_stop : (n : ℕ) (s : Mailbox) → s.count mpu_tx ≡ 0 → collect n s ≡ s
unfolding collect
collect_stop zero s h = refl
collect_stop (suc n) s h = ground arith

count-contents : (s : Mailbox) (m : ℕ) → HasRoom s m → length (contents s m) ≡ s.count m
unfolding HasRoom contents
count-contents s m h = length-take (s.fifo m) (s.count m) (omega (arith, h.0, h.1))

stop-IsCollected : (s : Mailbox) → IsWhole s → contents s mpu_tx ≡ [] → IsCollected s s
unfolding request
stop-IsCollected s v e =
    let same : request s ≡ take s.req_n s.req =
      ap (λ l. take s.req_n s.req ++ l) e ∙ append-nil (take s.req_n s.req) in
    record {
      whole = v;
      drained = e;
      taken = sym same;
      answered = refl;
      size = rw same (sym (length-take s.req s.req_n (omega (arith, v.filled, v.buffer))));
    }

request-round :
    (s : Mailbox) (w : ℕ) (ws : List ℕ)
    → IsWhole s
    → s.req_n < depth
    → contents s mpu_tx ≡ w ∷ ws
    → request (round s) ≡ request s
unfolding request
request-round s w ws v h e =
    let r = round_collects s w ws v h e in
    rw (r.1, r.0, e) (append_assoc (take s.req_n s.req) (w ∷ []) ws)

collects :
    (ws : List ℕ) (n : ℕ) (s : Mailbox)
    → IsWhole s
    → contents s mpu_tx ≡ ws
    → length ws ≤ n
    → s.req_n + length ws ≤ depth
    → IsCollected s (collect n s)
collects [] n s v e h fits =
    rw (collect_stop n s (omega (arith, count-contents s mpu_tx v.queue, ap length e)))
      (stop-IsCollected s v e)
collects (w ∷ ws) zero s v e h fits = absurd (omega arith)
collects (w ∷ ws) (suc n) s v e h fits =
    let r = round_collects s w ws v (omega arith) e in
    let c =
      collects ws n (round s) (round-IsWhole s v (omega arith)) r.0 (omega arith)
        (omega (arith, r.2)) in
    let same = request-round s w ws v (omega arith) e in
    rw
      (collect-round n s (omega (arith, count-contents s mpu_tx v.queue, ap length e))
        (omega arith))
      (record {
        whole = c.whole;
        drained = c.drained;
        taken = c.taken ∙ same;
        size = c.size ∙ ap length same;
        answered = c.answered ∙ r.3;
      })

collected : (s : Mailbox) → IsWhole s → length (request s) ≤ depth → IsCollected s (collect depth s)
unfolding request
collected s v fits =
    let a = length-append (take s.req_n s.req) (contents s mpu_tx) in
    let b = length-take s.req s.req_n (omega (arith, v.filled, v.buffer)) in
    collects (contents s mpu_tx) depth s v refl (omega arith) (omega arith)

request_collected : (s t : Mailbox) → IsCollected s t → request t ≡ request s
unfolding request
request_collected s t c = rw c.drained (append-nil (take t.req_n t.req) ∙ c.taken)

ducati_reply_short :
    (s : Mailbox) → (collect depth s).req_n < depth → ducati_reply s ≡ collect depth s
unfolding ducati_reply
ducati_reply_short s h = ground arith

-- The answer to a whole request.
unfoldable answer : Mailbox → Mailbox
answer t = push_all (record t { req_n = 0; seq = u32 (t.seq + 1) }) mpu_rx t.req

ducati_reply_long :
    (s : Mailbox) → depth ≤ (collect depth s).req_n → ducati_reply s ≡ answer (collect depth s)
unfolding ducati_reply answer
ducati_reply_long s h = ground arith

answer_echoes :
    (t : Mailbox) → IsWhole t → contents t mpu_rx ≡ [] → contents (answer t) mpu_rx ≡ map u32 t.req
unfolding answer contents HasRoom
answer_echoes t v e =
    let u : Mailbox = record t { req_n = 0; seq = u32 (t.seq + 1) } in
    let none_held : t.count mpu_rx ≡ 0 = omega (
      arith,
      length-take (t.fifo mpu_rx) (t.count mpu_rx) (omega (arith, v.answer.0, v.answer.1)),
      ap length e,
    ) in
    contents-push_all t.req u mpu_rx v.answer (omega (arith, v.buffer))
    ∙ ap (λ l. l ++ map u32 t.req) e

answer_restarts : (t : Mailbox) → contents t mpu_tx ≡ [] → request (answer t) ≡ []
unfolding answer request contents
answer_restarts t e =
    let u : Mailbox = record t { req_n = 0; seq = u32 (t.seq + 1) } in
    rw (push_all_keeps t.req u mpu_rx)
      (contents-push_all_ne t.req u mpu_rx mpu_tx (omega arith) ∙ e)

-- While fewer than four words have come, the callback sends nothing and keeps the words for the
-- next time.
ducati_reply_waits :
    (s : Mailbox)
    → IsWhole s
    → length (request s) < depth
    → (contents (ducati_reply s) mpu_rx ≡ contents s mpu_rx)
      × (request (ducati_reply s) ≡ request s)
ducati_reply_waits s v h =
    let c = collected s v (omega arith) in
    rw (ducati_reply_short s (omega (arith, c.size)))
      (c.answered, request_collected s (collect depth s) c)

-- When the words collected before and the words queued now are a request of four words and the
-- answer mailbox is empty, the callback takes the request whole and leaves exactly its words, in
-- order, in the answer mailbox, ready for the next request.
pub ducati_reply_echoes :
    (s : Mailbox)
    → IsWhole s
    → length (request s) ≡ depth
    → contents s mpu_rx ≡ []
    → (contents (ducati_reply s) mpu_rx ≡ map u32 (request s)) × (request (ducati_reply s) ≡ [])
ducati_reply_echoes s v h empty =
    let c = collected s v (omega arith) in
    let whole : (collect depth s).req ≡ request s =
      sym (take_all (collect depth s).req (collect depth s).req_n (c.size ∙ h ∙ sym c.whole.buffer))
      ∙ c.taken in
    rw (ducati_reply_long s (omega (arith, c.size))) (
      answer_echoes (collect depth s) c.whole (c.answered ∙ empty) ∙ ap (map u32) whole,
      answer_restarts (collect depth s) c.drained,
    )
