-- ===== src/Egalax/Hold.antt =====
-- The report stream of the touch controller in qemu/hw/arm/garmin_gpsmap.c and its timer.
use garmin_gpsmap_emu.Prelude.{ℕ}
use garmin_gpsmap_emu.Prelude.{◌≡◌, refl, sym, ◌∙◌, ◌≢◌, arith}
use garmin_gpsmap_emu.Prelude.{Bool, true, false}
use garmin_gpsmap_emu.Prelude.{none, List, [], ◌∷◌}
use garmin_gpsmap_emu.Egalax.{Egalax, update_irq, queue_frame}
use garmin_gpsmap_emu.Egalax.Touch.{
  ℤ, Input, absolute, relative, button, other, x_axis, y_axis, input_event, queue_touch, release,
  repeat_cb, input_sync,
}

-- Between input calls: while the host has last been told "down", the repeat timer is armed.
pub record IsArmed (s : Egalax) : Type 0 where
  pub synced : s.pressed ≡ s.last_sent_pressed
  pub down : s.pressed ≡ true → s.repeat ≢ none
  pub apart : s.pressed ≡ true → s.release_pending ≡ false
  pub pending : s.release_pending ≡ true → s.repeat ≢ none

queue_frame_keeps :
    (s : Egalax) (f : List ℕ)
    → ((queue_frame s f).pressed ≡ s.pressed)
      × ((queue_frame s f).last_sent_pressed ≡ s.last_sent_pressed)
      × ((queue_frame s f).release_pending ≡ s.release_pending)
      × ((queue_frame s f).repeat ≡ s.repeat)
unfolding queue_frame update_irq
queue_frame_keeps s f = ground arith

queue_touch_keeps :
    (s : Egalax) (down : Bool)
    → ((queue_touch s down).pressed ≡ s.pressed)
      × ((queue_touch s down).last_sent_pressed ≡ s.last_sent_pressed)
      × ((queue_touch s down).release_pending ≡ s.release_pending)
      × ((queue_touch s down).repeat ≡ s.repeat)
unfolding queue_touch
queue_touch_keeps s down = queue_frame_keeps s _

-- QEMU delivers a group of input events and then calls sync; the timer fires in between groups.
pub data Action : Type 0 where
  gesture : List Input → ℕ → Action
  expire : ℕ → Action

module _ (scale_axis : ℤ → ℕ) where
  unfoldable pub input_events : Egalax → List Input → Egalax
  input_events s [] = s
  input_events s (e ∷ es) = input_events (input_event scale_axis s e) es

  -- A timer that fires is no longer armed when its callback runs.
  unfoldable pub step : Egalax → Action → Egalax
  step s (gesture es now) = input_sync (input_events s es) now
  step s (expire now) = repeat_cb (record s { repeat = none }) now

  unfoldable pub run : Egalax → List Action → Egalax
  run s [] = s
  run s (a ∷ as_) = run (step s a) as_

  input_event_keeps :
      (s : Egalax) (e : Input)
      → ((input_event scale_axis s e).last_sent_pressed ≡ s.last_sent_pressed)
        × ((input_event scale_axis s e).release_pending ≡ s.release_pending)
        × ((input_event scale_axis s e).repeat ≡ s.repeat)
  unfolding input_event
  input_event_keeps s (absolute x_axis v) = (refl, refl, refl)
  input_event_keeps s (absolute y_axis v) = (refl, refl, refl)
  input_event_keeps s (relative x_axis v) = (refl, refl, refl)
  input_event_keeps s (relative y_axis v) = (refl, refl, refl)
  input_event_keeps s (button down) = (refl, refl, refl)
  input_event_keeps s other = (refl, refl, refl)

  input_events_keeps :
      (s : Egalax) (es : List Input)
      → ((input_events s es).last_sent_pressed ≡ s.last_sent_pressed)
        × ((input_events s es).release_pending ≡ s.release_pending)
        × ((input_events s es).repeat ≡ s.repeat)
  unfolding input_events
  input_events_keeps s [] = (refl, refl, refl)
  input_events_keeps s (e ∷ es) =
      let a = input_event_keeps s e in
      let b = input_events_keeps (input_event scale_axis s e) es in
      (b.0 ∙ a.0, b.1 ∙ a.1, b.2 ∙ a.2)

  input_sync-IsArmed :
      (s : Egalax) (now : ℕ)
      → (s.last_sent_pressed ≡ true → s.repeat ≢ none)
      → (s.last_sent_pressed ≡ true → s.release_pending ≡ false)
      → (s.release_pending ≡ true → s.repeat ≢ none)
      → IsArmed (input_sync s now)
  unfolding input_sync release
  input_sync-IsArmed s now d q p =
      let a = record s { last_sent_pressed = s.pressed } in
      ground (
        arith,
        queue_touch_keeps (record a { release_pending = false; press_ns = now }) true,
        queue_touch_keeps (record a { release_pending = false }) false,
        queue_touch_keeps s true,
      )

  repeat_cb-IsArmed :
      (s : Egalax) (now : ℕ)
      → s.pressed ≡ s.last_sent_pressed
      → (s.pressed ≡ true → s.release_pending ≡ false)
      → IsArmed (repeat_cb s now)
  unfolding repeat_cb release
  repeat_cb-IsArmed s now e q = ground (
    arith,
    queue_touch_keeps (record s { release_pending = false }) false,
    queue_touch_keeps s true,
  )

  step-IsArmed : (s : Egalax) (a : Action) → IsArmed s → IsArmed (step s a)
  unfolding step
  step-IsArmed s (gesture es now) v =
      let k = input_events_keeps s es in
      input_sync-IsArmed (input_events s es) now
        (λ h n. v.down (v.synced ∙ (sym k.0 ∙ h)) (sym k.2 ∙ n))
        (λ h. k.1 ∙ v.apart (v.synced ∙ (sym k.0 ∙ h)))
        (λ h n. v.pending (sym k.1 ∙ h) (sym k.2 ∙ n))
  step-IsArmed s (expire now) v =
      repeat_cb-IsArmed (record s { repeat = none }) now v.synced v.apart

  -- Through any sequence of groups of input events and timer callbacks: while the finger is down,
  -- and while a release is held back, the repeat timer is armed.
  pub run-IsArmed : (s : Egalax) (actions : List Action) → IsArmed s → IsArmed (run s actions)
  unfolding run
  run-IsArmed s [] v = v
  run-IsArmed s (a ∷ as_) v = run-IsArmed (step s a) as_ (step-IsArmed s a v)
