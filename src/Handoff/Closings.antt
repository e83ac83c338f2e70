-- ===== src/Handoff/Closings.antt =====
-- The handoff itself: the mapping is written before the turn is closed.
use codex_waiting_plgin.Registry.Bindings.{mapping}
use codex_waiting_plgin.Handoff.{
  turn_interrupted, handoff_requested, raced, completed_before, refused, Session, interrupted,
  Closing, Marker, hand_off, handoff_turn_closed, request, HandoffPhase, phase_text, set_item,
  close_current_turn, lift, close_noted, status_of,
}
use codex_waiting_plgin.Prelude.Dict.{get}
use codex_waiting_plgin.Prelude.{
  ◌≡◌, is_some, String, Bool, false, some, true, none, Option, if◌then◌else◌, refl, ap, ◌∷◌, [],
  List,
}
use codex_waiting_plgin.Delivery.Sent.{is_ok}
use codex_waiting_plgin.Registry.{
  Handoff, ThreadRecord, find_job, new_handoff, record_handoff, HandoffField, turn_status_field,
  state_field,
}
use codex_waiting_plgin.Handoff.Waits.{recorded, lift_ok, note_known, recorded-after_note}
use codex_waiting_plgin.Prelude.Exec.{ok}
use codex_waiting_plgin.Registry.Recording.{record_handoff_adds, record_handoff_new, refreshed}

-- The closings after which the handoff returns.
abbrev pub closes : Closing → Bool
closes (completed_before status) = true
closes (interrupted end) = is_some end
closes (raced end) = is_some end
closes refused = false

abbrev closed_phase : Closing → HandoffPhase
closed_phase (interrupted end) = turn_interrupted
closed_phase closing = handoff_turn_closed

-- What the registry says of the state afterwards.
abbrev pub closed_state : Closing → String
closed_state closing =
    if closes closing then phase_text (closed_phase closing) else phase_text handoff_requested

module _ (now raced_error thread turn : String) (m : Marker) (item : Option String)
    (r : ThreadRecord) (s : Session) where
  abbrev pub requested : Handoff
  requested = new_handoff now thread turn item m.job_id m.object (phase_text handoff_requested)

  -- The session whose handoff is recorded.
  abbrev mapped_session : Session
  mapped_session =
      let l =
        record_handoff now thread turn item m.job_id m.object (phase_text handoff_requested)
          s.threads in
      set_item requested (record (request thread turn s m item) { threads = l.1 })

  module _ (g : get thread s.threads ≡ some r) (n : find_job m.job_id r.handoffs ≡ none) where
    is_mapped : recorded thread m.job_id mapped_session.threads ≡ some requested
    is_mapped =
        record_handoff_adds now thread turn m.job_id (phase_text handoff_requested) item m.object r
          s.threads g n

    recorded_first :
        lift (request thread turn s m item) (
          record_handoff now thread turn item m.job_id m.object
            (phase_text handoff_requested)
            s.threads)
        ≡ (ok requested, record (request thread turn s m item) { threads = mapped_session.threads })
    recorded_first =
        lift_ok (request thread turn s m item) requested
          (record_handoff now thread turn item m.job_id m.object (phase_text handoff_requested)
            s.threads)
          (ap (λ p. p.0)
            (record_handoff_new now thread turn m.job_id (phase_text handoff_requested) item
              m.object r s.threads g n))

    noted :
        (t : Session)
        → recorded t.observation.thread_id m.job_id t.threads ≡ some requested
        → let (reply, u) = close_noted now m.job_id t in
          (is_ok reply ≡ true)
          × (h : Handoff) × (recorded t.observation.thread_id m.job_id u.threads ≡ some h)
          × (mapping h ≡ mapping requested)
          × (h.state ≡ phase_text t.observation.phase)
    noted t k =
        let fs : List HandoffField =
          state_field (phase_text t.observation.phase)
          ∷ turn_status_field (status_of t.observation.turn)
          ∷ [] in
        rw (note_known now m.job_id fs requested t k) (
          refl,
          refreshed now fs requested,
          recorded-after_note now m.job_id fs requested t k,
          refl,
          refl,
        )

  -- Where the thread is registered and does not hold the job, the handoff is mapped to the turn
  -- whatever closes the turn: with the state of the closing where that succeeds, and with the state
  -- HANDOFF_REQUESTED where it fails and the handoff raises.
  pub hand_off_maps :
      (closing : Closing)
      → get thread s.threads ≡ some r
      → find_job m.job_id r.handoffs ≡ none
      → let (reply, t) = hand_off now raced_error thread turn m item closing s in
        (is_ok reply ≡ closes closing)
        × (h : Handoff) × (recorded thread m.job_id t.threads ≡ some h)
        × (mapping h ≡ mapping requested)
        × (h.state ≡ closed_state closing)
  unfolding hand_off close_current_turn
  hand_off_maps (completed_before status) g n = rw (recorded_first g n) (
      noted g n (close_current_turn raced_error (completed_before status) mapped_session).1
        (is_mapped g n))
  hand_off_maps refused g n = rw (recorded_first g n) (refl, requested, is_mapped g n, refl, refl)
  hand_off_maps (interrupted none) g n =
      rw (recorded_first g n) (refl, requested, is_mapped g n, refl, refl)
  hand_off_maps (interrupted (some status)) g n = rw (recorded_first g n) (
      noted g n (close_current_turn raced_error (interrupted (some status)) mapped_session).1
        (is_mapped g n))
  hand_off_maps (raced none) g n =
      rw (recorded_first g n) (refl, requested, is_mapped g n, refl, refl)
  hand_off_maps (raced (some status)) g n = rw (recorded_first g n) (
      noted g n (close_current_turn raced_error (raced (some status)) mapped_session).1
        (is_mapped g n))
