-- ===== src/Bba/Keeps.antt =====
-- bba/bba.go: a predicate that obeys the rules of Bba/Rules.antt holds after every schedule.
mod Writes
mod Messages
use cleisthenes.Base.{ℕ, ◌≡◌, refl, Bool, List, [], ◌∷◌, All, if_rule, if◌then◌else◌}
use cleisthenes.Base.Go.{final, after-final}
use cleisthenes.Binary.{Binary}
use cleisthenes.Member.{Member}
use cleisthenes.Bba.State.{BbaRequest, BbaMessage, Bba}
use cleisthenes.Bba.Handlers.{
  Json, handle_message, handle_input, mux_message, handle_delayed_aux_request,
  broadcast_aux_once_for_round, advance_round,
}
use cleisthenes.Bba.Local.{match_with_current_round, tryout_agreement}
use cleisthenes.Bba.Run.{
  Event, take_req, take_bin_value, take_tryout_agreement, take_advance_round, message, input, close,
  stop, on_req, on_bin_value, on_tryout_agreement, on_advance_round, step, run,
}
use cleisthenes.Bba.Rules.{Rules}
use Writes.{Ends, final-ignored, tryout_agreement-keeps}
use Messages.{
  Known, handle_message-keeps, handle_input-keeps, mux_message-keeps,
  handle_delayed_aux_request-keeps, broadcast_aux_once_for_round-keeps, advance_round-keeps,
}

module _ {json : Json} {In : Binary → Type 0} {Ok : BbaRequest → Type 0} {P : Bba → Type 0}
    (R : Rules json In Ok P) where
  -- What is known of an event: that of the message that it brings.
  abbrev pub KnownEvent : Event → Type 0
  KnownEvent (message sender msg) = Known json R sender msg
  KnownEvent (input v) = In v
  KnownEvent _ = Unit

  -- Where every request and every input will do, so does every event.
  pub events-Known :
      ((v : Binary) → In v) → ((r : BbaRequest) → Ok r) → (es : List Event) → All KnownEvent es
  events-Known any all [] = tt
  events-Known any all (take_req ∷ es) = (tt, events-Known any all es)
  events-Known any all (take_bin_value ∷ es) = (tt, events-Known any all es)
  events-Known any all (take_tryout_agreement ∷ es) = (tt, events-Known any all es)
  events-Known any all (take_advance_round ∷ es) = (tt, events-Known any all es)
  events-Known any all (message sender msg ∷ es) = (λ req round e. all _, events-Known any all es)
  events-Known any all (input v ∷ es) = (any v, events-Known any all es)
  events-Known any all (close ∷ es) = (tt, events-Known any all es)

  on_req-keeps : (q : List BbaRequest) (s : Bba) → s.req_chan ≡ q → P s → Ends R (on_req json q s)
  unfolding on_req
  on_req-keeps [] s e h = h
  on_req-keeps (r ∷ rs) s e h =
      let (k, known) = R.pop s r rs e h in
      final-ignored P (mux_message json r.sender r.round r.payload _)
        (mux_message-keeps json R _ r.sender r.round r.payload known k)

  on_bin_value-keeps : (q : List ℕ) (s : Bba) → P s → Ends R (on_bin_value json q s)
  unfolding on_bin_value
  on_bin_value-keeps [] s h = h
  on_bin_value-keeps (r ∷ rs) s h =
      let k = R.set_bin_value_chan s rs h in
      if_rule (Ends R) (match_with_current_round r s)
        (λ _.
          after-final P (broadcast_aux_once_for_round json _) _
            (broadcast_aux_once_for_round-keeps json R _ k)
            (λ _ t k'. handle_delayed_aux_request-keeps json R t k'))
        (λ _. k)

  on_tryout_agreement-keeps : (q : List ℕ) (s : Bba) → P s → Ends R (on_tryout_agreement json q s)
  unfolding on_tryout_agreement
  on_tryout_agreement-keeps [] s h = h
  on_tryout_agreement-keeps (r ∷ rs) s h =
      let k = R.set_tryout_agreement_chan s rs h in
      if_rule (Ends R) (match_with_current_round r s) (λ _. tryout_agreement-keeps R _ k) (λ _. k)

  on_advance_round-keeps : (q : List ℕ) (s : Bba) → P s → Ends R (on_advance_round json q s)
  unfolding on_advance_round
  on_advance_round-keeps [] s h = h
  on_advance_round-keeps (r ∷ rs) s h =
      let k = R.set_advance_round_chan s rs h in
      if_rule (Ends R) (match_with_current_round r s) (λ _. advance_round-keeps json R _ k) (λ _. k)

  -- One event keeps the predicate.
  pub step-keeps : (e : Event) (s : Bba) → KnownEvent e → P s → Ends R (step json e s)
  unfolding step stop
  step-keeps take_req s _ h =
      if_rule (Ends R) s.stop_flag (λ _. h) (λ _. on_req-keeps s.req_chan s refl h)
  step-keeps take_bin_value s _ h =
      if_rule (Ends R) s.stop_flag (λ _. h) (λ _. on_bin_value-keeps s.bin_value_chan s h)
  step-keeps take_tryout_agreement s _ h =
      if_rule (Ends R) s.stop_flag (λ _. h)
        (λ _. on_tryout_agreement-keeps s.tryout_agreement_chan s h)
  step-keeps take_advance_round s _ h =
      if_rule (Ends R) s.stop_flag (λ _. h) (λ _. on_advance_round-keeps s.advance_round_chan s h)
  step-keeps (message sender msg) s known h =
      final-ignored P (handle_message json sender msg s)
        (handle_message-keeps json R s sender msg known h)
  step-keeps (input v) s given h =
      final-ignored P (handle_input json v s) (handle_input-keeps json R s v given h)
  step-keeps close s _ h = if_rule (Ends R) s.stop_flag (λ _. h) (λ _. R.set_stopped s h)

  -- So does every schedule, as far as it goes.
  pub run-keeps : (es : List Event) (s : Bba) → All KnownEvent es → P s → Ends R (run json es s)
  unfolding run
  run-keeps [] s known h = h
  run-keeps (e ∷ es) s known h =
      after-final P (step json e s) _ (step-keeps e s known.0 h) (λ _ t k. run-keeps es t known.1 k)
