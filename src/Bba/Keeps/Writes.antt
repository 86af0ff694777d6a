-- ===== src/Bba/Keeps/Writes.antt =====
-- The handlers of bba/bba.go that send no message keep a predicate that obeys the rules of
-- Bba/Rules.antt, whether they return, return an error, block or panic.
use cleisthenes.Base.{
  ℕ, ◌*◌, ◌≡◌, ◌⊎◌, inl, inr, refl, Bool, true, false, not, List, [], ◌∷◌, Option, none, some,
  lookup, Option-cases, if_rule, bool_eq, ltb, length,
}
use cleisthenes.Base.Go.{Outcome, done, fail, block, panic, final, after-final}
use cleisthenes.Binary.{Binary}
use cleisthenes.Member.{Member, address_eq}
use cleisthenes.Bba.BinarySet.{to_list}
use cleisthenes.Bba.Request.{Request, bval, aux, other, Error, Result, ok, err}
use cleisthenes.Bba.State.{
  BbaRequest, BbaType, bval_type, aux_type, unknown_type, Bba, BbaGo, send_req, send_bin_value,
  send_tryout_agreement, send_advance_round, tryout_agreement_threshold,
}
use cleisthenes.Bba.Handlers.{Json, ignored, handle_aux_request, process_payload}
use cleisthenes.Bba.Local.{
  count_by_value, save_bval_if_not_exist, save_aux_if_not_exist, save_incoming_request,
  agreement_failed, agreement_success, tryout_with, tryout_agreement,
}
use cleisthenes.Bba.Rules.{Rules, decided}

pub final-ignored :
    (P : Bba → Type 0) (o : Outcome Error Bba (Unit {0})) → P (final o) → P (final (ignored o))
final-ignored P (done a s) h = h
final-ignored P (fail e s) h = h
final-ignored P (block s) h = h
final-ignored P (panic s) h = h

pub Result-cases :
    {A : Type 0} (r : Result A) → ((e : Error) × (r ≡ err e)) ⊎ ((a : A) × (r ≡ ok a))
Result-cases (ok a) = inr (a, refl)
Result-cases (err e) = inl (e, refl)

-- A decoded message is for the round that the message names.
pub process_payload-round :
    (n : ℕ) (t : BbaType) (v : Option Binary) {req : Request} {round : ℕ}
    → process_payload n t v ≡ ok (req, round)
    → round ≡ n
unfolding process_payload
process_payload-round n bval_type none h = cc
process_payload-round n bval_type (some v) h = cc
process_payload-round n aux_type none h = cc
process_payload-round n aux_type (some v) h = cc
process_payload-round n (unknown_type k) v h = cc

not-false : (b : Bool) → not b ≡ false → b ≡ true
not-false true h = refl
not-false false h = cc

module _ {json : Json} {In : Binary → Type 0} {Ok : BbaRequest → Type 0} {P : Bba → Type 0}
    (R : Rules json In Ok P) where
  abbrev pub Ends : Outcome Error Bba (Unit {0}) → Type 0
  Ends o = P (final o)

  pub send_req-keeps : (s : Bba) (r : BbaRequest) → Ok r → P s → Ends (send_req r s)
  unfolding send_req
  send_req-keeps s r known h =
      if_rule Ends s.req_chan_closed (λ _. h)
        (λ _. if_rule Ends (ltb (length s.req_chan) (s.n * 8)) (λ _. R.push s r known h) (λ _. h))

  pub send_bin_value-keeps : (s : Bba) (r : ℕ) → P s → Ends (send_bin_value r s)
  unfolding send_bin_value
  send_bin_value-keeps s r h =
      if_rule Ends (ltb (length s.bin_value_chan) (s.n * 4)) (λ _. R.set_bin_value_chan s _ h)
        (λ _. h)

  send_tryout_agreement-keeps : (s : Bba) (r : ℕ) → P s → Ends (send_tryout_agreement r s)
  unfolding send_tryout_agreement
  send_tryout_agreement-keeps s r h =
      if_rule Ends (ltb (length s.tryout_agreement_chan) (s.n * 4))
        (λ _. R.set_tryout_agreement_chan s _ h) (λ _. h)

  send_advance_round-keeps : (s : Bba) (r : ℕ) → P s → Ends (send_advance_round r s)
  unfolding send_advance_round
  send_advance_round-keeps s r h =
      if_rule Ends (ltb (length s.advance_round_chan) (s.n * 4))
        (λ _. R.set_advance_round_chan s _ h) (λ _. h)

  pub save_bval_if_not_exist-keeps :
      (s : Bba) (sender : Member) (v : Binary)
      → Ok (record { sender = sender; payload = bval v; round = s.round })
      → P s
      → Ends (save_bval_if_not_exist sender v s)
  unfolding save_bval_if_not_exist
  save_bval_if_not_exist-keeps s sender v known h =
      elim (Option-cases (lookup sender.address s.bval_repo)) [
        | inl new ↦ rw (new, save_bval_if_not_exist) (R.save_bval s sender v known new h)
        | inr (w, old) ↦ rw (old, save_bval_if_not_exist) h
      ]

  save_aux_if_not_exist-keeps :
      (s : Bba) (sender : Member) (v : Binary)
      → Ok (record { sender = sender; payload = aux v; round = s.round })
      → P s
      → Ends (save_aux_if_not_exist sender v s)
  unfolding save_aux_if_not_exist
  save_aux_if_not_exist-keeps s sender v known h =
      elim (Option-cases (lookup sender.address s.aux_repo)) [
        | inl new ↦ rw (new, save_aux_if_not_exist) (R.save_aux s sender v known new h)
        | inr (w, old) ↦ rw (old, save_aux_if_not_exist) h
      ]

  pub save_incoming_request-keeps :
      (s : Bba) (round : ℕ) (sender : Member) (req : Request)
      → Ok (record { sender = sender; payload = req; round = round })
      → P s
      → Ends (save_incoming_request round sender req s)
  unfolding save_incoming_request
  save_incoming_request-keeps s round sender (bval v) known h = R.keep_bval s _ known h
  save_incoming_request-keeps s round sender (aux v) known h = R.keep_aux s _ known h
  save_incoming_request-keeps s round sender other known h = h

  agreement_failed-keeps :
      (s : Bba) (b : Binary)
      → P (record s { est = record { value = b; undefined = false } })
      → Ends (agreement_failed b s)
  unfolding agreement_failed
  agreement_failed-keeps s b h = send_advance_round-keeps _ s.round h

  agreement_success-keeps :
      (s : Bba) (b : Binary)
      → s.done.value ≡ false
      → to_list s.bin_value_set ≡ b ∷ []
      → b ≡ s.coin_generator s.round
      → P s
      → Ends (agreement_success b s)
  unfolding agreement_success
  agreement_success-keeps s b undone single coin h =
      send_advance_round-keeps (decided b s) s.round (R.decide s b undone single coin h)

  tryout_with-keeps :
      (s : Bba) (l : List Binary)
      → s.done.value ≡ false
      → to_list s.bin_value_set ≡ l
      → P s
      → Ends (tryout_with l (s.coin_generator s.round) s)
  unfolding tryout_with
  tryout_with-keeps s [] undone e h = h
  tryout_with-keeps s (b ∷ []) undone e h =
      if_rule (λ (m : BbaGo (Unit {0})). Ends (m s))
        (not (bool_eq.beq b (s.coin_generator s.round)))
        (λ _. agreement_failed-keeps s b (R.fail_single s b e h))
        (λ same.
          agreement_success-keeps s b undone e
            ((bool_eq.beq_iff b (s.coin_generator s.round)).0 (not-false _ same)) h)
  tryout_with-keeps s (b ∷ c ∷ bs) undone e h =
      agreement_failed-keeps s _ (R.fail_several s b c bs e h)

  pub tryout_agreement-keeps : (s : Bba) → P s → Ends (tryout_agreement s)
  unfolding tryout_agreement
  tryout_agreement-keeps s h =
      if_rule Ends s.done.value (λ _. h) (λ undone. tryout_with-keeps s _ undone refl h)

  pub handle_aux_request-keeps :
      (s : Bba) (sender : Member) (v : Binary)
      → Ok (record { sender = sender; payload = aux v; round = s.round })
      → P s
      → Ends (handle_aux_request sender v s)
  unfolding handle_aux_request
  handle_aux_request-keeps s sender v known h =
      after-final P (save_aux_if_not_exist sender v s) _
        (save_aux_if_not_exist-keeps s sender v known h)
        (λ _ t k.
          if_rule (λ (m : BbaGo (Unit {0})). Ends (m t))
            (ltb (count_by_value v t.aux_repo) (tryout_agreement_threshold t)) (λ _. k)
            (λ _. send_tryout_agreement-keeps t t.round k))
