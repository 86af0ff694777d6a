-- ===== src/Bba/Keeps/Messages.antt =====
-- The handlers of bba/bba.go that send messages keep a predicate that obeys the rules of
-- Bba/Rules.antt.
use cleisthenes.Base.{
  ℕ, ◌≡◌, true, some, lookup-insert, bool_eq, inl, inr, subst, sym, false, not, List, [], ◌∷◌, ◌&&◌,
  All, All-select, Option-cases, ◌==◌, ==_iff, if_rule, arith, ltb,
}
use cleisthenes.Base.Go.{after-final}
use cleisthenes.Binary.{Binary}
use cleisthenes.Member.{Member}
use cleisthenes.Bba.BinarySet.{BinarySet, exist, union, to_list}
use cleisthenes.Bba.Request.{Request, bval, aux, other, ok, IncomingRequest, find_incoming}
use cleisthenes.Bba.State.{
  BbaRequest, BbaType, BbaMessage, Bba, send_req, bval_broadcast_threshold, bin_value_set_threshold,
}
use cleisthenes.Bba.Handlers.{
  Json, ignore, process_payload, type_of, marshal, handle_message, share, broadcast, handle_input,
  after_bval, handle_bval_request, mux_request, mux_message, send_delayed,
  handle_delayed_bval_request, handle_delayed_aux_request, broadcast_aux,
  broadcast_aux_once_for_round, advance_round,
}
use cleisthenes.Bba.Local.{count_by_value, save_bval_if_not_exist}
use cleisthenes.Bba.Rules.{Reason, estimate, relay, support, Rules, request_of, advanced}
use cleisthenes.Bba.Keeps.Writes.{
  final-ignored, Result-cases, process_payload-round, Ends, send_req-keeps, send_bin_value-keeps,
  save_bval_if_not_exist-keeps, save_incoming_request-keeps, handle_aux_request-keeps,
}

-- A value is in a set after it was put in.
exist-union_same : (v : Binary) (s : BinarySet) → exist v (union v s) ≡ true
unfolding exist union
exist-union_same v s = ground (arith, lookup-insert v v true s, bool_eq.beq_iff v v)

module _ (json : Json) {In : Binary → Type 0} {Ok : BbaRequest → Type 0} {P : Bba → Type 0}
    (R : Rules json In Ok P) where
  -- What is known of a message: all that is known of the request that it decodes to.
  abbrev pub Known : Member → BbaMessage → Type 0
  Known sender msg =
      (req : Request) (round : ℕ)
      → process_payload msg.round msg.type (json.unmarshal msg.payload) ≡ ok (req, round)
      → Ok (record { sender = sender; payload = req; round = round })

  pub handle_message-keeps :
      (s : Bba) (sender : Member) (msg : BbaMessage)
      → Known sender msg
      → P s
      → Ends R (handle_message json sender msg s)
  unfolding handle_message
  handle_message-keeps s sender msg known h =
      elim (Result-cases (process_payload msg.round msg.type (json.unmarshal msg.payload))) [
        | inl (e, bad) ↦ rw (bad, handle_message) h
        | inr ((req, round), good) ↦
            rw (good, handle_message) (send_req-keeps R s _ (known req round good) h)
      ]

  own-Known :
      (s : Bba) {req : Request} {t : BbaType} {p : List ℕ}
      → Reason s req
      → type_of req ≡ some t
      → marshal json req ≡ some p
      → P s
      → Known s.owner (record { round = s.round; type = t; payload = p })
  own-Known s {t = t} {p = p} why typed marshalled h req round e =
      subst (λ n. Ok (record { sender = s.owner; payload = req; round = n }))
        (sym (process_payload-round s.round t (json.unmarshal p) e))
        (R.own_decoded s why typed marshalled e h)

  broadcast-keeps : (s : Bba) (req : Request) → Reason s req → P s → Ends R (broadcast json req s)
  unfolding broadcast share
  broadcast-keeps s req why h = elim (Option-cases (type_of req)) [
    | inl bad ↦ rw (bad, broadcast) h
    | inr (typ, good) ↦ elim (Option-cases (marshal json req)) [
      | inl bad' ↦ rw (good, bad', broadcast) h
      | inr (p, good') ↦
          rw (good, good', broadcast)
            (after-final P (ignore (handle_message json s.owner _) s) _
              (final-ignored P (handle_message json s.owner _ s)
                (handle_message-keeps s s.owner _ (own-Known s why good good' h) h))
              (λ _ t k. R.share s t req h (R.own s why h) good good' k))
    ]
  ]

  pub handle_input-keeps : (s : Bba) (v : Binary) → In v → P s → Ends R (handle_input json v s)
  unfolding handle_input
  handle_input-keeps s v given h =
      let t = record s { est = record { value = v; undefined = false } } in
      let k = R.take_input s v given h in
      after-final P (broadcast json (bval v) t) _ (broadcast-keeps t (bval v) estimate k)
        (λ _ u k'. send_req-keeps R u _ (R.own t estimate k) k')

  after_bval-keeps : (s : Bba) (v : Binary) → P s → Ends R (after_bval json v s)
  unfolding after_bval
  after_bval-keeps s v h =
      if_rule (Ends R) (count_by_value v s.bval_repo == bin_value_set_threshold s)
        (λ e. send_bin_value-keeps R _ s.round (R.add_bin_value s v ((==_iff _ _).0 e) h))
        (λ _.
          if_rule (Ends R)
            (count_by_value v s.bval_repo == bval_broadcast_threshold s
              && not (exist v s.broadcasted_bval_set))
            (λ e.
              broadcast-keeps _ (bval v) (relay v (exist-union_same v s.broadcasted_bval_set))
                (R.add_broadcasted s v (ground arith) h))
            (λ _. h))

  handle_bval_request-keeps :
      (s : Bba) (sender : Member) (v : Binary)
      → Ok (record { sender = sender; payload = bval v; round = s.round })
      → P s
      → Ends R (handle_bval_request json sender v s)
  unfolding handle_bval_request
  handle_bval_request-keeps s sender v known h =
      after-final P (save_bval_if_not_exist sender v s) _
        (save_bval_if_not_exist-keeps R s sender v known h) (λ _ t k. after_bval-keeps t v k)

  mux_request-keeps :
      (s : Bba) (sender : Member) (req : Request)
      → Ok (record { sender = sender; payload = req; round = s.round })
      → P s
      → Ends R (mux_request json sender req s)
  unfolding mux_request
  mux_request-keeps s sender (bval v) known h = handle_bval_request-keeps s sender v known h
  mux_request-keeps s sender (aux v) known h = handle_aux_request-keeps R s sender v known h
  mux_request-keeps s sender other known h = h

  pub mux_message-keeps :
      (s : Bba) (sender : Member) (round : ℕ) (req : Request)
      → Ok (record { sender = sender; payload = req; round = round })
      → P s
      → Ends R (mux_message json sender round req s)
  unfolding mux_message
  mux_message-keeps s sender round req known h =
      if_rule (Ends R) (ltb round s.round) (λ _. h)
        (λ old.
          if_rule (Ends R) (ltb s.round round)
            (λ _. save_incoming_request-keeps R s round sender req known h)
            (λ new.
              let e : round ≡ s.round = ground arith in
              mux_request-keeps s sender req
                (subst (λ n. Ok (record { sender = sender; payload = req; round = n })) e known) h))

  send_delayed-keeps :
      (irs : List IncomingRequest) (s : Bba)
      → All (λ ir. Ok (request_of ir)) irs
      → P s
      → Ends R (send_delayed json irs s)
  unfolding send_delayed
  send_delayed-keeps [] s known h = h
  send_delayed-keeps (ir ∷ irs) s known h =
      if_rule (Ends R) (not (ir.round == s.round)) (λ _. send_delayed-keeps irs s known.1 h)
        (λ _.
          after-final P (send_req (request_of ir) s) _ (send_req-keeps R s _ known.0 h)
            (λ _ t k. send_delayed-keeps irs t known.1 k))

  handle_delayed_bval_request-keeps : (s : Bba) → P s → Ends R (handle_delayed_bval_request json s)
  unfolding handle_delayed_bval_request find_incoming
  handle_delayed_bval_request-keeps s h =
      send_delayed-keeps _ s (All-select _ _ s.incoming_bval_repo (R.kept_bval s h)) h

  pub handle_delayed_aux_request-keeps :
      (s : Bba) → P s → Ends R (handle_delayed_aux_request json s)
  unfolding handle_delayed_aux_request find_incoming
  handle_delayed_aux_request-keeps s h =
      send_delayed-keeps _ s (All-select _ _ s.incoming_aux_repo (R.kept_aux s h)) h

  broadcast_aux-keeps : (bs : List Binary) (s : Bba) → P s → Ends R (broadcast_aux json bs s)
  unfolding broadcast_aux
  broadcast_aux-keeps [] s h = h
  broadcast_aux-keeps (b ∷ bs) s h =
      after-final P (ignore (broadcast json (aux b)) s) _
        (final-ignored P (broadcast json (aux b) s) (broadcast-keeps s (aux b) (support b) h))
        (λ _ t k. broadcast_aux-keeps bs t k)

  pub broadcast_aux_once_for_round-keeps :
      (s : Bba) → P s → Ends R (broadcast_aux_once_for_round json s)
  unfolding broadcast_aux_once_for_round
  broadcast_aux_once_for_round-keeps s h =
      if_rule (Ends R) s.aux_broadcasted.value (λ _. h)
        (λ _.
          after-final P (broadcast_aux json (to_list s.bin_value_set) s) _
            (broadcast_aux-keeps _ s h) (λ _ t k. R.set_aux_broadcasted t _ k))

  pub advance_round-keeps : (s : Bba) → P s → Ends R (advance_round json s)
  unfolding advance_round
  advance_round-keeps s h =
      after-final P (handle_delayed_bval_request json (advanced s)) _
        (handle_delayed_bval_request-keeps (advanced s) (R.advance s h))
        (λ _ t k.
          final-ignored P (handle_input json t.est.value t)
            (handle_input-keeps t t.est.value (R.next_input t k) k))
