-- ===== src/Bba/Network/Validity.antt =====
-- bba/bba.go: what instances that are all given one value send and decide.
use cleisthenes.Base.{
  ℕ, ◌≤◌, ◌<◌, ◌≡◌, ◌⊎◌, inl, inr, refl, sym, subst, true, false, some, List, [], ◌∷◌, GoMap, map,
  lookup, keys, contains, Distinct, insert-Distinct, All, All-append, All-insert, All-contains,
  exists_outside, voters, length-voters, All-voters, voters-Distinct, length, bool_eq, arith,
  Bool-cases,
}
use cleisthenes.Base.Go.{done, fail, block, panic, final}
use cleisthenes.Binary.{Binary, BinaryState}
use cleisthenes.Binary
use cleisthenes.Member.{Address, Member, address_eq}
use cleisthenes.Network.{any, Source, Kept, run_network, run_network-keeps, AllNodes-lookup}
use cleisthenes.Bba.BinarySet.{BinarySet, union}
use cleisthenes.Bba.Request.{Request, ok, ReqRepository}
use cleisthenes.Bba.State.{BbaRequest, BbaMessage, SharedMessage, Bba, new}
use cleisthenes.Bba.Handlers.{Json, process_payload, handle_input}
use cleisthenes.Bba.Local.{count_by_value}
use cleisthenes.Bba.Run.{
  step, Event, take_req, take_bin_value, take_tryout_agreement, take_advance_round, message, input,
  close,
}
use cleisthenes.Bba.Rules.{Reason, estimate, relay, support, Rules, request_of}
use cleisthenes.Bba.Keeps.{KnownEvent, step-keeps}
use cleisthenes.Bba.Transport.{RoundTrips}
use cleisthenes.Bba.Network.{Node, message_beq, message_beq_iff, bba_protocol, source, given}
-- A request that is no vote for another value
use cleisthenes.Bba.Network.OneValue.{
  IsFor, Only, Only-union, Only-exist, Only-single, Only-several, decoded-IsFor,
}

module _ (bad : List Address) (v : Binary) where
  -- A vote of a node that is not faulty is for the value.
  abbrev VoteFor : Address → Binary → Type 0
  VoteFor a w = (contains a bad ≡ true) ⊎ (w ≡ v)

  abbrev OkRequest : BbaRequest → Type 0
  OkRequest r = (contains r.sender.address bad ≡ true) ⊎ IsFor v r.payload

  -- More votes for one value than there are faulty nodes are for the value.
  many-VoteFor :
      (w : Binary) (r : ReqRepository)
      → length bad < count_by_value w r
      → Distinct (keys r)
      → All (λ e. VoteFor e.0 e.1) r
      → w ≡ v
  many-VoteFor w r many distinct votes =
      let (a, inside, outside) =
        exists_outside bad (voters (bool_eq.beq w) r) (voters-Distinct (bool_eq.beq w) r distinct)
          (omega (arith, length-voters (bool_eq.beq w) r, many)) in
      let all : All (λ b. VoteFor b w) (voters (bool_eq.beq w) r) =
        All-voters (λ e. VoteFor e.0 e.1) (λ b. VoteFor b w) (bool_eq.beq w)
          (λ b x same h. subst (VoteFor b) (sym ((bool_eq.beq_iff w x).0 same)) h) r votes in
      elim (All-contains (λ b. VoteFor b w) (voters (bool_eq.beq w) r) all inside) [
        | inl faulty ↦ absurd (ground arith)
        | inr same ↦ same
      ]

  -- A value that more nodes vote for than are faulty can join the set.
  Only-vote :
      (s : Bba) (w : Binary) (set : BinarySet)
      → length bad < count_by_value w s.bval_repo
      → Distinct (keys s.bval_repo) × All (λ e. VoteFor e.0 e.1) s.bval_repo
      → Only v set
      → Only v (union w set)
  Only-vote s w set many (distinct, votes) h =
      subst (λ x. Only v (union x set)) (sym (many-VoteFor w s.bval_repo many distinct votes))
        (Only-union v set h)

  module _ (json : Json) where
    -- A message that does not decode to a vote for another value
    abbrev OkMessage : BbaMessage → Type 0
    OkMessage msg =
        (req : Request) (round : ℕ)
        → process_payload msg.round msg.type (json.unmarshal msg.payload) ≡ ok (req, round)
        → IsFor v req

    module _ (f : ℕ) where
      -- What the node has heard, what it makes of it, and what it says, is for the value.
      abbrev For : Bba → Type 0
      For s =
          ((s.f ≡ f) × (contains s.owner.address bad ≡ false) × (s.est.value ≡ v))
          × (All OkRequest s.req_chan
              × All (λ ir. OkRequest (request_of ir)) s.incoming_bval_repo
              × All (λ ir. OkRequest (request_of ir)) s.incoming_aux_repo)
          × (Distinct (keys s.bval_repo) × All (λ e. VoteFor e.0 e.1) s.bval_repo)
          × (Only v s.bin_value_set × Only v s.broadcasted_bval_set)
          × All (λ msg. OkMessage msg.body) s.shared
          × ((s.done.value ≡ false) ⊎ (s.dec.value ≡ v))

      Reason-IsFor : (s : Bba) {req : Request} → For s → Reason s req → IsFor v req
      Reason-IsFor s h estimate = h.0.2
      Reason-IsFor s h (relay w e) = Only-exist v w s.broadcasted_bval_set h.3.1 e
      Reason-IsFor s h (support w) = tt

      For-Rules : RoundTrips json → length bad ≤ f → Rules json (λ w. w ≡ v) OkRequest For
      For-Rules trips few = record {
        own = λ s why h. inr (Reason-IsFor s h why);
        own_decoded = λ s {req} {req'} why typed marshalled e h.
            inr (decoded-IsFor v json trips req req' _ typed marshalled e (Reason-IsFor s h why));
        push = λ s r k (c, q, vs, bs, m, d).
            (c, (All-append OkRequest s.req_chan (r ∷ []) q.0 (k, tt), q.1, q.2), vs, bs, m, d);
        pop = λ s r rs e (c, q, vs, bs, m, d).
            let (k, ks) : All OkRequest (r ∷ rs) = subst (All OkRequest) e q.0 in
            ((c, (ks, q.1, q.2), vs, bs, m, d), k);
        keep_bval = λ s ir k (c, q, vs, bs, m, d).
            (c, (q.0, All-append _ s.incoming_bval_repo (ir ∷ []) q.1 (k, tt), q.2), vs, bs, m, d);
        keep_aux = λ s ir k (c, q, vs, bs, m, d).
            (c, (q.0, q.1, All-append _ s.incoming_aux_repo (ir ∷ []) q.2 (k, tt)), vs, bs, m, d);
        kept_bval = λ s h. h.1.1;
        kept_aux = λ s h. h.1.2;
        set_bin_value_chan = λ s q h. h;
        set_tryout_agreement_chan = λ s q h. h;
        set_advance_round_chan = λ s q h. h;
        share = λ from s req {typ} {p} hf k typed marshalled (c, q, vs, bs, m, d).
            let own : IsFor v req = elim k [
              | inl faulty ↦ absurd (ground (arith, hf.0.1))
              | inr same ↦ same
            ] in
            (
              c,
              q,
              vs,
              bs,
              All-append (λ msg. OkMessage msg.body) s.shared _ m
                  (
                    λ req' round decoded.
                        decoded-IsFor v json trips req req' from.round typed marshalled decoded own,
                    tt,
                  ),
              d,
            );
        take_input = λ s w e (c, q, vs, bs, m, d). ((c.0, c.1, e), q, vs, bs, m, d);
        next_input = λ s h. h.0.2;
        fail_single = λ s b e (c, q, vs, bs, m, d).
            ((c.0, c.1, Only-single v b s.bin_value_set bs.0 e), q, vs, bs, m, d);
        fail_several = λ s b c bs e h. absurd (Only-several v b c bs s.bin_value_set h.3.0 e);
        set_aux_broadcasted = λ s b h. h;
        set_stopped = λ s h. h;
        save_bval = λ s sender w k fresh (c, q, vs, bs, m, d). (
          c,
          q,
          (
            insert-Distinct sender.address w s.bval_repo vs.0,
            All-insert (λ e. VoteFor e.0 e.1) sender.address w s.bval_repo k vs.1,
          ),
          bs,
          m,
          d,
        );
        save_aux = λ s sender w k fresh h. h;
        add_bin_value = λ s w e (c, q, vs, bs, m, d).
            (c, q, vs, (Only-vote s w s.bin_value_set (omega (arith, c.0)) vs bs.0, bs.1), m, d);
        add_broadcasted = λ s w e (c, q, vs, bs, m, d). (
          c,
          q,
          vs,
          (bs.0, Only-vote s w s.broadcasted_bval_set (omega (arith, c.0)) vs bs.1),
          m,
          d,
        );
        decide = λ s b undone single e (c, q, vs, bs, m, d).
            (c, q, vs, bs, m, inr (Only-single v b s.bin_value_set bs.0 single));
        advance = λ s (c, q, vs, bs, m, d). (c, q, (tt, tt), (inl refl, inl refl), m, d);
      }

      start : ℕ → (ℕ → Binary) → Member → Member → Bba
      start n coin m proposer = record (new n f m proposer coin) {
        est = record { value = v; undefined = false };
      }

      start-For :
          (n : ℕ) (coin : ℕ → Binary) (m proposer : Member)
          → contains m.address bad ≡ false
          → For (start n coin m proposer)
      unfolding new start
      start-For n coin m proposer correct =
          ((refl, correct, refl), (tt, tt, tt), (tt, tt), (inl refl, inl refl), tt, inl refl)

      -- An input other than the value is not given.
      abbrev pub InputFor : Event → Type 0
      InputFor (input w) = w ≡ v
      InputFor _ = Unit

      sent-OkMessage :
          (msg : BbaMessage) (shared : List SharedMessage)
          → All (λ m. OkMessage m.body) shared
          → any (message_beq msg) (map (λ m. m.body) shared) ≡ true
          → OkMessage msg
      sent-OkMessage msg [] h found = absurd (ground arith)
      sent-OkMessage msg (m ∷ ms) h found = elim (Bool-cases (message_beq msg m.body)) [
        | inl same ↦ subst OkMessage (sym ((message_beq_iff msg m.body).0 same)) h.0
        | inr differ ↦ sent-OkMessage msg ms h.1 (ground arith)
      ]

      module _ (trips : RoundTrips json) (few : length bad ≤ f) where
        event-Known :
            (e : Event)
            → InputFor e
            → Source (bba_protocol json) bad (λ node. For (final node)) InputFor (source json e)
            → KnownEvent (For-Rules trips few) e
        event-Known take_req fine src = tt
        event-Known take_bin_value fine src = tt
        event-Known take_tryout_agreement fine src = tt
        event-Known take_advance_round fine src = tt
        event-Known (message sender msg) fine (inl faulty) = λ req round decoded. inl faulty
        event-Known (message sender msg) fine (inr (node, h, found)) = λ req round decoded.
            inr (sent-OkMessage msg (final node).shared h.4 found req round decoded)
        event-Known (input w) fine src = fine
        event-Known close fine src = tt

        node-Kept : Kept (bba_protocol json) bad (λ node. For (final node)) InputFor
        node-Kept (done a s) e fine src h =
            step-keeps (For-Rules trips few) e s (event-Known e fine src) h
        node-Kept (fail x s) e fine src h =
            step-keeps (For-Rules trips few) e s (event-Known e fine src) h
        node-Kept (block s) e fine src h = h
        node-Kept (panic s) e fine src h = h

        given-For :
            (n : ℕ) (coin : ℕ → Binary) (proposer : Member) (correct : List Member)
            → All (λ m. contains m.address bad ≡ false) correct
            → All (λ x. For (final x.1)) (given json n f coin proposer (map (λ m. (m, v)) correct))
        unfolding step handle_input Binary.set start
        given-For n coin proposer [] h = tt
        given-For n coin proposer (m ∷ ms) h = (
          step-keeps (For-Rules trips few) (input v) (start n coin m proposer) refl
              (start-For n coin m proposer h.0),
          given-For n coin proposer ms h.1,
        )

-- Validity of the agreement. Let the nodes that are not faulty all be given the value `v` as
-- input, at the start and in any later input, let at most f addresses be faulty, and let JSON give
-- values back. Then, whatever the faulty nodes send and however messages are delayed, lost,
-- repeated and reordered, every such node that has decided has decided `v`.
pub validity :
    (json : Json)
    → RoundTrips json
    → (v : Binary) (bad : List Address) (n f : ℕ) (coin : ℕ → Binary) (proposer : Member)
      (correct : List Member) (es : List (Address × Event)) {nodes : GoMap Address Node}
      (a : Address) {node : Node}
    → length bad ≤ f
    → All (λ m. contains m.address bad ≡ false) correct
    → All (λ x. InputFor bad v json f x.1) es
    → run_network
        (bba_protocol json)
        bad
        es
        (given json n f coin proposer (map (λ m. (m, v)) correct))
      ≡ some nodes
    → lookup a nodes ≡ some node
    → (final node).done.value ≡ true
    → (final node).dec.value ≡ v
validity json trips v bad n f coin proposer correct es {nodes} a {node} few good fine ran here
      done_ =
    let all =
      run_network-keeps (bba_protocol json) bad (λ x. For bad v json f (final x))
        (InputFor bad v json f) (node-Kept bad v json f trips few) es _ fine
        (given-For bad v json f trips few n coin proposer correct good) ran in
    let h =
      AllNodes-lookup (bba_protocol json) bad (λ x. For bad v json f (final x))
        (InputFor bad v json f) a nodes all here in
    elim h.5 [ inl undone ↦ absurd (ground arith) | inr same ↦ same ]
