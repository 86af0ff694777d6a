-- ===== src/Bba/Provenance/Schedules.antt =====
-- bba/bba.go: the origin of votes and decisions, over all schedules of an instance.
use cleisthenes.Base.{
  ℕ, ◌≤◌, ◌≡◌, ◌*◌, ◌≢◌, Distinct, ap, without, without-Distinct, length-without-le, All-without,
  inl, inr, refl, subst, true, List, [], ◌∷◌, lookup, insert-Distinct, arith, All, All-append,
  length, All-insert,
}
use mathlib.Core.List.{Memᴰ}
use cleisthenes.Base.Go.{final}
use cleisthenes.Binary.{Binary}
use cleisthenes.Member.{Member, Address, address_eq}
use cleisthenes.Bba.BinarySet.{exist}
use cleisthenes.Bba.Request.{Request, bval, Result, ok, err}
use cleisthenes.Bba.State.{BbaRequest, Bba, new}
use cleisthenes.Bba.Handlers.{Json, process_payload}
use cleisthenes.Bba.Run.{
  Event, take_req, take_bin_value, take_tryout_agreement, take_advance_round, message, input, close,
  run,
}
use cleisthenes.Bba.Rules.{Rules}
use cleisthenes.Bba.Keeps.{KnownEvent, run-keeps}
use cleisthenes.Bba.Provenance.{
  with_request, delivered, exist-to_list, Origin, Voted, Backed, Traced, Backed-repo,
  BackedSet-union,
}

module _ (json : Json) (me : Member) (known : List BbaRequest) (f : ℕ) (coin : ℕ → Binary) where
  pop-Origin :
      (s : Bba) (r : BbaRequest) (rs : List BbaRequest)
      → s.req_chan ≡ r ∷ rs
      → All (Origin me known) s.req_chan
      → All (Origin me known) (r ∷ rs)
  pop-Origin s r rs e h = subst (All (Origin me known)) e h

  Traced-Rules : Rules json (λ _. Unit {0}) (Origin me known) (Traced me known f coin)
  unfolding exist lookup
  Traced-Rules = record {
    own = λ s why h. inl h.0.0;
    own_decoded = λ s why typed marshalled e h. inl h.0.0;
    push = λ s r k (w, v, b, d). (
      (w.0, w.1, w.2, All-append (Origin me known) s.req_chan (r ∷ []) w.3 (k, tt), w.4, w.5),
      v,
      b,
      d,
    );
    pop = λ s r rs e (w, v, b, d).
        let (k, ks) = pop-Origin s r rs e w.3 in (((w.0, w.1, w.2, ks, w.4, w.5), v, b, d), k);
    keep_bval = λ s ir k (w, v, b, d). (
      (w.0, w.1, w.2, w.3, All-append _ s.incoming_bval_repo (ir ∷ []) w.4 (k, tt), w.5),
      v,
      b,
      d,
    );
    keep_aux = λ s ir k (w, v, b, d). (
      (w.0, w.1, w.2, w.3, w.4, All-append _ s.incoming_aux_repo (ir ∷ []) w.5 (k, tt)),
      v,
      b,
      d,
    );
    kept_bval = λ s h. h.0.4;
    kept_aux = λ s h. h.0.5;
    set_bin_value_chan = λ s q h. h;
    set_tryout_agreement_chan = λ s q h. h;
    set_advance_round_chan = λ s q h. h;
    share = λ from s req k known typed marshalled h. h;
    take_input = λ s v given h. h;
    next_input = λ s h. tt;
    fail_single = λ s b e h. h;
    fail_several = λ s b c bs e h. h;
    set_aux_broadcasted = λ s b h. h;
    set_stopped = λ s h. h;
    save_bval = λ s sender v k fresh (w, (ds, vs), b, d). (
      w,
      (
        insert-Distinct sender.address v s.bval_repo ds,
        All-insert (λ e. Voted me known s.round e.1 e.0) sender.address v s.bval_repo k vs,
      ),
      b,
      d,
    );
    save_aux = λ s sender v k fresh h. h;
    add_bin_value = λ s v e (w, (ds, vs), b, d). (
      w,
      (ds, vs),
      BackedSet-union me known f coin s v
          (Backed-repo me known f coin s.round v s.bval_repo (omega arith) ds vs) b,
      d,
    );
    add_broadcasted = λ s v e h. h;
    decide = λ s b undone single e (w, vs, bs, d).
        (w, vs, bs, λ _. (s.round, bs b (exist-to_list b [] s.bin_value_set single), ground arith));
    advance = λ s (w, vs, bs, d). (w, (tt, tt), (λ v e. absurd (ground arith)), d);
  }

-- At least 2f addresses, all different and none the instance's own, have each sent a BVAL of the
-- round for the value, among the requests.
pub record OtherVotes (me : Member) (requests : List BbaRequest) (f round : ℕ) (v : Binary)
    : Type 0 where
  pub senders : List Address
  pub distinct : Distinct senders
  pub many : 2 * f ≤ length senders
  pub sent :
      All
        (λ a.
          (a ≢ me.address)
          × Memᴰ
              (record { sender = record { address = a }; payload = bval v; round = round })
              requests)
        senders

module _ (me : Member) (requests : List BbaRequest) where
  Voted-sent :
      (round : ℕ) (v : Binary) (a : Address)
      → a ≢ me.address
      → Voted me requests round v a
      → (a ≢ me.address)
        × Memᴰ
            (record { sender = record { address = a }; payload = bval v; round = round })
            requests
  Voted-sent round v a other (inl own) = absurd (other (ap (λ (m : Member). m.address) own))
  Voted-sent round v a other (inr sent) = (other, sent)

  Backed-OtherVotes :
      {f round : ℕ} {v : Binary} → Backed me requests f round v → OtherVotes me requests f round v
  Backed-OtherVotes {f} {round} {v} b = record {
    senders = without me.address b.senders;
    distinct = without-Distinct me.address b.senders b.distinct;
    many = omega (arith, length-without-le me.address b.senders b.distinct, b.many);
    sent =
        All-without (Voted me requests round v) _ me.address (Voted-sent round v) b.senders b.voted;
  }

module _ (json : Json) where
  with_request-Memᴰ :
      (sender : Member) (r : Result (Request × ℕ)) (l : List BbaRequest) (req : Request) (round : ℕ)
      → r ≡ ok (req, round)
      → Memᴰ (record { sender = sender; payload = req; round = round }) (with_request sender r l)
  with_request-Memᴰ sender (ok (req', round')) l req round e = Memᴰ.head (ground arith)
  with_request-Memᴰ sender (err x) l req round e = absurd (ground arith)

  with_request-tail :
      {x : BbaRequest} (sender : Member) (r : Result (Request × ℕ)) (l : List BbaRequest)
      → Memᴰ x l
      → Memᴰ x (with_request sender r l)
  with_request-tail sender (ok (req, round)) l h = Memᴰ.tail h
  with_request-tail sender (err x) l h = h

  module _ (me : Member) (f : ℕ) (coin : ℕ → Binary) (known : List BbaRequest) where
    events-Known :
        (es : List Event)
        → ((r : BbaRequest) → Memᴰ r (delivered json es) → Memᴰ r known)
        → All (KnownEvent (Traced-Rules json me known f coin)) es
    events-Known [] sub = tt
    events-Known (take_req ∷ es) sub = (tt, events-Known es sub)
    events-Known (take_bin_value ∷ es) sub = (tt, events-Known es sub)
    events-Known (take_tryout_agreement ∷ es) sub = (tt, events-Known es sub)
    events-Known (take_advance_round ∷ es) sub = (tt, events-Known es sub)
    events-Known (message sender msg ∷ es) sub =
        let decoded = process_payload msg.round msg.type (json.unmarshal msg.payload) in
        (
          λ req round e.
              inr (sub _ (with_request-Memᴰ sender decoded (delivered json es) req round e)),
          events-Known es (λ r m. sub r (with_request-tail sender decoded (delivered json es) m)),
        )
    events-Known (input v ∷ es) sub = (tt, events-Known es sub)
    events-Known (close ∷ es) sub = (tt, events-Known es sub)

  module _ (n f : ℕ) (me proposer : Member) (coin : ℕ → Binary) (es : List Event) where
    abbrev reached : Bba
    reached = final (run json es (new n f me proposer coin))

    run-Traced : Traced me (delivered json es) f coin reached
    unfolding new exist lookup
    run-Traced =
        run-keeps (Traced-Rules json me (delivered json es) f coin) es (new n f me proposer coin)
          (events-Known me f coin (delivered json es) es (λ r m. m))
          (
            (refl, refl, refl, tt, tt, tt),
            (tt, tt),
            (λ v e. absurd (ground arith)),
            λ e. absurd (ground arith),
          )

    -- After any schedule of a new instance, every value in `binValueSet` is justified: at least 2f
    -- different addresses, none of them the instance's own, have sent a BVAL of the current round
    -- for it in messages that the schedule delivers.
    pub bin_value_justified :
        (v : Binary)
        → exist v reached.bin_value_set ≡ true
        → OtherVotes me (delivered json es) f reached.round v
    bin_value_justified v e = Backed-OtherVotes me (delivered json es) (run-Traced.2 v e)

    -- After any schedule of a new instance, a decision is the coin of some round, and at least 2f
    -- different addresses, none of them the instance's own, have sent a BVAL of that round for it in
    -- messages that the schedule delivers.
    pub decision_justified :
        reached.done.value ≡ true
        → (round : ℕ) × (reached.dec.value ≡ coin round)
          × OtherVotes me (delivered json es) f round reached.dec.value
    decision_justified e =
        let (round, backed, same) = run-Traced.3 e in
        (round, same, Backed-OtherVotes me (delivered json es) backed)
