-- ===== src/Rbc/Output.antt =====
-- rbc/rbc.go: the quorums behind every value that an instance sends to its owner.
mod Sends
use cleisthenes.Base.{
  ℕ, ◌+◌, ◌*◌, ◌-◌, ◌≤◌, ◌≡◌, ◌∙◌, inl, inr, refl, ap, sym, subst, Bool, not, ◌&&◌, leb, some, List,
  [], ◌∷◌, ◌++◌, values, keys, Distinct, insert-Distinct, All, All-map, ◌==◌, if_rule, Option-cases,
  arith,
}
use mathlib.Core.Option.{some-injective}
use mathlib.Core.List.{append-nil}
use cleisthenes.Base.Go.{Outcome, final}
use cleisthenes.Base.History.{Grown, run-Added}
use cleisthenes.Member.{Member, address_eq}
use cleisthenes.Rbc.Merkle.{Bytes, validate_path}
use cleisthenes.Rbc.State.{
  ValRequest, Request, val, echo, ready, other, EchoReqRepository, ReadyReqRepository, Error, ok,
  find, RbcMessage, DataMessage, Rbc, new, set_content_length,
}
use cleisthenes.Rbc.Handlers.{
  type_of, share_message, decode_success, count_echos, count_readys, echo_threshold,
  output_threshold, try_decode_value, try_output, handle_value_request, handle_echo_request,
  handle_ready_request, mux_request, process_message, handle_request, handle_message,
}
use cleisthenes.Rbc.Decode.{Env, decode}
use cleisthenes.Rbc.Input.{handle_input}
use cleisthenes.Rbc.Run.{Event, message, input, step, run}
use cleisthenes.Rbc.Rules.{
  Anything, Writes, Rules, with_value, Decoded-cases, Valid-cases, send_ready-keeps,
  handle_value_request-keeps,
}
use cleisthenes.Rbc.Keeps.{run_any-keeps, Result-cases, final-ignored, handle_input-keeps}
use Sends.{Tested, step-SendsTested}

module _ (env : Env) where
  -- The state holds what the value was decoded from: ECHOs of at least n - f senders with one root,
  -- and READYs of at least 2f + 1 senders for it; no sender is counted twice.
  pub record Backed (n f : ℕ) (s : Rbc) (value : Bytes) : Type 0 where
    pub root : Bytes
    pub echo_senders : Distinct (keys s.echo_req_repo)
    pub ready_senders : Distinct (keys s.ready_req_repo)
    pub enough_echos : n - f ≤ count_echos root s
    pub enough_readys : 2 * f + 1 ≤ count_readys root s
    pub decoded :
        decode env root (values s.echo_req_repo) (n - 2 * f) (2 * f) s.content_length
        ≡ some (ok value)

  module _ (n f : ℕ) where
    record SizesOf (nodes faulty data_shards parity_shards : ℕ) (echos : EchoReqRepository)
        (readys : ReadyReqRepository) : Type 0 where
      pub same_n : nodes ≡ n
      pub same_f : faulty ≡ f
      pub same_data : data_shards ≡ n - 2 * f
      pub same_parity : parity_shards ≡ 2 * f
      pub echo_senders : Distinct (keys echos)
      pub ready_senders : Distinct (keys readys)

    abbrev Sizes : Rbc → Type 0
    Sizes s = SizesOf s.n s.f s.num_data_shards s.num_parity_shards s.echo_req_repo s.ready_req_repo

    share-Sizes : (s : Rbc) (req : Request) → Sizes s → Sizes (share_message env req s)
    unfolding share_message
    share-Sizes s req h = elim (Option-cases (type_of req)) [
      | inl bad ↦ rw (bad, share_message) h
      | inr (typ, good) ↦ elim (Option-cases (env.marshal req)) [
        | inl bad ↦ rw (good, bad, share_message) h
        | inr (p, good') ↦ rw (good, good', share_message) h
      ]
    ]

    with_value-Sizes : (s : Rbc) (req : ValRequest) → Sizes s → Sizes (with_value req s)
    with_value-Sizes s req h = record {
      same_n = h.same_n;
      same_f = h.same_f;
      same_data = h.same_data;
      same_parity = h.same_parity;
      echo_senders = insert-Distinct s.owner.address req s.echo_req_repo h.echo_senders;
      ready_senders =
          insert-Distinct s.owner.address req.root_hash s.ready_req_repo h.ready_senders;
    }

    take_length-Sizes : (s : Rbc) (k : ℕ) → Sizes s → Sizes (set_content_length k s)
    unfolding set_content_length
    take_length-Sizes s k h = if_rule Sizes (s.content_length == 0) (λ _. h) (λ _. h)

    Sizes-Rules : Rules env Anything Sizes
    unfolding decode_success
    Sizes-Rules = record {
      writes = record {
        take_length = take_length-Sizes;
        take_value = λ s req fresh h. share-Sizes _ (echo req) (with_value-Sizes s req h);
        save_echo = λ s sender req absent known h. record {
          same_n = h.same_n;
          same_f = h.same_f;
          same_data = h.same_data;
          same_parity = h.same_parity;
          echo_senders = insert-Distinct sender.address req s.echo_req_repo h.echo_senders;
          ready_senders = h.ready_senders;
        };
        save_ready = λ s sender hash absent h. record {
          same_n = h.same_n;
          same_f = h.same_f;
          same_data = h.same_data;
          same_parity = h.same_parity;
          echo_senders = h.echo_senders;
          ready_senders = insert-Distinct sender.address hash s.ready_req_repo h.ready_senders;
        };
        share_ready = λ s hash unsent h. share-Sizes _ (ready hash) h;
        distribute = λ s proposer reqs made h. h;
      };
      output = λ s hash value undone readys echos good h. h;
    }

  Tested-Backed :
      (n f : ℕ) (s : Rbc) (msg : DataMessage)
      → Sizes n f s
      → Tested env s msg
      → Backed n f s msg.bytes
  Tested-Backed n f s msg h (root, readys, echos, good) = record {
    root = root;
    echo_senders = h.echo_senders;
    ready_senders = h.ready_senders;
    enough_echos = ground (arith, h.same_n, h.same_f, echos);
    enough_readys = ground (arith, h.same_f, readys);
    decoded = rw (sym h.same_data, sym h.same_parity) good;
  }

  data_sent-Backed :
      (n f : ℕ) (es : List Event) (s : Rbc)
      → Sizes n f s
      → s.data_sent ≡ []
      → All
          (λ msg.
            (before : List Event) × (later : List Event) × (before ++ later ≡ es)
            × Backed n f (final (run env before s)) msg.bytes)
          (final (run env es s)).data_sent
  unfolding run
  data_sent-Backed n f es s start none_yet =
      let (new, grown, made) =
        run-Added (step env) (run env) (λ (t : Rbc). t.data_sent) (Tested env) (λ t. refl)
          (λ e es t. refl) (step-SendsTested env) es s in
      subst (All _) (sym (grown ∙ ap (λ l. l ++ new) none_yet)) (
        All-map _ _
          (λ msg (before, later, same, tested). (
            before,
            later,
            same,
            Tested-Backed n f (final (run env before s)) msg
                (run_any-keeps (Sizes-Rules n f) before s start) tested,
          ))
          new made)

  -- A new instance, after any history of messages and inputs: every value that it has sent its
  -- owner was decoded from the ECHOs which the instance has kept after some first events of the
  -- history. Then it has ECHOs of at least n - f different addresses for the value's root, and
  -- READYs of at least 2f + 1 different addresses for it.
  pub run-Backed :
      (accepts : ℕ → ℕ → Bool) (n f : ℕ) (owner proposer : Member) {s : Rbc} (es : List Event)
      → new accepts n f owner proposer ≡ some s
      → All
          (λ msg.
            (before : List Event) × (later : List Event) × (before ++ later ≡ es)
            × Backed n f (final (run env before s)) msg.bytes)
          (final (run env es s)).data_sent
  unfolding new
  run-Backed accepts n f owner proposer {s} es e =
      let (sizes, none_yet) =
        if_rule (λ r. r ≡ some s → Sizes n f s × (s.data_sent ≡ [])) (accepts (n - 2 * f) (2 * f))
          (λ _ start.
            subst (λ t. Sizes n f t × (t.data_sent ≡ [])) (some-injective _ _ start)
              (
                record {
                  same_n = refl;
                  same_f = refl;
                  same_data = refl;
                  same_parity = refl;
                  echo_senders = tt;
                  ready_senders = tt;
                },
                refl,
              ))
          (λ _ refused. ground (arith, refused)) e in
      data_sent-Backed n f es s sizes none_yet
