-- ===== src/Rbc/Once.antt =====
-- rbc/rbc.go: how often an instance sends a READY and a value.
use cleisthenes.Base.{
  ℕ, ◌+◌, ◌≤◌, ◌≡◌, inl, inr, Bool, true, false, some, List, [], ◌∷◌, ◌++◌, count_if,
  count_if-append, length, length-append, Option-cases, if_rule, if◌then◌else◌, arith, ◌==◌,
}
use cleisthenes.Base.Go.{final}
use cleisthenes.Member.{Member, address_eq}
use cleisthenes.Rbc.Merkle.{Bytes}
use cleisthenes.Rbc.State.{
  ValRequest, echo, ready, ready_type, SharedMessage, DataMessage, Rbc, new, set_content_length,
}
use cleisthenes.Rbc.Handlers.{share_message, decode_success}
use cleisthenes.Rbc.Decode.{Env}
use cleisthenes.Rbc.Run.{Event, run}
use cleisthenes.Rbc.Rules.{Anything, Rules}
use cleisthenes.Rbc.Keeps.{run_any-keeps}

abbrev pub is_ready : SharedMessage → Bool
is_ready msg = elim msg.body.type [ ready_type ↦ true | _ ↦ false ]

pub record OnceOf (ready_sent done : Bool) (shared : List SharedMessage) (sent : List DataMessage)
    : Type 0 where
  pub readys : count_if is_ready shared ≤ (if ready_sent then 1 else 0)
  pub values : length sent ≡ (if done then 1 else 0)

-- At most one READY has been shared, and none before `readySent` is set; exactly one value has
-- been sent to the owner if `done` is set, and none before.
abbrev pub Once : Rbc → Type 0
Once s = OnceOf s.ready_sent.value s.done.value s.shared s.data_sent

count-snoc :
    (l : List SharedMessage) (m : SharedMessage)
    → count_if is_ready (l ++ m ∷ []) ≡ count_if is_ready l + (if is_ready m then 1 else 0)
count-snoc l m = ground (arith, count_if-append is_ready l (m ∷ []))

module _ (env : Env) where
  share_echo-Once : (s : Rbc) (req : ValRequest) → Once s → Once (share_message env (echo req) s)
  unfolding share_message
  share_echo-Once s req h = elim (Option-cases (env.marshal (echo req))) [
    | inl bad ↦ rw (bad, share_message) h
    | inr (p, good) ↦
        rw (good, share_message)
          (record { readys = omega (arith, count-snoc s.shared _, h.readys); values = h.values })
  ]

  share_ready-Once :
      (s : Rbc) (hash : Bytes)
      → Once s
      → s.ready_sent.value ≡ false
      → Once (
          share_message env
            (ready hash)
            (record s { ready_sent = record { value = true; undefined = false } }))
  unfolding share_message
  share_ready-Once s hash h unsent = elim (Option-cases (env.marshal (ready hash))) [
    | inl bad ↦
        rw (bad, share_message) (record { readys = ground (arith, h.readys); values = h.values })
    | inr (p, good) ↦
        rw (good, share_message)
          (let none_yet : count_if is_ready s.shared ≤ 0 = ground (arith, h.readys) in
            record { readys = omega (arith, count-snoc s.shared _, none_yet); values = h.values })
  ]

  decode_success-Once :
      (s : Rbc) (value : Bytes) → s.done.value ≡ false → Once s → Once (decode_success value s)
  unfolding decode_success
  decode_success-Once s value undone h =
      let none_yet : length s.data_sent ≡ 0 = ground (arith, h.values) in
      record { readys = h.readys; values = omega (arith, length-append {0} s.data_sent, none_yet) }

  take_length-Once : (s : Rbc) (k : ℕ) → Once s → Once (set_content_length k s)
  unfolding set_content_length
  take_length-Once s k h = if_rule Once (s.content_length == 0) (λ _. h) (λ _. h)

  Once-Rules : Rules env Anything Once
  Once-Rules = record {
    writes = record {
      take_length = take_length-Once;
      take_value = λ s req fresh h. share_echo-Once _ req h;
      save_echo = λ s sender req absent known h. h;
      save_ready = λ s sender hash absent h. h;
      share_ready = λ s hash unsent h. share_ready-Once s hash h unsent;
      distribute = λ s proposer reqs made h. h;
    };
    output = λ s hash value undone readys echos good h. decode_success-Once s value undone h;
  }

  -- A new instance, after any history of messages and inputs, has shared at most one READY, and
  -- none before `readySent` is set, and has sent its owner exactly one value if `done` is set and
  -- none if it is not.
  pub run-Once :
      (accepts : ℕ → ℕ → Bool) (n f : ℕ) (owner proposer : Member) {s : Rbc} (es : List Event)
      → new accepts n f owner proposer ≡ some s
      → Once (final (run env es s))
  unfolding new
  run-Once accepts n f owner proposer {s} es e =
      run_any-keeps Once-Rules es s (record { readys = ground arith; values = ground arith })
