-- ===== src/Rbc/Rules.antt =====
-- A rule for invariants of rbc/rbc.go: `Rules env Known P` lists every write that the handlers make,
-- with what the code has tested when it makes it and what is known of the ECHOs that it is given;
-- `P` then holds after every message and input, whether the handler returns, returns an error or
-- panics.
use cleisthenes.Base.{
  ℕ, ◌≤◌, ◌≡◌, ◌⊎◌, inl, inr, refl, Bool, true, false, not, ◌&&◌, Option, none, some, List, [], ◌∷◌,
  ◌++◌, values, lookup, insert, leb, if_rule, Option-cases, arith,
}
use cleisthenes.Base.Go.{Outcome, final}
use cleisthenes.Member.{Member, address_eq}
use cleisthenes.Rbc.Merkle.{Bytes, validate_path}
use cleisthenes.Rbc.State.{
  ValRequest, Request, val, echo, ready, other, Error, Result, ok, err, find, SharedMessage, Rbc,
  set_content_length,
}
use cleisthenes.Rbc.Input.{messages_for}
use cleisthenes.Rbc.Handlers.{
  count_readys, count_echos, output_threshold, echo_threshold, share_message, try_decode_value,
  try_output, send_ready, decode_success, handle_value_request, handle_echo_request,
  handle_ready_request, mux_request,
}
use cleisthenes.Rbc.Decode.{Env, decode}

-- What `handleValueRequest` writes.
abbrev pub with_value : ValRequest → Rbc → Rbc
with_value req s = record s {
  echo_req_repo = insert s.owner.address req s.echo_req_repo;
  ready_req_repo = insert s.owner.address req.root_hash s.ready_req_repo;
  val_received = record { value = true; undefined = false };
  echo_sent = record { value = true; undefined = false };
}

-- Nothing is known of the ECHOs.
abbrev pub Anything : Member → ValRequest → Type 0
Anything sender req = Unit

-- The writes that give out no value.
pub record Writes (env : Env) (Known : Member → ValRequest → Type 0) (P : Rbc → Type 0)
    : Type 0 where
  pub take_length : (s : Rbc) (k : ℕ) → P s → P (set_content_length k s)
  pub take_value :
      (s : Rbc) (req : ValRequest)
      → s.val_received.value ≡ false
      → P s
      → P (share_message env (echo req) (with_value req s))
  pub save_echo :
      (s : Rbc) (sender : Member) (req : ValRequest)
      → lookup sender.address s.echo_req_repo ≡ none
      → Known sender req
      → P s
      → P (record s { echo_req_repo = insert sender.address req s.echo_req_repo })
  pub save_ready :
      (s : Rbc) (sender : Member) (hash : Bytes)
      → lookup sender.address s.ready_req_repo ≡ none
      → P s
      → P (record s { ready_req_repo = insert sender.address hash s.ready_req_repo })
  pub share_ready :
      (s : Rbc) (hash : Bytes)
      → s.ready_sent.value ≡ false
      → P s
      → P (
          share_message env
            (ready hash)
            (record s { ready_sent = record { value = true; undefined = false } }))
  pub distribute :
      (s : Rbc) (proposer : Member) (reqs : List ValRequest) {msgs : List SharedMessage}
      → messages_for env proposer s reqs ≡ some msgs
      → P s
      → P (record s { distributed = s.distributed ++ msgs ∷ [] })

-- All the writes.
pub record Rules (env : Env) (Known : Member → ValRequest → Type 0) (P : Rbc → Type 0)
    : Type 0 where
  pub writes : Writes env Known P
  pub output :
      (s : Rbc) (hash value : Bytes)
      → s.done.value ≡ false
      → output_threshold s ≤ count_readys hash s
      → echo_threshold s ≤ count_echos hash s
      → decode env hash
          (values s.echo_req_repo)
          s.num_data_shards
          s.num_parity_shards
          s.content_length
        ≡ some (ok value)
      → P s
      → P (decode_success value s)

pub Decoded-cases :
    (r : Option (Result Bytes))
    → (r ≡ none) ⊎ (((e : Error) × (r ≡ some (err e))) ⊎ ((v : Bytes) × (r ≡ some (ok v))))
Decoded-cases none = inl refl
Decoded-cases (some (err e)) = inr (inl (e, refl))
Decoded-cases (some (ok v)) = inr (inr (v, refl))

pub Valid-cases : (r : Option Bool) → (r ≡ none) ⊎ ((r ≡ some false) ⊎ (r ≡ some true))
Valid-cases none = inl refl
Valid-cases (some false) = inr (inl refl)
Valid-cases (some true) = inr (inr refl)

find-none :
    {V : Type 0} (sender : Member) (r : List (_ × V))
    → find sender.address r ≡ false
    → lookup sender.address r ≡ none
unfolding find
find-none sender r e = elim (Option-cases (lookup sender.address r)) [
  | inl absent ↦ absent
  | inr (v, there) ↦ absurd (ground arith)
]

module _ {env : Env} {Known : Member → ValRequest → Type 0} {P : Rbc → Type 0}
    (W : Writes env Known P) where
  abbrev pub Ends : Outcome Error Rbc (Unit {0}) → Type 0
  Ends o = P (final o)

  pub send_ready-keeps :
      (s : Rbc) (enough : Bool) (hash : Bytes) → P s → P (send_ready env enough hash s)
  unfolding send_ready
  send_ready-keeps s enough hash h =
      if_rule P (enough && not s.ready_sent.value) (λ e. W.share_ready s hash (ground arith) h)
        (λ _. h)

  pub handle_value_request-keeps :
      (s : Rbc) (sender : Member) (req : ValRequest)
      → P s
      → Ends (handle_value_request env sender req s)
  unfolding handle_value_request
  handle_value_request-keeps s sender req h =
      if_rule Ends s.val_received.value (λ _. h)
        (λ fresh.
          if_rule Ends s.echo_sent.value (λ _. h)
            (λ unsent.
              elim (Valid-cases
                (validate_path env.hash req.shard req.root_hash req.root_path req.indexes)) [
                  | inl crash ↦ rw (crash, handle_value_request) h
                  | inr (inl bad) ↦ rw (bad, handle_value_request) h
                  | inr (inr good) ↦ rw (good, handle_value_request) (W.take_value s req fresh h)
                ]))

module _ {env : Env} {Known : Member → ValRequest → Type 0} {P : Rbc → Type 0}
    (R : Rules env Known P) where
  abbrev End : Outcome Error Rbc (Unit {0}) → Type 0
  End = Ends R.writes

  try_output-keeps : (s : Rbc) (hash : Bytes) → P s → End (try_output env hash s)
  unfolding try_output try_decode_value
  try_output-keeps s hash h =
      if_rule End
        (not s.done.value
          && (leb (output_threshold s) (count_readys hash s)
              && leb (echo_threshold s) (count_echos hash s)))
        (λ e.
          elim (Decoded-cases (
            decode env hash (values s.echo_req_repo) s.num_data_shards s.num_parity_shards
              s.content_length)) [
                | inl crash ↦ rw (crash, try_decode_value) h
                | inr (inl (x, bad)) ↦ rw (bad, try_decode_value) h
                | inr (inr (value, good)) ↦
                    rw (good, try_decode_value)
                      (R.output s hash value (ground arith) (ground arith) (ground arith) good h)
              ])
        (λ _. h)

  handle_echo_request-keeps :
      (s : Rbc) (sender : Member) (req : ValRequest)
      → Known sender req
      → P s
      → End (handle_echo_request env sender req s)
  unfolding handle_echo_request
  handle_echo_request-keeps s sender req known h =
      if_rule End (find sender.address s.echo_req_repo) (λ _. h)
        (λ absent.
          elim (Valid-cases
            (validate_path env.hash req.shard req.root_hash req.root_path req.indexes)) [
              | inl crash ↦ rw (crash, handle_echo_request) h
              | inr (inl bad) ↦ rw (bad, handle_echo_request) h
              | inr (inr good) ↦
                  rw (good, handle_echo_request)
                    (try_output-keeps _ req.root_hash (
                      send_ready-keeps R.writes _ _ req.root_hash (
                        R.writes.save_echo s sender req (find-none sender s.echo_req_repo absent)
                          known h)))
            ])

  handle_ready_request-keeps :
      (s : Rbc) (sender : Member) (hash : Bytes)
      → P s
      → End (handle_ready_request env sender hash s)
  unfolding handle_ready_request
  handle_ready_request-keeps s sender hash h =
      if_rule End (find sender.address s.ready_req_repo) (λ _. h)
        (λ absent. try_output-keeps _ hash (
          send_ready-keeps R.writes _ _ hash
            (R.writes.save_ready s sender hash (find-none sender s.ready_req_repo absent) h)))

  pub mux_request-keeps :
      (s : Rbc) (sender : Member) (req : Request)
      → ((r : ValRequest) → req ≡ echo r → Known sender r)
      → P s
      → End (mux_request env sender req s)
  unfolding mux_request
  mux_request-keeps s sender (val req) known h = handle_value_request-keeps R.writes s sender req h
  mux_request-keeps s sender (echo req) known h =
      handle_echo_request-keeps s sender req (known req refl) h
  mux_request-keeps s sender (ready hash) known h = handle_ready_request-keeps s sender hash h
  mux_request-keeps s sender other known h = h
