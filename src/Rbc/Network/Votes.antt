-- ===== src/Rbc/Network/Votes.antt =====
-- rbc/rbc.go: the roots that the nodes vote for with their ECHOs, and the ECHOs that a node keeps.
use mathlib.Core.Option.{some-injective}
use cleisthenes.Base.{
  ℕ, ◌≡◌, ◌⊎◌, inl, inr, refl, sym, subst, true, false, Option, none, some, List, [], ◌∷◌, lookup,
  insert, lookup-insert, All, if◌then◌else◌, Option-cases, Bool-cases, arith,
}
use cleisthenes.Member.{Member, address_eq}
use cleisthenes.Rbc.Merkle.{Bytes}
use cleisthenes.Rbc.State.{
  ValRequest, val, echo, ready, ok, RbcType, RbcMessage, SharedMessage, Rbc, val_type,
}
use cleisthenes.Rbc.Handlers.{type_of, decoded, process, process_message}
use cleisthenes.Rbc.Decode.{Env}
use cleisthenes.Rbc.Input.{messages_for}
use cleisthenes.Rbc.Rules.{with_value}
use cleisthenes.Network.{any}
use cleisthenes.Rbc.Network.{message_beq, message_beq_iff, bodies, dealt, any-append}

-- JSON gives the ECHOs back that it has written.
abbrev pub EchoTrips : Env → Type 0
EchoTrips env =
    (req : ValRequest) (p : Bytes)
    → env.marshal (echo req) ≡ some p
    → env.unmarshal_echo p ≡ some req

root_of : Option ValRequest → Option Bytes
root_of none = none
root_of (some req) = some req.root_hash

-- The root of the VAL that an instance has accepted.
unfoldable pub chosen : Rbc → Option Bytes
unfolding root_of
chosen s = if s.val_received.value then root_of (lookup s.owner.address s.echo_req_repo) else none

pub chosen-with_value :
    (s : Rbc) (req : ValRequest) → chosen (with_value req s) ≡ some req.root_hash
unfolding chosen root_of
chosen-with_value s req = ground (
  arith,
  lookup-insert s.owner.address s.owner.address req s.echo_req_repo,
  address_eq.beq_iff s.owner.address s.owner.address,
)

pub chosen-fresh : (s : Rbc) → s.val_received.value ≡ false → chosen s ≡ none
unfolding chosen
chosen-fresh s fresh = ground (arith, fresh)

-- An instance that has accepted a VAL has its own ECHO.
abbrev pub Present : Rbc → Type 0
Present s =
    (s.val_received.value ≡ false)
    ⊎ ((req : ValRequest) × (lookup s.owner.address s.echo_req_repo ≡ some req))

abbrev pub saving : Member → ValRequest → Rbc → Rbc
saving sender req s = record s { echo_req_repo = insert sender.address req s.echo_req_repo }

pub chosen-saving :
    (s : Rbc) (sender : Member) (req : ValRequest)
    → lookup sender.address s.echo_req_repo ≡ none
    → Present s
    → chosen (saving sender req s) ≡ chosen s
unfolding chosen
chosen-saving s sender req absent (inl fresh) = ground (arith, fresh)
chosen-saving s sender req absent (inr (own, here)) =
    let kept : lookup s.owner.address (insert sender.address req s.echo_req_repo)
        ≡ lookup s.owner.address s.echo_req_repo =
      ground (
        arith,
        absent,
        here,
        address_eq.beq_iff sender.address s.owner.address,
        lookup-insert sender.address s.owner.address req s.echo_req_repo,
      ) in
    rw kept refl

module _ (env : Env) where
  abbrev pub Says : Option Bytes → RbcMessage → Type 0
  Says o msg = (req : ValRequest) → process_message env msg ≡ ok (echo req) → o ≡ some req.root_hash

  pub Says-any :
      (o : Option Bytes) (msgs : List SharedMessage) (msg : RbcMessage)
      → All (λ m. Says o m.body) msgs
      → any (message_beq msg) (bodies msgs) ≡ true
      → Says o msg
  Says-any o [] msg h found = absurd (ground arith)
  Says-any o (m ∷ ms) msg h found = elim (Bool-cases (message_beq msg m.body)) [
    | inl same ↦ subst (Says o) (sym ((message_beq_iff msg m.body).0 same)) h.0
    | inr other ↦ Says-any o ms msg h.1 (ground arith)
  ]

  pub Says-dealt :
      (o : Option Bytes) (q : List (List SharedMessage)) (msg : RbcMessage)
      → All (λ ms. All (λ m. Says o m.body) ms) q
      → any (message_beq msg) (dealt q) ≡ true
      → Says o msg
  Says-dealt o [] msg h found = absurd (ground arith)
  Says-dealt o (ms ∷ q) msg h found = elim (Bool-cases (any (message_beq msg) (bodies ms))) [
    | inl here ↦ Says-any o ms msg h.0 here
    | inr later ↦
        Says-dealt o q msg h.1
          (ground (arith, found, any-append (message_beq msg) (bodies ms) (dealt q)))
  ]

  pub echo-Says :
      EchoTrips env
      → (req : ValRequest) (p : Bytes) (k : ℕ) (typ : RbcType) → type_of (echo req) ≡ some typ
      → env.marshal (echo req) ≡ some p
      → Says (some req.root_hash) (record { payload = p; content_length = k; type = typ })
  unfolding process_message process decoded type_of
  echo-Says trips req p k typ t m r e = ground (arith, t, e, trips req p m)

  pub ready-Says :
      (o : Option Bytes) (hash p : Bytes) (k : ℕ) (typ : RbcType)
      → type_of (ready hash) ≡ some typ
      → Says o (record { payload = p; content_length = k; type = typ })
  unfolding process_message process decoded type_of
  ready-Says o hash p k typ t r e = elim (Option-cases (env.unmarshal_ready p)) [
    | inl bad ↦ absurd (ground (arith, t, e, bad))
    | inr (x, good) ↦ absurd (ground (arith, t, e, good))
  ]

  val-Says :
      (o : Option Bytes) (p : Bytes) (k : ℕ)
      → Says o (record { payload = p; content_length = k; type = val_type })
  unfolding process_message process decoded
  val-Says o p k r e = elim (Option-cases (env.unmarshal_val p)) [
    | inl bad ↦ absurd (ground (arith, e, bad))
    | inr (x, good) ↦ absurd (ground (arith, e, good))
  ]

  pub messages_for-Says :
      (o : Option Bytes) (proposer : Member) (s : Rbc) (reqs : List ValRequest)
      {msgs : List SharedMessage}
      → messages_for env proposer s reqs ≡ some msgs
      → All (λ m. Says o m.body) msgs
  unfolding messages_for
  messages_for-Says o proposer s [] e = subst (All (λ m. Says o m.body)) (some-injective _ _ e) tt
  messages_for-Says o proposer s (req ∷ reqs) e = elim (Option-cases (env.marshal (val req))) [
    | inl bad ↦ absurd (ground arith)
    | inr (p, good) ↦ elim (Option-cases (messages_for env proposer s reqs)) [
      | inl bad ↦ absurd (ground arith)
      | inr (rest, made) ↦
          let made_all : some (
                record {
                  proposer = proposer;
                  sender = s.owner;
                  body = record { payload = p; content_length = s.content_length; type = val_type };
                }
                ∷ rest)
              ≡ some _ =
            ground (arith, e, good, made) in
          subst (All (λ m. Says o m.body)) (some-injective _ _ made_all)
            (val-Says o p s.content_length, messages_for-Says o proposer s reqs made)
    ]
  ]
