-- ===== src/Rbc/Network.antt =====
-- rbc/rbc.go: the instances that the nodes run for one proposer, joined by the network.
mod Samples
mod Tests
pub mod Votes
pub mod Tally
pub mod Agreement
use cleisthenes.Base.{
  ℕ, ◌≡◌, ◌↔◌, inl, inr, refl, Bool, true, false, ◌&&◌, ◌||◌, Option, none, some, List, [], ◌∷◌,
  ◌++◌, GoMap, map, keys, length, ◌≤◌, ◌==◌, bytes_beq, bytes_beq_iff, Option-cases, if_rule,
  if◌then◌else◌, arith,
}
use cleisthenes.Base.Go.{Outcome, done, fail, block, panic, final}
use cleisthenes.Member.{Address, Member}
use cleisthenes.Rbc.State.{
  Request, echo, ready, Error, RbcType, val_type, echo_type, ready_type, unknown_type, RbcMessage,
  SharedMessage, Rbc, new, set_content_length,
}
use cleisthenes.Rbc.Handlers.{type_of, share_message, decode_success}
use cleisthenes.Rbc.Decode.{Env}
use cleisthenes.Rbc.Run.{Event, message, input, step, run}
use cleisthenes.Rbc.Rules.{Anything, Rules}
use cleisthenes.Rbc.Keeps.{run_any-keeps, step_any-keeps}
use cleisthenes.Network.{Protocol, any}
use cleisthenes.Network.Sent.{Grows}

abbrev pub type_beq : RbcType → RbcType → Bool
type_beq val_type val_type = true
type_beq echo_type echo_type = true
type_beq ready_type ready_type = true
type_beq (unknown_type a) (unknown_type b) = a == b
type_beq _ _ = false

abbrev pub message_beq : RbcMessage → RbcMessage → Bool
message_beq a b =
    a.content_length == b.content_length
    && (type_beq a.type b.type && bytes_beq a.payload b.payload)

type_beq_iff : (a b : RbcType) → (type_beq a b ≡ true) ↔ (a ≡ b)
type_beq_iff val_type val_type = (λ _. refl, λ _. refl)
type_beq_iff val_type echo_type = ((λ h. cc), λ h. cc)
type_beq_iff val_type ready_type = ((λ h. cc), λ h. cc)
type_beq_iff val_type (unknown_type b) = ((λ h. cc), λ h. cc)
type_beq_iff echo_type val_type = ((λ h. cc), λ h. cc)
type_beq_iff echo_type echo_type = (λ _. refl, λ _. refl)
type_beq_iff echo_type ready_type = ((λ h. cc), λ h. cc)
type_beq_iff echo_type (unknown_type b) = ((λ h. cc), λ h. cc)
type_beq_iff ready_type val_type = ((λ h. cc), λ h. cc)
type_beq_iff ready_type echo_type = ((λ h. cc), λ h. cc)
type_beq_iff ready_type ready_type = (λ _. refl, λ _. refl)
type_beq_iff ready_type (unknown_type b) = ((λ h. cc), λ h. cc)
type_beq_iff (unknown_type a) val_type = ((λ h. cc), λ h. cc)
type_beq_iff (unknown_type a) echo_type = ((λ h. cc), λ h. cc)
type_beq_iff (unknown_type a) ready_type = ((λ h. cc), λ h. cc)
type_beq_iff (unknown_type a) (unknown_type b) = ground arith

pub message_beq_iff : (a b : RbcMessage) → (message_beq a b ≡ true) ↔ (a ≡ b)
message_beq_iff a b = ground (arith, type_beq_iff a.type b.type, bytes_beq_iff a.payload b.payload)

-- A node: its instance, as long as no event has blocked or panicked.
abbrev pub Node : Type 0
Node = Outcome Error Rbc (Unit {0})

abbrev pub bodies : List SharedMessage → List RbcMessage
bodies msgs = map (λ msg. msg.body) msgs

-- The messages that were distributed, one to each connection.
abbrev pub dealt : List (List SharedMessage) → List RbcMessage
dealt [] = []
dealt (msgs ∷ q) = bodies msgs ++ dealt q

abbrev pub sent : Node → List RbcMessage
sent node = bodies (final node).shared ++ dealt (final node).distributed

pub any-append :
    (p : RbcMessage → Bool) (xs ys : List RbcMessage) → any p (xs ++ ys) ≡ (any p xs || any p ys)
any-append p [] ys = refl
any-append p (x ∷ xs) ys = ground (arith, any-append p xs ys)

bodies-append :
    (p : RbcMessage → Bool) (xs ys : List SharedMessage)
    → any p (bodies (xs ++ ys)) ≡ (any p (bodies xs) || any p (bodies ys))
bodies-append p [] ys = refl
bodies-append p (x ∷ xs) ys = ground (arith, bodies-append p xs ys)

shared-snoc :
    (p : RbcMessage → Bool) (msgs : List SharedMessage) (others : List RbcMessage)
    (msg : SharedMessage)
    → any p (bodies msgs ++ others) ≡ true
    → any p (bodies (msgs ++ msg ∷ []) ++ others) ≡ true
shared-snoc p msgs others msg h = ground (
  arith,
  h,
  any-append p (bodies msgs) others,
  any-append p (bodies (msgs ++ msg ∷ [])) others,
  bodies-append p msgs (msg ∷ []),
)

dealt-snoc :
    (p : RbcMessage → Bool) (q : List (List SharedMessage)) (msgs : List SharedMessage)
    → any p (dealt q) ≡ true
    → any p (dealt (q ++ msgs ∷ [])) ≡ true
dealt-snoc p [] msgs h = absurd (ground arith)
dealt-snoc p (ms ∷ q) msgs h = ground (
  arith,
  any-append p (bodies ms) (dealt q),
  any-append p (bodies ms) (dealt (q ++ msgs ∷ [])),
  dealt-snoc p q msgs,
)

module _ (env : Env) where
  abbrev pub advance_node : Event → Node → Node
  advance_node e (done _ s) = step env e s
  advance_node e (fail _ s) = step env e s
  advance_node e (block s) = block s
  advance_node e (panic s) = panic s

  abbrev pub source : Event → Option (Address × RbcMessage)
  source (message sender msg) = some (sender.address, msg)
  source _ = none

  abbrev pub rbc_protocol : Protocol Node Event RbcMessage
  rbc_protocol = record { step = advance_node; source = source; sent = sent; same = message_beq }

  module _ (m : RbcMessage) where
    abbrev SaidIt : Rbc → Type 0
    SaidIt s = any (message_beq m) (bodies s.shared ++ dealt s.distributed) ≡ true

    share-SaidIt : (s : Rbc) (req : Request) → SaidIt s → SaidIt (share_message env req s)
    unfolding share_message
    share-SaidIt s req h = elim (Option-cases (type_of req)) [
      | inl bad ↦ rw (bad, share_message) h
      | inr (typ, good) ↦ elim (Option-cases (env.marshal req)) [
        | inl bad ↦ rw (good, bad, share_message) h
        | inr (p, good') ↦
            rw (good, good', share_message)
              (shared-snoc (message_beq m) s.shared (dealt s.distributed) _ h)
      ]
    ]

    SaidIt-Rules : Rules env Anything SaidIt
    unfolding set_content_length decode_success
    SaidIt-Rules = record {
      writes = record {
        take_length = λ s k h. if_rule SaidIt (s.content_length == 0) (λ _. h) (λ _. h);
        take_value = λ s req fresh h. share-SaidIt _ (echo req) h;
        save_echo = λ s sender req absent known h. h;
        save_ready = λ s sender hash absent h. h;
        share_ready = λ s hash unsent h. share-SaidIt _ (ready hash) h;
        distribute = λ s proposer reqs {msgs} made h. ground (
          arith,
          h,
          any-append (message_beq m) (bodies s.shared) (dealt s.distributed),
          any-append (message_beq m) (bodies s.shared) (dealt (s.distributed ++ msgs ∷ [])),
          dealt-snoc (message_beq m) s.distributed msgs,
        );
      };
      output = λ s hash value undone readys echos good h. h;
    }

  pub rbc-Grows : (bad : List Address) → Grows rbc_protocol bad
  rbc-Grows bad (done _ s) e m h = step_any-keeps (SaidIt-Rules m) e s h
  rbc-Grows bad (fail _ s) e m h = step_any-keeps (SaidIt-Rules m) e s h
  rbc-Grows bad (block s) e m h = h
  rbc-Grows bad (panic s) e m h = h

-- The nodes with a new instance each.
abbrev pub started : (ℕ → ℕ → Bool) → ℕ → ℕ → Member → List Member → GoMap Address Node
started accepts n f proposer [] = []
started accepts n f proposer (m ∷ ms) =
    let rest = started accepts n f proposer ms in
    elim (new accepts n f m proposer) [ none ↦ rest | some s ↦ (m.address, done tt s) ∷ rest ]
