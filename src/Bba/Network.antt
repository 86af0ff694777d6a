-- ===== src/Bba/Network.antt =====
-- bba/bba.go: the instances that the nodes run for one proposer, joined by the network.
pub mod OneValue
pub mod Validity
mod Tests
use cleisthenes.Base.{
  ℕ, ◌≡◌, ◌↔◌, refl, Bool, true, false, ◌&&◌, Option, none, some, List, [], ◌∷◌, GoMap, map, ◌==◌,
  bytes_beq, bytes_beq_iff, arith,
}
use cleisthenes.Base.Go.{Outcome, done, fail, block, panic, final}
use cleisthenes.Binary.{Binary}
use cleisthenes.Member.{Address, Member}
use cleisthenes.Bba.Request.{Error}
use cleisthenes.Bba.State.{
  BbaType, bval_type, aux_type, unknown_type, BbaMessage, SharedMessage, Bba, new,
}
use cleisthenes.Bba.Handlers.{Json}
use cleisthenes.Bba.Run.{Event, message, input, step}
use cleisthenes.Network.{Protocol}

abbrev pub type_beq : BbaType → BbaType → Bool
type_beq bval_type bval_type = true
type_beq aux_type aux_type = true
type_beq (unknown_type a) (unknown_type b) = a == b
type_beq _ _ = false

abbrev pub message_beq : BbaMessage → BbaMessage → Bool
message_beq a b = a.round == b.round && (type_beq a.type b.type && bytes_beq a.payload b.payload)

type_beq_iff : (a b : BbaType) → (type_beq a b ≡ true) ↔ (a ≡ b)
type_beq_iff bval_type bval_type = (λ _. refl, λ _. refl)
type_beq_iff bval_type aux_type = ((λ h. cc), λ h. cc)
type_beq_iff bval_type (unknown_type b) = ((λ h. cc), λ h. cc)
type_beq_iff aux_type bval_type = ((λ h. cc), λ h. cc)
type_beq_iff aux_type aux_type = (λ _. refl, λ _. refl)
type_beq_iff aux_type (unknown_type b) = ((λ h. cc), λ h. cc)
type_beq_iff (unknown_type a) bval_type = ((λ h. cc), λ h. cc)
type_beq_iff (unknown_type a) aux_type = ((λ h. cc), λ h. cc)
type_beq_iff (unknown_type a) (unknown_type b) = ground arith

pub message_beq_iff : (a b : BbaMessage) → (message_beq a b ≡ true) ↔ (a ≡ b)
message_beq_iff a b = ground (arith, type_beq_iff a.type b.type, bytes_beq_iff a.payload b.payload)

-- A node: its instance, as long as no event has blocked or panicked.
abbrev pub Node : Type 0
Node = Outcome Error Bba (Unit {0})

module _ (json : Json) where
  abbrev pub advance_node : Event → Node → Node
  advance_node e (done _ s) = step json e s
  advance_node e (fail _ s) = step json e s
  advance_node e (block s) = block s
  advance_node e (panic s) = panic s

  abbrev pub source : Event → Option (Address × BbaMessage)
  source (message sender msg) = some (sender.address, msg)
  source _ = none

  abbrev pub bba_protocol : Protocol Node Event BbaMessage
  bba_protocol = record {
    step = advance_node;
    source = source;
    sent = λ node. map (λ msg. msg.body) (final node).shared;
    same = message_beq;
  }

  -- The nodes when each has been given its input.
  abbrev pub given : ℕ → ℕ → (ℕ → Binary) → Member → List (Member × Binary) → GoMap Address Node
  given n f coin proposer [] = []
  given n f coin proposer ((m, v) ∷ inputs) =
      (m.address, step json (input v) (new n f m proposer coin)) ∷ given n f coin proposer inputs
