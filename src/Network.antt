-- ===== src/Network.antt =====
-- The nodes of one protocol instance and the network between them. A node that is not faulty runs
-- the code; it is given only messages that their sender has sent, to anyone and at any time
-- before, or that a faulty address makes up. Messages can be lost, repeated and reordered. The
-- faulty nodes have no state.
pub mod Sent
use mathlib.Core.Option.{some-injective}
use cleisthenes.Base.{
  ◌≡◌, ◌⊎◌, inl, inr, subst, Bool, true, false, ◌||◌, Option, none, some, List, [], ◌∷◌, GoMap,
  lookup, insert, contains, All, All-insert, Option-cases, if◌then◌else◌, arith, Bool-cases,
}
use cleisthenes.Member.{Address, address_eq}

-- A protocol as its nodes run it: what an event does to a node, the message that an event brings
-- with the address that it comes from, and what a node has sent so far.
pub record Protocol (S E M : Type 0) : Type 0 where
  pub step : E → S → S
  pub source : E → Option (Address × M)
  pub sent : S → List M
  pub same : M → M → Bool

module _ {M : Type 0} where
  abbrev pub any : (M → Bool) → List M → Bool
  any p [] = false
  any p (m ∷ ms) = p m || any p ms

module _ {S E M : Type 0} (protocol : Protocol S E M) (bad : List Address) where
  -- Whether the network can bring a message from an address.
  unfoldable pub carries : GoMap Address S → Option (Address × M) → Bool
  carries nodes none = true
  carries nodes (some (a, m)) =
      contains a bad
      || elim (lookup a nodes) [ none ↦ false | some s ↦ any (protocol.same m) (protocol.sent s) ]

  -- The nodes after a schedule: at each point a node has an event. A schedule that the network
  -- cannot produce has no result.
  unfoldable pub run_network : List (Address × E) → GoMap Address S → Option (GoMap Address S)
  unfolding carries
  run_network [] nodes = some nodes
  run_network ((a, e) ∷ es) nodes = elim (lookup a nodes) [
    | none ↦ none
    | some s ↦
        let rest = run_network es (insert a (protocol.step e s) nodes) in
        if carries nodes (protocol.source e) then rest else none
  ]

  module _ (P : S → Type 0) (Fine : E → Type 0) where
    -- What is known of the message of an event: its address is faulty, or it was sent in a state
    -- with the property.
    abbrev pub FromNode : Address → M → Type 0
    FromNode a m =
        (contains a bad ≡ true) ⊎ ((s : S) × P s × (any (protocol.same m) (protocol.sent s) ≡ true))

    abbrev pub Source : Option (Address × M) → Type 0
    Source none = Unit
    Source (some (a, m)) = FromNode a m

    abbrev pub Kept : Type 0
    Kept = (s : S) (e : E) → Fine e → Source (protocol.source e) → P s → P (protocol.step e s)

    abbrev pub AllNodes : GoMap Address S → Type 0
    AllNodes nodes = All (λ x. P x.1) nodes

    pub AllNodes-lookup :
        (a : Address) (nodes : GoMap Address S) {s : S}
        → AllNodes nodes
        → lookup a nodes ≡ some s
        → P s
    unfolding lookup
    AllNodes-lookup a [] h e = absurd (ground arith)
    AllNodes-lookup a ((b, t) ∷ nodes) {s} h e = elim (Bool-cases (address_eq.beq b a)) [
      | inl same ↦ subst P (some-injective _ _ (ground arith)) h.0
      | inr other ↦ AllNodes-lookup a nodes h.1 (ground arith)
    ]

    carries-Source :
        (nodes : GoMap Address S) (o : Option (Address × M))
        → AllNodes nodes
        → carries nodes o ≡ true
        → Source o
    unfolding carries
    carries-Source nodes none h ok = tt
    carries-Source nodes (some (a, m)) h ok = elim (Bool-cases (contains a bad)) [
      | inl faulty ↦ inl faulty
      | inr correct ↦ elim (Option-cases (lookup a nodes)) [
        | inl absent ↦ absurd (ground arith)
        | inr (s, here) ↦ inr (s, AllNodes-lookup a nodes h here, ground arith)
      ]
    ]

    -- A property that every event keeps holds of all nodes after every schedule.
    pub run_network-keeps :
        Kept
        → (es : List (Address × E)) (nodes : GoMap Address S) {nodes' : GoMap Address S}
        → All (λ x. Fine x.1) es
        → AllNodes nodes
        → run_network es nodes ≡ some nodes'
        → AllNodes nodes'
    unfolding run_network
    run_network-keeps keep [] nodes fine h e = subst AllNodes (some-injective _ _ e) h
    run_network-keeps keep ((a, ev) ∷ es) nodes fine h e = elim (Option-cases (lookup a nodes)) [
      | inl absent ↦ absurd (ground arith)
      | inr (s, here) ↦ elim (Bool-cases (carries nodes (protocol.source ev))) [
        | inl ok ↦
            run_network-keeps keep es (insert a (protocol.step ev s) nodes) fine.1
              (All-insert (λ x. P x.1) a (protocol.step ev s) nodes
                (keep s ev fine.0 (carries-Source nodes (protocol.source ev) h ok)
                  (AllNodes-lookup a nodes h here))
                h)
              (ground arith)
        | inr refused ↦ absurd (ground arith)
      ]
    ]
