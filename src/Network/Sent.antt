-- ===== src/Network/Sent.antt =====
-- Runs of the network seen from their end: every message that a node is given was, in the end, sent
-- by the node at its address, or that address is faulty.
use mathlib.Core.Option.{some-injective}
use cleisthenes.Base.{
  ◌≡◌, ◌⊎◌, inl, inr, subst, sym, ap, ◌∙◌, true, Option, none, some, List, [], ◌∷◌, GoMap, keys,
  lookup, insert, lookup-insert, keys-insert_present, contains, All, All-insert, Option-cases,
  arith, Bool-cases,
}
use cleisthenes.Member.{Address, address_eq}
use cleisthenes.Network.{Protocol, any, carries, run_network}

module _ {S E M : Type 0} (protocol : Protocol S E M) (bad : List Address) where
  -- What a node has sent stays sent.
  abbrev pub Grows : Type 0
  Grows =
      (s : S) (e : E) (m : M)
      → any (protocol.same m) (protocol.sent s) ≡ true
      → any (protocol.same m) (protocol.sent (protocol.step e s)) ≡ true

  abbrev pub Said : GoMap Address S → Address → M → Type 0
  Said nodes a m =
      (contains a bad ≡ true)
      ⊎ ((s : S) × (lookup a nodes ≡ some s) × (any (protocol.same m) (protocol.sent s) ≡ true))

  abbrev pub Source : GoMap Address S → Option (Address × M) → Type 0
  Source nodes none = Unit
  Source nodes (some (a, m)) = Said nodes a m

  carries-Said :
      (nodes : GoMap Address S) (o : Option (Address × M))
      → carries protocol bad nodes o ≡ true
      → Source nodes o
  unfolding carries
  carries-Said nodes none ok = tt
  carries-Said nodes (some (a, m)) ok = elim (Bool-cases (contains a bad)) [
    | inl faulty ↦ inl faulty
    | inr correct ↦ elim (Option-cases (lookup a nodes)) [
      | inl absent ↦ absurd (ground arith)
      | inr (s, here) ↦ inr (s, here, ground arith)
    ]
  ]

  insert-Said :
      Grows
      → (nodes : GoMap Address S) (b : Address) (e : E) {s : S} → lookup b nodes ≡ some s
      → (a : Address) (m : M) → Said nodes a m
      → Said (insert b (protocol.step e s) nodes) a m
  insert-Said grows nodes b e {s} at_b a m (inl faulty) = inl faulty
  insert-Said grows nodes b e {s} at_b a m (inr (t, here, said)) =
      elim (Bool-cases (address_eq.beq b a)) [
        | inl same ↦
            let there : lookup a nodes ≡ some s =
              subst (λ x. lookup x nodes ≡ some s) ((address_eq.beq_iff b a).0 same) at_b in
            let same_node : t ≡ s = some-injective _ _ (sym here ∙ there) in
            inr (
              protocol.step e s,
              ground (arith, lookup-insert b a (protocol.step e s) nodes),
              grows s e m
                  (subst (λ x. any (protocol.same m) (protocol.sent x) ≡ true) same_node said),
            )
        | inr other ↦ inr (t, ground (arith, lookup-insert b a (protocol.step e s) nodes), said)
      ]

  run_network-Said :
      Grows
      → (es : List (Address × E)) (nodes : GoMap Address S) {last : GoMap Address S}
      → run_network protocol bad es nodes ≡ some last
      → (a : Address) (m : M) → Said nodes a m
      → Said last a m
  unfolding run_network
  run_network-Said grows [] nodes e a m h = subst (λ x. Said x a m) (some-injective _ _ e) h
  run_network-Said grows ((b, ev) ∷ es) nodes e a m h = elim (Option-cases (lookup b nodes)) [
    | inl absent ↦ absurd (ground arith)
    | inr (s, here) ↦ elim (Bool-cases (carries protocol bad nodes (protocol.source ev))) [
      | inl ok ↦
          run_network-Said grows es (insert b (protocol.step ev s) nodes) (ground arith) a m
            (insert-Said grows nodes b ev here a m h)
      | inr refused ↦ absurd (ground arith)
    ]
  ]

  pub run_network-keys :
      (es : List (Address × E)) (nodes : GoMap Address S) {last : GoMap Address S}
      → run_network protocol bad es nodes ≡ some last
      → keys last ≡ keys nodes
  unfolding run_network
  run_network-keys [] nodes e = ap keys (sym (some-injective _ _ e))
  run_network-keys ((b, ev) ∷ es) nodes e = elim (Option-cases (lookup b nodes)) [
    | inl absent ↦ absurd (ground arith)
    | inr (s, here) ↦ elim (Bool-cases (carries protocol bad nodes (protocol.source ev))) [
      | inl ok ↦
          run_network-keys es (insert b (protocol.step ev s) nodes) (ground arith)
          ∙ keys-insert_present b (protocol.step ev s) s nodes here
      | inr refused ↦ absurd (ground arith)
    ]
  ]

  module _ (P : Address → S → Type 0) (Fine : E → Type 0) where
    abbrev pub AllNodes : GoMap Address S → Type 0
    AllNodes nodes = All (λ x. P x.0 x.1) nodes

    pub AllNodes-lookup :
        (a : Address) (nodes : GoMap Address S) {s : S}
        → AllNodes nodes
        → lookup a nodes ≡ some s
        → P a s
    unfolding lookup
    AllNodes-lookup a [] h e = absurd (ground arith)
    AllNodes-lookup a ((b, t) ∷ nodes) {s} h e = elim (Bool-cases (address_eq.beq b a)) [
      | inl same ↦
          subst (λ x. P x s) ((address_eq.beq_iff b a).0 same)
            (subst (P b) (some-injective _ _ (ground arith)) h.0)
      | inr other ↦ AllNodes-lookup a nodes h.1 (ground arith)
    ]

    -- An event keeps the property of the node that has it, given what was sent in the end.
    abbrev pub Kept : GoMap Address S → Type 0
    Kept last =
        (a : Address) (s : S) (e : E)
        → Fine e
        → Source last (protocol.source e)
        → P a s
        → P a (protocol.step e s)

    Source-later :
        Grows
        → (es : List (Address × E)) (nodes : GoMap Address S) (b : Address) (e : E) {s : S}
          {last : GoMap Address S}
        → lookup b nodes ≡ some s
        → run_network protocol bad es (insert b (protocol.step e s) nodes) ≡ some last
        → (o : Option (Address × M)) → Source nodes o
        → Source last o
    Source-later grows es nodes b e here ran none h = tt
    Source-later grows es nodes b e {s} here ran (some (a, m)) h =
        run_network-Said grows es (insert b (protocol.step e s) nodes) ran a m
          (insert-Said grows nodes b e here a m h)

    pub run_network-keeps_last :
        Grows
        → {last : GoMap Address S} → Kept last
        → (es : List (Address × E)) (nodes : GoMap Address S) → All (λ x. Fine x.1) es
        → AllNodes nodes
        → run_network protocol bad es nodes ≡ some last
        → AllNodes last
    unfolding run_network
    run_network-keeps_last grows keep [] nodes fine h e = subst AllNodes (some-injective _ _ e) h
    run_network-keeps_last grows keep ((a, ev) ∷ es) nodes fine h e =
        elim (Option-cases (lookup a nodes)) [
          | inl absent ↦ absurd (ground arith)
          | inr (s, here) ↦ elim (Bool-cases (carries protocol bad nodes (protocol.source ev))) [
            | inl ok ↦
                let ran : run_network protocol bad es (insert a (protocol.step ev s) nodes)
                    ≡ some _ =
                  ground arith in
                run_network-keeps_last grows keep es (insert a (protocol.step ev s) nodes) fine.1
                  (All-insert (λ x. P x.0 x.1) a (protocol.step ev s) nodes
                    (keep a s ev fine.0
                      (Source-later grows es nodes a ev here ran (protocol.source ev)
                        (carries-Said nodes (protocol.source ev) ok))
                      (AllNodes-lookup a nodes h here))
                    h)
                  ran
            | inr refused ↦ absurd (ground arith)
          ]
        ]
