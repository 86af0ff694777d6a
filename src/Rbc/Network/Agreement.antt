-- ===== src/Rbc/Network/Agreement.antt =====
-- rbc/rbc.go: the roots under which the nodes decode the values that they give out.
use mathlib.Core.Option.{some-injective}
use cleisthenes.Base.{
  ℕ, ◌+◌, ◌*◌, ◌-◌, ◌≤◌, ◌<◌, ◌≡◌, inl, inr, refl, sym, subst, ap, ◌∙◌, Bool, true, false, Option,
  some, List, [], ◌∷◌, ◌++◌, GoMap, keys, lookup, length, length-append, contains, contains-append,
  common_voter, lookup_absent, bytes_beq, bytes_beq_iff, voters, length-voters, All-voters,
  voters-Distinct, All-contains, All, All-always, if_rule, Option-cases, Bool-cases, arith,
}
use cleisthenes.Base.Go.{done, final}
use cleisthenes.Member.{Address, Member, address_eq}
use cleisthenes.Rbc.Merkle.{Bytes}
use cleisthenes.Rbc.State.{ValRequest, DataMessage, Rbc, new}
use cleisthenes.Rbc.Decode.{Env}
use cleisthenes.Rbc.Run.{Event}
use cleisthenes.Network.{any, run_network}
use cleisthenes.Network.Sent.{AllNodes, AllNodes-lookup, run_network-keeps_last, run_network-keys}
use cleisthenes.Rbc.Network.{
  Node, message_beq, rbc_protocol, rbc-Grows, started, bodies, dealt, any-append,
}
use cleisthenes.Rbc.Network.Votes.{EchoTrips, chosen, Says, Says-any, Says-dealt}
use cleisthenes.Rbc.Network.Tally.Keeps.{node-Kept}
use cleisthenes.Rbc.Network.Tally.{Vote, DecodedFrom, AnyOutput, Tally}

lookup-contains :
    {V : Type 0} (b : Address) (m : GoMap Address V) {v : V}
    → lookup b m ≡ some v
    → contains b (keys m) ≡ true
lookup-contains b m here = elim (Bool-cases (contains b (keys m))) [
  | inl found ↦ found
  | inr missing ↦ absurd (let gone = lookup_absent b m missing in ground arith)
]

length-started :
    (accepts : ℕ → ℕ → Bool) (n f : ℕ) (proposer : Member) (correct : List Member)
    → length (keys (started accepts n f proposer correct)) ≤ length correct
length-started accepts n f proposer [] = omega arith
length-started accepts n f proposer (m ∷ ms) =
    let rest = length-started accepts n f proposer ms in
    elim (Option-cases (new accepts n f m proposer)) [
      | inl refused ↦ ground (arith, rest, refused)
      | inr (s, made) ↦ ground (arith, rest, made)
    ]

module _ (env : Env) (trips : EchoTrips env) (n f : ℕ) (bad : List Address)
    (last : GoMap Address Node) where
  abbrev For : Address → Node → Type 0
  For a node = Tally env n f bad last a (final node)

  new-Tally :
      (accepts : ℕ → ℕ → Bool) (proposer m : Member) {s : Rbc}
      → new accepts n f m proposer ≡ some s
      → Tally env n f bad last m.address s
  unfolding new chosen
  new-Tally accepts proposer m {s} made =
      if_rule (λ r. r ≡ some s → Tally env n f bad last m.address s) (accepts (n - 2 * f) (2 * f))
        (λ _ start.
          subst (λ t. Tally env n f bad last m.address t) (some-injective _ _ start)
            (
              record {
                same_owner = refl;
                same_n = refl;
                same_f = refl;
                same_data = refl;
                same_parity = refl;
                senders = tt;
                votes = tt;
                said = tt;
                given = tt;
                outputs = tt;
              },
              inl refl,
            ))
        (λ _ refused. ground (arith, refused)) made

  started-For :
      (accepts : ℕ → ℕ → Bool) (proposer : Member) (correct : List Member)
      → AllNodes (rbc_protocol env) bad For (λ e. Unit) (started accepts n f proposer correct)
  started-For accepts proposer [] = tt
  started-For accepts proposer (m ∷ ms) =
      let nodes = started accepts n f proposer ms in
      let rest = started-For accepts proposer ms in
      elim (Option-cases (new accepts n f m proposer)) [
        | inl refused ↦
            subst (AllNodes (rbc_protocol env) bad For (λ e. Unit)) {x = nodes}
              (ground (arith, refused)) rest
        | inr (s, made) ↦
            subst (AllNodes (rbc_protocol env) bad For (λ e. Unit))
              {x = (m.address, done tt s) ∷ nodes} (ground (arith, made))
              (new-Tally accepts proposer m made, rest)
      ]

  module _ (all : AllNodes (rbc_protocol env) bad For (λ e. Unit) last) where
    abbrev Chose : Address → Bytes → Type 0
    Chose b root = (t : Node) × (lookup b last ≡ some t) × (chosen (final t) ≡ some root)

    abbrev VoteFor : Address → Option Bytes → Address → Bytes → Type 0
    VoteFor a o b root =
        (req : ValRequest) × (req.root_hash ≡ root) × Vote env n f bad last a o b req

    -- A node that is not faulty and is counted for a root has chosen it.
    Vote-Chose :
        (a b : Address) {node : Node} (root : Bytes)
        → lookup a last ≡ some node
        → contains b bad ≡ false
        → VoteFor a (chosen (final node)) b root
        → Chose b root
    Vote-Chose a b root here good (req, same, inl (inl faulty)) = absurd (ground arith)
    Vote-Chose a b root here good (req, same, inl (inr (t, msg, there, found, e))) =
        let h = AllNodes-lookup (rbc_protocol env) bad For (λ e. Unit) b last all there in
        let says : Says env (chosen (final t)) msg =
          elim (Bool-cases (any (message_beq msg) (bodies (final t).shared))) [
            | inl now ↦ Says-any env (chosen (final t)) (final t).shared msg h.0.said now
            | inr earlier ↦ Says-dealt env (chosen (final t)) (final t).distributed msg h.0.given (
                ground (
                  arith,
                  found,
                  earlier,
                  any-append (message_beq msg) (bodies (final t).shared)
                      (dealt (final t).distributed),
                ))
          ] in
        (t, there, says req e ∙ ap some same)
    Vote-Chose a b {node} root here good (req, same, inr (own, e)) =
        (node, subst (λ x. lookup x last ≡ some node) (sym own) here, e ∙ ap some same)

    Vote-contains :
        (a b : Address) {node : Node} (root : Bytes)
        → lookup a last ≡ some node
        → VoteFor a (chosen (final node)) b root
        → contains b (bad ++ keys last) ≡ true
    Vote-contains a b root here (req, same, inl (inl faulty)) =
        ground (arith, faulty, contains-append b bad (keys last))
    Vote-contains a b root here (req, same, inl (inr (t, msg, there, found, e))) =
        ground (arith, lookup-contains b last there, contains-append b bad (keys last))
    Vote-contains a b {node} root here (req, same, inr (own, e)) =
        let known =
          subst (λ x. contains x (keys last) ≡ true) (sym own) (lookup-contains a last here) in
        ground (arith, known, contains-append b bad (keys last))

    module _ (size : length (bad ++ keys last) ≤ n) (few : length bad ≤ f) (fewer : 3 * f < n) where
      votes_for :
          (a : Address) (node : Node) (root value : Bytes)
          → (o : DecodedFrom env n f bad last a (chosen (final node)) root value)
          → All
              (λ b. VoteFor a (chosen (final node)) b root)
              (voters (λ req. bytes_beq root req.root_hash) o.echos)
      votes_for a node root value o =
          All-voters (λ x. Vote env n f bad last a (chosen (final node)) x.0 x.1) _
            (λ req. bytes_beq root req.root_hash)
            (λ b req same vote. (req, sym ((bytes_beq_iff root req.root_hash).0 same), vote))
            o.echos o.votes

      same_root :
          (a b : Address) {left right : Node} (root other value value' : Bytes)
          → lookup a last ≡ some left
          → lookup b last ≡ some right
          → DecodedFrom env n f bad last a (chosen (final left)) root value
          → DecodedFrom env n f bad last b (chosen (final right)) other value'
          → root ≡ other
      same_root a b {left} {right} root other value value' at_a at_b x y =
          let test = λ (r : Bytes) (req : ValRequest). bytes_beq r req.root_hash in
          let left_votes = votes_for a left root value x in
          let right_votes = votes_for b right other value' y in
          let (c, in_left, in_right, good) =
            common_voter (bad ++ keys last) bad (voters (test root) x.echos)
              (voters (test other) y.echos) n f size few fewer
              (voters-Distinct (test root) x.echos x.senders)
              (voters-Distinct (test other) y.echos y.senders)
              (λ d inside. Vote-contains a d root at_a (All-contains _ _ left_votes inside))
              (λ d inside. Vote-contains b d other at_b (All-contains _ _ right_votes inside))
              (subst (λ k. n - f ≤ k) (sym (length-voters (test root) x.echos)) x.enough)
              (subst (λ k. n - f ≤ k) (sym (length-voters (test other) y.echos)) y.enough) in
          let (t, there, e) = Vote-Chose a c root at_a good (All-contains _ _ left_votes in_left) in
          let (u, there', e') =
            Vote-Chose b c other at_b good (All-contains _ _ right_votes in_right) in
          let same_node : t ≡ u = some-injective _ _ (sym there ∙ there') in
          some-injective _ _ (sym e ∙ ap (λ x. chosen (final x)) same_node ∙ e')

-- Let each call of a node be one step, let the addresses of the nodes and the faulty ones be at most
-- n, at most f of them faulty, with
-- n > 3f, and let JSON give ECHOs back. Then, whatever the faulty nodes send, the proposer among
-- them, and however messages are delayed, lost, repeated and reordered, the values that two nodes
-- have sent their owners were decoded under one root, each from ECHOs of which n - f, of different
-- addresses, have that root. Each ECHO that a value was decoded from is that of a faulty address, or
-- one that the node at its address has sent, or the own one of the node that gave the value out,
-- with the root of the VAL that this node has accepted.
pub agreed_root :
    (env : Env)
    → EchoTrips env
    → (accepts : ℕ → ℕ → Bool) (n f : ℕ) (proposer : Member) (bad : List Address)
      (correct : List Member) (es : List (Address × Event)) {nodes : GoMap Address Node}
      (a b : Address) {left right : Node} {v w : DataMessage} {vs ws : List DataMessage}
    → length bad + length correct ≤ n
    → length bad ≤ f
    → 3 * f < n
    → run_network (rbc_protocol env) bad es (started accepts n f proposer correct) ≡ some nodes
    → lookup a nodes ≡ some left
    → lookup b nodes ≡ some right
    → (final left).data_sent ≡ v ∷ vs
    → (final right).data_sent ≡ w ∷ ws
    → (root : Bytes) × DecodedFrom env n f bad nodes a (chosen (final left)) root v.bytes
      × DecodedFrom env n f bad nodes b (chosen (final right)) root w.bytes
agreed_root env trips accepts n f proposer bad correct es {nodes} a b {left} {right} {v} {w} size
      few fewer ran at_a at_b sent_a sent_b =
    let for = For env trips n f bad nodes in
    let all =
      run_network-keeps_last (rbc_protocol env) bad for (λ e. Unit) (rbc-Grows env bad)
        (node-Kept env n f bad nodes trips) es _ (All-always (λ e. tt) es)
        (started-For env trips n f bad nodes accepts proposer correct) ran in
    let tally_a = AllNodes-lookup (rbc_protocol env) bad for (λ e. Unit) a nodes all at_a in
    let tally_b = AllNodes-lookup (rbc_protocol env) bad for (λ e. Unit) b nodes all at_b in
    let fits : length (bad ++ keys nodes) ≤ n =
      subst (λ k. length (bad ++ k) ≤ n) (sym (run_network-keys (rbc_protocol env) bad es _ ran))
        (omega (
          arith,
          length-append bad (keys (started accepts n f proposer correct)),
          length-started accepts n f proposer correct,
          size,
        )) in
    let (root, x) =
      (subst (All (AnyOutput env n f bad nodes a (chosen (final left)))) sent_a
        tally_a.0.outputs).0 in
    let (other, y) =
      (subst (All (AnyOutput env n f bad nodes b (chosen (final right)))) sent_b
        tally_b.0.outputs).0 in
    let same =
      same_root env trips n f bad nodes all fits few fewer a b root other v.bytes w.bytes at_a at_b
        x y in
    (
      root,
      x,
      subst (λ r. DecodedFrom env n f bad nodes b (chosen (final right)) r w.bytes) (sym same) y,
    )
