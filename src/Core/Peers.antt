-- ===== src/Core/Peers.antt =====
-- core/core.go: what a node knows of the peers that it connects to.
use cleisthenes.Base.{
  ℕ, String, ◌≡◌, ◌≢◌, refl, sym, ap, ◌∙◌, subst, inl, inr, Bool, Option, none, some, List, [], ◌∷◌,
  lookup, insert, lookup-insert, Option-cases, arith,
}
use mathlib.Core.Option.{some-injective}
use cleisthenes.Base.Go.{panic, final, after-final}
use cleisthenes.Member.{
  Address, MemberMap, address_eq, new_member_map, new_member_with_address, add,
}
use cleisthenes.Honeybadger.{
  HoneyBadger, Message, AcsOps, Tpke, create_failed, get_acs, handle_message,
}
use cleisthenes.Honeybadger
use cleisthenes.Config.{Config}
use cleisthenes.Core.{Outside, Node, new, connect_address, connect, connect_all, serve}

own-unknown :
    (own peer : Address)
    → peer ≢ own
    → lookup peer (add (new_member_with_address own) new_member_map) ≡ none
unfolding add new_member_map new_member_with_address lookup
own-unknown own peer other = ground (
  arith,
  other,
  lookup-insert own peer (new_member_with_address own) new_member_map,
  address_eq.beq_iff own peer,
)

module _ {Acs : Type 0} where
  -- A new HoneyBadger that is handed a message of an address that it does not know.
  new-panics :
      (ops : AcsOps Acs) (msg : Message) (m : MemberMap) (factory : ℕ → Option Acs) (tpk : Tpke)
      (addr : Address) (a : Acs)
      → factory 0 ≡ some a
      → msg.sender ≡ some addr
      → lookup addr m ≡ none
      → (hb : HoneyBadger Acs) × (handle_message ops msg (Honeybadger.new m factory tpk) ≡ panic hb)
  unfolding handle_message get_acs Honeybadger.new lookup insert
  new-panics ops msg m factory tpk addr a made sent unknown = (
    record (Honeybadger.new m factory tpk) { acs_repository = (msg.epoch, a) ∷ []; created = 1 },
    ground (arith, made, sent, unknown),
  )

module _ {C Acs Tx : Type 0} (outside : Outside C) where
  connect-endpoint :
      (target : String) (n : Node C Acs Tx)
      → (final (connect outside target n)).message_endpoint ≡ n.message_endpoint
  unfolding connect connect_address
  connect-endpoint target n = elim (Option-cases (outside.to_address target)) [
    | inl bad ↦ rw (bad, connect) refl
    | inr (addr, good) ↦ elim (Option-cases (outside.dial addr)) [
      | inl bad ↦ rw (good, bad, connect, connect_address) refl
      | inr (conn, good') ↦ rw (good, good', connect, connect_address) refl
    ]
  ]

  connect_all-endpoint :
      (targets : List String) (n : Node C Acs Tx)
      → (final (connect_all outside targets n)).message_endpoint ≡ n.message_endpoint
  unfolding connect_all
  connect_all-endpoint [] n = refl
  connect_all-endpoint (target ∷ targets) n =
      after-final (λ t. t.message_endpoint ≡ n.message_endpoint) (connect outside target n) _
        (connect-endpoint target n) (λ _ t h. connect_all-endpoint targets t ∙ h)

  endpoint_of : Option (Node C Acs Tx) → Option (HoneyBadger Acs)
  endpoint_of none = none
  endpoint_of (some n) = some n.message_endpoint

  new-endpoint :
      (conf : Config) (factory : MemberMap → ℕ → Option Acs) (tpk : Tpke) (tx_validator : Tx → Bool)
      (own : Address)
      → outside.to_address conf.identity.address ≡ some own
      → let known = add (new_member_with_address own) new_member_map in
        endpoint_of (new outside conf factory tpk tx_validator)
        ≡ some (Honeybadger.new known (factory known) tpk)
  unfolding new endpoint_of
  new-endpoint conf factory tpk tx_validator own address = ground (arith, address)

  serve-panics :
      (ops : AcsOps Acs) (msg : Message) (m : Node C Acs Tx) (start hb : HoneyBadger Acs)
      → m.message_endpoint ≡ start
      → handle_message ops msg start ≡ panic hb
      → serve outside ops msg m ≡ panic (record m { message_endpoint = hb })
  unfolding serve
  serve-panics ops msg m start hb same panics =
      let here : handle_message ops msg m.message_endpoint ≡ panic hb =
        subst (λ x. handle_message ops msg x ≡ panic hb) (sym same) panics in
      rw (here, serve) refl

  -- Let the factory of a new node give an instance. Whatever targets the node connects to, a message
  -- from any address other than its own makes it panic.
  pub peer_message_panics :
      (conf : Config) (factory : MemberMap → ℕ → Option Acs) (tpk : Tpke) (tx_validator : Tx → Bool)
      (ops : AcsOps Acs) (targets : List String) (msg : Message) (own peer : Address)
      {n : Node C Acs Tx}
      → outside.to_address conf.identity.address ≡ some own
      → ((m : MemberMap) → (a : Acs) × (factory m 0 ≡ some a))
      → msg.sender ≡ some peer
      → peer ≢ own
      → new outside conf factory tpk tx_validator ≡ some n
      → (t : Node C Acs Tx) × (serve outside ops msg (final (connect_all outside targets n))
          ≡ panic t)
  unfolding endpoint_of
  peer_message_panics conf factory tpk tx_validator ops targets msg own peer {n} address makes sent
        other made =
      let known = add (new_member_with_address own) new_member_map in
      let (a, first) = makes known in
      let endpoint : n.message_endpoint ≡ Honeybadger.new known (factory known) tpk =
        some-injective _ _
          (ap endpoint_of (sym made) ∙ new-endpoint conf factory tpk tx_validator own address) in
      let (hb, panics) =
        new-panics ops msg known (factory known) tpk peer a first sent
          (own-unknown own peer other) in
      let m = final (connect_all outside targets n) in
      let same = connect_all-endpoint targets n ∙ endpoint in
      (record m { message_endpoint = hb }, serve-panics ops msg m _ hb same panics)
