-- ===== src/Core/Connecting.antt =====
-- core/core.go: what `ConnectAll` connects.
use cleisthenes.Base.{String, ◌≡◌, refl, Option, none, some, List, [], ◌∷◌, ◌++◌, arith}
use cleisthenes.Base.Go.{done, fail}
use cleisthenes.Member.{Address, MemberMap, new_member_with_address}
use cleisthenes.Member
use cleisthenes.Connection.Pool
use cleisthenes.Core.{
  Error, bad_target, dial_failed, Outside, Node, connect_address, connect, connect_all,
}

module _ {C : Type 0} (outside : Outside C) where
  -- A target with its address and the connection that dialling it gives
  pub record Reached : Type 0 where
    pub target : String
    pub addr : Address
    pub conn : C
    pub parsed : outside.to_address target ≡ some addr
    pub dialled : outside.dial addr ≡ some conn

  abbrev pub targets_of : List Reached → List String
  targets_of [] = []
  targets_of (r ∷ rs) = r.target ∷ targets_of rs

  -- The error of a target that cannot be connected to
  abbrev pub failure : String → Option Error
  failure target = elim (outside.to_address target) [
    | none ↦ some bad_target
    | some addr ↦ elim (outside.dial addr) [ none ↦ some dial_failed | some _ ↦ none ]
  ]

module _ {C Acs Tx : Type 0} (outside : Outside C) where
  -- The node with the connections and the members, later ones in place of earlier ones.
  abbrev pub joined : List (Reached outside) → Node C Acs Tx → Node C Acs Tx
  joined [] n = n
  joined (r ∷ rs) n = joined rs (record n {
    conn_pool = Pool.add r.addr r.conn n.conn_pool;
    member_map = Member.add (new_member_with_address r.addr) n.member_map;
  })

  connect-fails :
      (target : String) (n : Node C Acs Tx) (e : Error)
      → failure outside target ≡ some e
      → connect outside target n ≡ fail e n
  unfolding connect connect_address
  connect-fails target n e bad = ground arith

  abbrev one : Reached outside → Node C Acs Tx → Node C Acs Tx
  one r n = record n {
    conn_pool = Pool.add r.addr r.conn n.conn_pool;
    member_map = Member.add (new_member_with_address r.addr) n.member_map;
  }

  connect-reaches :
      (r : Reached outside) (n : Node C Acs Tx) → connect outside r.target n ≡ done tt (one r n)
  unfolding connect connect_address
  connect-reaches r n = ground (arith, r.parsed, r.dialled)

  connect_all-reaches :
      (reached : List (Reached outside)) (n : Node C Acs Tx)
      → connect_all outside (targets_of outside reached) n ≡ done tt (joined reached n)
  unfolding connect_all
  connect_all-reaches [] n = refl
  connect_all-reaches (r ∷ rs) n =
      rw (connect-reaches r n, connect_all) (connect_all-reaches rs (one r n))

  connect_all-stops :
      (reached : List (Reached outside)) (n : Node C Acs Tx) (target : String) (rest : List String)
      (e : Error)
      → failure outside target ≡ some e
      → connect_all outside (targets_of outside reached ++ target ∷ rest) n
        ≡ fail e (joined reached n)
  unfolding connect_all
  connect_all-stops [] n target rest e bad = rw (connect-fails target n e bad, connect_all) refl
  connect_all-stops (r ∷ rs) n target rest e bad =
      rw (connect-reaches r n, connect_all) (connect_all-stops rs (one r n) target rest e bad)

  -- `ConnectAll` connects to the targets in order, up to the first that cannot be parsed or dialled:
  -- the node keeps the connections made before it, the error is that target's, and the targets
  -- after it are not tried. Without that target all are connected.
  pub connect_all-prefix :
      (reached : List (Reached outside)) (n : Node C Acs Tx) (target : String) (rest : List String)
      (e : Error)
      → failure outside target ≡ some e
      → (connect_all outside (targets_of outside reached ++ target ∷ rest) n
          ≡ fail e (joined reached n))
        × (connect_all outside (targets_of outside reached) n ≡ done tt (joined reached n))
  connect_all-prefix reached n target rest e bad =
      (connect_all-stops reached n target rest e bad, connect_all-reaches reached n)
