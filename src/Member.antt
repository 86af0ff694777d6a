-- ===== src/Member.antt =====
-- member_map.go: addresses, members and the map of members. The locks are left out, and
-- `Address.String`, which formats by the standard library, is a parameter where it is called.
use text.Mathlib.Text.{◌==◌ as str_eq}
use text.Mathlib.TextEquality.{eq_iff}
use cleisthenes.Base.{
  ℕ, String, Bool, true, ◌&&◌, ◌==◌, ◌≡◌, ◌↔◌, Eq, arith, Option, none, some, ◌%◌, ◌^◌, List, GoMap,
  values, lookup, insert, delete,
}
use cleisthenes.Base.Go.{Go, done, panic}

pub record Address : Type 0 where
  pub ip : String
  pub port : ℕ  -- uint16

-- `ToAddress`, given `net.SplitHostPort` and `strconv.ParseUint` with base 10 and 16 bits
unfoldable pub to_address :
    (String → Option (String × String)) → (String → Option ℕ) → String → Option Address
to_address split_host_port parse_uint addr_str = elim (split_host_port addr_str) [
  | none ↦ none
  | some (host, port) ↦ elim (parse_uint port) [
    | none ↦ none
    | some number ↦ some (record { ip = host; port = number % 2 ^ 16 })
  ]
]

pub record Member : Type 0 where
  pub address : Address

abbrev pub address_beq : Address → Address → Bool
address_beq a b = str_eq a.ip b.ip && a.port == b.port

pub address_beq_iff : (a b : Address) → (address_beq a b ≡ true) ↔ (a ≡ b)
address_beq_iff a b = ground (arith, eq_iff a.ip b.ip)

instance abbrev pub address_eq : Eq Address
address_eq = record { beq = address_beq; beq_iff = address_beq_iff }

abbrev pub member_beq : Member → Member → Bool
member_beq a b = address_beq a.address b.address

pub member_beq_iff : (a b : Member) → (member_beq a b ≡ true) ↔ (a ≡ b)
member_beq_iff a b = ground (arith, address_beq_iff a.address b.address)

instance abbrev pub member_eq : Eq Member
member_eq = record { beq = member_beq; beq_iff = member_beq_iff }

-- `NewMember`
unfoldable pub new_member : String → ℕ → Member
new_member host port = record { address = record { ip = host; port = port } }

-- `NewMemberWithAddress`
unfoldable pub new_member_with_address : Address → Member
new_member_with_address addr = record { address = addr }

abbrev pub MemberMap : Type 0
MemberMap = GoMap Address Member

-- `NewMemberMap`
unfoldable pub new_member_map : MemberMap
new_member_map = List.[]

-- `Members`
unfoldable pub members : MemberMap → List Member
members m = values m

-- `Member`: the pointer that the map returns is dereferenced before the caller sees `ok`, so a
-- missing address is a nil dereference.
unfoldable pub member : {E : Type 0} → Address → Go E MemberMap (Member × Bool)
member addr m = elim (lookup addr m) [ none ↦ panic m | some found ↦ done (found, true) m ]

-- `Add`
unfoldable pub add : Member → MemberMap → MemberMap
add new m = insert new.address new m

-- `Del`
unfoldable pub del : Address → MemberMap → MemberMap
del addr m = delete addr m
