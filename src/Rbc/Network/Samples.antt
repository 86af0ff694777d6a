-- ===== src/Rbc/Network/Samples.antt =====
-- rbc/: four nodes whose JSON, hash and erasure code are simple functions, and the messages of a
-- faulty proposer that commits to shards which are no code word.
use mathlib.Core.Option.{some-injective}
use cleisthenes.Base.{
  ℕ, ◌-◌, ◌≡◌, refl, Option, none, some, List, [], ◌∷◌, ◌++◌, ◌==◌, if◌then◌else◌, take, drop,
  length, inl, inr, Option-cases, take-append, drop-append, subst, arith,
}
use cleisthenes.Member.{Address, Member, address_eq}
use cleisthenes.Rbc.Merkle.{Bytes, Index, index_zero, index_one, index_other}
use cleisthenes.Rbc.State.{
  ValRequest, Request, val, echo, ready, other, RbcType, val_type, echo_type, ready_type,
}
use cleisthenes.Rbc.Decode.{Env}
use cleisthenes.Rbc.Run.{Event, message}
use cleisthenes.Rbc.Samples.{node}
use cleisthenes.Rbc.Network.Votes.{EchoTrips}

abbrev index_of : ℕ → Index
index_of bit = if bit == 0 then index_zero else index_one

abbrev bit_of : Index → Option ℕ
bit_of index_zero = some 0
bit_of index_one = some 1
bit_of (index_other _ _) = none

-- The place of one of four shards, as two bits
abbrev bits_of : List Index → Option (ℕ × ℕ)
bits_of (i ∷ j ∷ []) = elim (bit_of i) [
  | none ↦ none
  | some b ↦ elim (bit_of j) [ none ↦ none | some c ↦ some (b, c) ]
]
bits_of _ = none

abbrev pack : ValRequest → Option Bytes
pack req = elim (bits_of req.indexes) [
  | none ↦ none
  | some (b, c) ↦ elim req.root_path [
    | [] ↦ some (b ∷ c ∷ length req.root_hash ∷ req.root_hash ++ req.shard.content)
    | ◌∷◌ _ _ ↦ none
  ]
]

abbrev unpack : Bytes → Option ValRequest
unpack (b ∷ c ∷ size ∷ rest) = some (record {
  root_hash = take size rest;
  shard = record { content = drop size rest };
  root_path = [];
  indexes = index_of b ∷ index_of c ∷ [];
})
unpack _ = none

abbrev marshal : Request → Option Bytes
marshal (val req) = pack req
marshal (echo req) = pack req
marshal (ready hash) = some hash
marshal other = none

-- The first byte is found from the second and the sum.
abbrev reconstruct : List Bytes → Option (List Bytes)
reconstruct ([] ∷ (y ∷ []) ∷ (z ∷ []) ∷ rest) = some (((z - y) ∷ []) ∷ (y ∷ []) ∷ (z ∷ []) ∷ rest)
reconstruct shards = some shards

abbrev pub env : Env
env = record {
  hash = λ bytes. 7 ∷ [];
  split = λ bytes. none;
  encode = λ shards. some shards;
  reconstruct = reconstruct;
  tree = λ shards. none;
  marshal = marshal;
  unmarshal_val = unpack;
  unmarshal_echo = unpack;
  unmarshal_ready = λ payload. some payload;
  spare = λ bytes. [];
}

bit_of-index_of : (i : Index) (b : ℕ) → bit_of i ≡ some b → index_of b ≡ i
bit_of-index_of index_zero b e = ground (arith, e)
bit_of-index_of index_one b e = ground (arith, e)
bit_of-index_of (index_other negative k) b e = absurd (ground (arith, e))

bits_of-indexes :
    (is : List Index) (b c : ℕ) → bits_of is ≡ some (b, c) → index_of b ∷ index_of c ∷ [] ≡ is
bits_of-indexes [] b c e = absurd (ground (arith, e))
bits_of-indexes (i ∷ []) b c e = absurd (ground (arith, e))
bits_of-indexes (i ∷ j ∷ []) b c e = ground (arith, e, bit_of-index_of i b, bit_of-index_of j c)
bits_of-indexes (i ∷ j ∷ k ∷ is) b c e = absurd (ground (arith, e))

abbrev request : Bytes → List Bytes → List Index → Bytes → ValRequest
request root path indexes content = record {
  root_hash = root;
  shard = record { content = content };
  root_path = path;
  indexes = indexes;
}

unpack-pack :
    (root : Bytes) (path : List Bytes) (indexes : List Index) (content p : Bytes)
    → pack (request root path indexes content) ≡ some p
    → unpack p ≡ some (request root path indexes content)
unpack-pack root (h ∷ path) indexes content p e = elim (Option-cases (bits_of indexes)) [
  | inl bad ↦ absurd (ground (arith, e, bad))
  | inr ((b, c), good) ↦ absurd (ground (arith, e, good))
]
unpack-pack root [] indexes content p e = elim (Option-cases (bits_of indexes)) [
  | inl bad ↦ absurd (ground (arith, e, bad))
  | inr ((b, c), good) ↦
      let packed : some (b ∷ c ∷ length root ∷ root ++ content) ≡ some p =
        ground (arith, e, good) in
      subst (λ q. unpack q ≡ some (request root [] indexes content)) (some-injective _ _ packed)
        (rw (take-append root content, drop-append root content, bits_of-indexes indexes b c good)
          refl)
]

pub env-EchoTrips : EchoTrips env
env-EchoTrips req p e = unpack-pack req.root_hash req.root_path req.indexes req.shard.content p e

abbrev pub says : RbcType → ℕ → ℕ → Bytes → (Address × Event)
says type to sender payload = (
  (node to).address,
  message (node sender) (record { payload = payload; content_length = 2; type = type }),
)

abbrev pub shard : ℕ → Bytes
shard order =
    if order == 0
    then 1 ∷ 1 ∷ 1 ∷ 7 ∷ 10 ∷ []
    else if order == 1
    then 0 ∷ 1 ∷ 1 ∷ 7 ∷ 20 ∷ []
    else if order == 2
    then 1 ∷ 0 ∷ 1 ∷ 7 ∷ 99 ∷ []
    else 0 ∷ 0 ∷ 1 ∷ 7 ∷ 1 ∷ []

-- Node 3 proposes: 10 and 20, with 99 in place of their sum.
abbrev pub split : List (Address × Event)
split =
    says val_type 0 3 (shard 0)
    ∷ says val_type 1 3 (shard 1)
    ∷ says val_type 2 3 (shard 2)
    ∷ says echo_type 0 1 (shard 1)
    ∷ says echo_type 0 2 (shard 2)
    ∷ says echo_type 1 2 (shard 2)
    ∷ says echo_type 1 3 (shard 3)
    ∷ says ready_type 0 1 (7 ∷ [])
    ∷ says ready_type 0 3 (7 ∷ [])
    ∷ says ready_type 1 0 (7 ∷ [])
    ∷ says ready_type 1 3 (7 ∷ [])
    ∷ []

abbrev pub correct : List Member
correct = node 0 ∷ node 1 ∷ node 2 ∷ []
