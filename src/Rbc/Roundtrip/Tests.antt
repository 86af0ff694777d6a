-- ===== src/Rbc/Roundtrip/Tests.antt =====
-- rbc/rbc.go: a value cut into two shards over a tree of two leaves. The code has one data shard and
-- a parity shard that is the data behind a byte.
use mathlib.Core.List.{Memᴰ}
use mathlib.Core.Option.{some-injective}
use cleisthenes.Base.{
  ℕ, ◌≤◌, ◌≡◌, inl, inr, refl, sym, ap, ◌∙◌, subst, true, Option, none, some, List, [], ◌∷◌, ◌++◌,
  length, get_elem?, take, replicate, count_if, bytes_beq, bytes_beq_iff, Bool-cases, if◌then◌else◌,
  All, arith,
}
use cleisthenes.Rbc.Merkle.{Bytes, Index, index_zero, index_one, Data, order_of_data, order_from}
use cleisthenes.Rbc.Merkle.Tree.{leaf, node, root_of, place_at}
use cleisthenes.Rbc.State.{ValRequest, ok}
use cleisthenes.Rbc.Decode.{Env, decode, join}
use cleisthenes.Rbc.Input.{wrap, requests_for, shard, make_request}
use cleisthenes.Rbc.Shards.{present, Agrees}
use cleisthenes.Rbc.Roundtrip.{Codes, Paths, EchoAt, decode-make_request}

abbrev hash : Bytes → Bytes
hash bytes = take 32 (bytes ++ replicate 32 0)

abbrev split : Bytes → Option (List Bytes)
split [] = none
split (b ∷ bytes) = some ((b ∷ bytes) ∷ [])

abbrev encode : List Bytes → Option (List Bytes)
encode (piece ∷ []) = some (piece ∷ (1 ∷ piece) ∷ [])
encode _ = none

abbrev reconstruct : List Bytes → Option (List Bytes)
reconstruct ([] ∷ (b ∷ piece) ∷ []) = some (piece ∷ (b ∷ piece) ∷ [])
reconstruct ((b ∷ piece) ∷ _ ∷ []) = some ((b ∷ piece) ∷ (1 ∷ b ∷ piece) ∷ [])
reconstruct _ = none

abbrev path_in : Data → Data → Data → Option (List Bytes × List Index)
path_in x y d =
    if bytes_beq d.content x.content
    then some (hash y.content ∷ [], index_one ∷ [])
    else if bytes_beq d.content y.content
    then some (hash x.content ∷ [], index_zero ∷ [])
    else none

abbrev tree : List Data → Option (Bytes × (Data → Option (List Bytes × List Index)))
tree (x ∷ y ∷ []) = some (hash (hash x.content ++ hash y.content), path_in x y)
tree _ = none

abbrev env : Env
env = record {
  hash = hash;
  split = split;
  encode = encode;
  reconstruct = reconstruct;
  tree = tree;
  marshal = λ req. none;
  unmarshal_val = λ payload. none;
  unmarshal_echo = λ payload. none;
  unmarshal_ready = λ payload. none;
  spare = λ bytes. 7 ∷ [];
}

-- What is cut, and into what.
record Cut (bytes : Bytes) (shards : List Bytes) : Type 0 where
  pub head : ℕ
  pub rest : Bytes
  pub value : bytes ≡ head ∷ rest
  pub coded : shards ≡ (head ∷ rest) ∷ (1 ∷ head ∷ rest) ∷ []

cut :
    (bytes : Bytes) (pieces shards : List Bytes)
    → split bytes ≡ some pieces
    → encode pieces ≡ some shards
    → Cut bytes shards
cut [] pieces shards e e' = absurd (ground (arith, e))
cut (b ∷ bytes) pieces shards e e' = record {
  head = b;
  rest = bytes;
  value = refl;
  coded = sym (some-injective _ _ (ap encode (some-injective _ _ e) ∙ e'));
}

repair :
    (b : ℕ) (bytes : Bytes) (got : List Bytes)
    → Agrees got ((b ∷ bytes) ∷ (1 ∷ b ∷ bytes) ∷ [])
    → 1 ≤ count_if present got
    → reconstruct got ≡ some ((b ∷ bytes) ∷ (1 ∷ b ∷ bytes) ∷ [])
repair b bytes [] agrees enough = elim agrees [ ]
repair b bytes (x ∷ []) agrees enough = elim agrees.1 [ ]
repair b bytes (x ∷ y ∷ z ∷ got) agrees enough = elim agrees.1.1 [ ]
repair b bytes ([] ∷ [] ∷ []) agrees enough = absurd (omega (arith, enough))
repair b bytes ([] ∷ (c ∷ piece) ∷ []) agrees enough = elim agrees.1.0 [
  | inl bad ↦ absurd (ground (arith, bad))
  | inr e ↦ ap (λ y. reconstruct ([] ∷ y ∷ [])) e
]
repair b bytes ((c ∷ piece) ∷ y ∷ []) agrees enough = elim agrees.0 [
  | inl bad ↦ absurd (ground (arith, bad))
  | inr e ↦ ap (λ x. reconstruct (x ∷ y ∷ [])) e
]

codes : Codes env 1 1
unfolding join
codes = record {
  count = λ bytes pieces shards e e'. let c = cut bytes pieces shards e e' in ap length c.coded;
  full = λ bytes pieces shards e e'.
      let c = cut bytes pieces shards e e' in
      subst (All (λ s. present s ≡ true)) (sym c.coded) (refl, (refl, tt));
  padded = λ bytes pieces shards e e'.
      let c = cut bytes pieces shards e e' in
      ([], ap (λ s. join (take 1 s)) c.coded ∙ ap (λ b. b ++ []) (sym c.value));
  repairs = λ bytes pieces shards got e e' agrees enough.
      let c = cut bytes pieces shards e e' in
      subst (λ s. reconstruct got ≡ some s) (sym c.coded)
        (repair c.head c.rest got (subst (Agrees got) c.coded agrees) enough);
}

paths_in :
    (x y d : Data) (p : List Bytes × List Index)
    → path_in x y d ≡ some p
    → get_elem? (x ∷ y ∷ []) (order_of_data p.1) ≡ some d
unfolding order_of_data order_from
paths_in x y d p e = elim (Bool-cases (bytes_beq d.content x.content)) [
  | inl same ↦
      let is : (hash y.content ∷ [], index_one ∷ []) ≡ p = ground (arith, same, e) in
      ap (λ q. get_elem? (x ∷ y ∷ []) (order_of_data q.1)) (sym is)
      ∙ ap some
          (ap (λ c. record { content = c }) (sym ((bytes_beq_iff d.content x.content).0 same)))
  | inr other ↦ elim (Bool-cases (bytes_beq d.content y.content)) [
    | inl same ↦
        let is : (hash x.content ∷ [], index_zero ∷ []) ≡ p = ground (arith, other, same, e) in
        ap (λ q. get_elem? (x ∷ y ∷ []) (order_of_data q.1)) (sym is)
        ∙ ap some
            (ap (λ c. record { content = c }) (sym ((bytes_beq_iff d.content y.content).0 same)))
    | inr none_of ↦ absurd (ground (arith, other, none_of, e))
  ]
]

paths : Paths env
paths [] root path d p e inside found = absurd (ground (arith, e))
paths (x ∷ []) root path d p e inside found = absurd (ground (arith, e))
paths (x ∷ y ∷ z ∷ shards) root path d p e inside found = absurd (ground (arith, e))
paths (x ∷ y ∷ []) root path d p e inside found =
    let made = some-injective _ _ e in paths_in x y d p (ap (λ t. t.1 d) made ∙ found)

abbrev value : Bytes
value = 42 ∷ 43 ∷ []

abbrev left : Data
left = record { content = value }

abbrev right : Data
right = record { content = 1 ∷ value }

abbrev root : Bytes
root = root_of hash (node (leaf left) (leaf right))

abbrev request : ℕ → ValRequest
request i =
    let p = place_at hash (node (leaf left) (leaf right)) i in
    record { root_hash = root; shard = p.shard; root_path = p.path; indexes = p.indexes }

-- An ECHO of another broadcast
abbrev foreign : ValRequest
foreign = record { root_hash = []; shard = left; root_path = []; indexes = [] }

order_second : order_of_data (request 1).indexes ≡ 1
unfolding order_of_data order_from
order_second = refl

second : (i : ℕ) → i ≡ 1 → EchoAt root (foreign ∷ request 1 ∷ []) i
second i e = record {
  echo = request 1;
  inside = Memᴰ.tail (Memᴰ.head refl);
  under = refl;
  there = order_second ∙ sym e;
}

decode-make_request_example : decode env root (foreign ∷ request 1 ∷ []) 1 1 2 ≡ some (ok value)
decode-make_request_example =
    decode-make_request env 1 1 codes paths value (left ∷ right ∷ []) (request 0 ∷ request 1 ∷ [])
      root (foreign ∷ request 1 ∷ []) (1 ∷ []) (unfold shard wrap in refl)
      (unfold make_request requests_for in refl)
      (λ e. absurd (ground (arith, e)), (λ _. Memᴰ.tail (Memᴰ.head refl), tt)) (ground arith)
      (λ i inside. second i (ground (arith, inside))) (ground arith)
