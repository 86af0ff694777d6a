-- ===== src/Rbc/Merkle/Tree.antt =====
-- rbc/merkletree/merkletree.go: `ValidatePath` and `OrderOfData` against Merkle trees as they are
-- defined: a leaf is hashed, and an inner node is the hash of its children's hashes one after the
-- other. The path of a leaf is the list of the siblings on its way to the root, with the index 1 for
-- a sibling on the right and 0 for one on the left.
use cleisthenes.Base.{
  ℕ, zero, suc, ◌+◌, ◌/◌, ◌^◌, ◌<◌, ◌≤◌, ◌-◌, ◌≡◌, append_assoc, append-nil, refl, sym, ap, ◌∙◌,
  true, List, [], ◌∷◌, ◌++◌, some, replicate, length, bytes_beq_iff, length-append, arith,
  if◌then◌else◌, if_rule, ltb,
}
use native.Mathlib.Omega.{pow_step}
use cleisthenes.Rbc.Merkle.{
  Bytes, Index, index_zero, index_one, index_other, Data, fill_leaf, walk, validate_path,
  order_from, order_of_data,
}
use cleisthenes.Rbc.Merkle.Buffer.{length-fill_leaf, fill_leaf-append}
use cleisthenes.Rbc.Merkle.Binding.{GivesThirtyTwo}

-- A tree of the height with all its leaves at the bottom.
pub data Tree : ℕ → Type 0 where
  leaf : Data → Tree zero
  node : {k : ℕ} → Tree k → Tree k → Tree (suc k)

module _ (hash : Bytes → Bytes) where
  abbrev pub root_of : {k : ℕ} → Tree k → Bytes
  root_of (leaf d) = hash d.content
  root_of (node l r) = hash (root_of l ++ root_of r)

  -- A leaf with its way to the root
  pub record Place : Type 0 where
    pub shard : Data
    pub path : List Bytes
    pub indexes : List Index

  abbrev on_left : Bytes → Place → Place
  on_left sibling p = record p {
    path = p.path ++ sibling ∷ [];
    indexes = p.indexes ++ index_one ∷ [];
  }

  abbrev on_right : Bytes → Place → Place
  on_right sibling p = record p {
    path = p.path ++ sibling ∷ [];
    indexes = p.indexes ++ index_zero ∷ [];
  }

  -- The leaf at a number, counted from the left; a number outside the tree counts as the last one.
  abbrev pub place_at : {k : ℕ} → Tree k → ℕ → Place
  place_at (leaf d) i = record { shard = d; path = []; indexes = [] }
  place_at (node {k} l r) i =
      let left = on_left (root_of r) (place_at l i) in
      let right = on_right (root_of l) (place_at r (i - 2 ^ k)) in
      if ltb i (2 ^ k) then left else right

order_from-right : (j : ℕ) (is : List Index) → order_from j (is ++ index_one ∷ []) ≡ order_from j is
unfolding order_from
order_from-right j [] = refl
order_from-right j (index_zero ∷ is) = ground (arith, order_from-right (suc j) is)
order_from-right j (index_one ∷ is) = order_from-right (suc j) is
order_from-right j (index_other s k ∷ is) = order_from-right (suc j) is

half_power : (k : ℕ) → 2 ^ (k + 1) / 2 ≡ 2 ^ k
half_power k =
    let next : k + 1 ≡ suc k = omega arith in ap (λ m. 2 ^ m / 2) next ∙ omega (arith, pow_step 2 k)

order_from-left :
    (j m : ℕ) (is : List Index)
    → j + length is ≡ m
    → order_from j (is ++ index_zero ∷ []) ≡ order_from j is + 2 ^ m
unfolding order_from
order_from-left j m [] e =
    let same : j ≡ m = omega (arith, e) in omega (arith, half_power j, ap (λ i. 2 ^ i) same)
order_from-left j m (index_zero ∷ is) e = ground (arith, order_from-left (suc j) m is, e)
order_from-left j m (index_one ∷ is) e = order_from-left (suc j) m is (omega (arith, e))
order_from-left j m (index_other s k ∷ is) e = order_from-left (suc j) m is (omega (arith, e))

module _ (hash : Bytes → Bytes) where
  abbrev Ordered : ℕ → ℕ → Place hash → Type 0
  Ordered k i p = (length p.indexes ≡ k) × (order_of_data p.indexes ≡ i)

  place_at-Ordered : {k : ℕ} (t : Tree k) (i : ℕ) → i < 2 ^ k → Ordered k i (place_at hash t i)
  unfolding order_of_data order_from
  place_at-Ordered (leaf d) i lt = (refl, ground (arith, lt))
  place_at-Ordered (node {k} l r) i lt =
      if_rule (Ordered (suc k) i) (ltb i (2 ^ k))
        (λ below.
          let (size, order) = place_at-Ordered l i (ground (arith, below)) in
          (
            omega (arith, length-append (place_at hash l i).indexes (index_one ∷ []), size),
            order_from-right 0 (place_at hash l i).indexes ∙ order,
          ))
        (λ above.
          let j = i - 2 ^ k in
          let past : 2 ^ k ≤ i = ground (arith, above) in
          let (size, order) = place_at-Ordered r j (omega (arith, lt, past, pow_step 2 k)) in
          let more = order_from-left 0 k (place_at hash r j).indexes (omega (arith, size)) in
          (
            omega (arith, length-append (place_at hash r j).indexes (index_zero ∷ []), size),
            omega (arith, more, order, past),
          ))

  module _ (wide : GivesThirtyTwo hash) where
    length-root_of : {k : ℕ} (t : Tree k) → length (root_of hash t) ≡ 32
    length-root_of (leaf d) = wide d.content
    length-root_of (node l r) = wide (root_of hash l ++ root_of hash r)

    -- The loop comes from the leaf to the root, and goes on from there with any buffer of 64 bytes.
    abbrev Climbs : Bytes → Place hash → Type 0
    Climbs root p =
        (buffer : Bytes)
        → length buffer ≡ 64
        → (after : Bytes) × (length after ≡ 64)
          × ((path : List Bytes) (indexes : List Index)
              → walk hash buffer (hash p.shard.content) (p.path ++ path) (p.indexes ++ indexes)
                ≡ walk hash after root path indexes)

    climb_left :
        (root sibling : Bytes) (p : Place hash)
        → length root ≡ 32
        → length sibling ≡ 32
        → Climbs root p
        → Climbs (hash (root ++ sibling)) (on_left hash sibling p)
    unfolding walk
    climb_left root sibling p n m climbs buffer size =
        let (after, wide_after, goes_on) = climbs buffer size in
        let node_buffer = fill_leaf after root sibling in
        let full : node_buffer ≡ root ++ sibling =
          fill_leaf-append after root sibling wide_after n m in
        (
          node_buffer,
          length-fill_leaf after root sibling wide_after,
          λ path indexes.
              ap
                (λ q.
                  walk hash buffer (hash p.shard.content) q
                    ((p.indexes ++ index_one ∷ []) ++ indexes))
                (append_assoc p.path (sibling ∷ []) path)
              ∙ ap (walk hash buffer (hash p.shard.content) (p.path ++ sibling ∷ path))
                  (append_assoc p.indexes (index_one ∷ []) indexes)
              ∙ goes_on (sibling ∷ path) (index_one ∷ indexes)
              ∙ ap (λ x. walk hash node_buffer (hash x) path indexes) full,
        )

    climb_right :
        (root sibling : Bytes) (p : Place hash)
        → length root ≡ 32
        → length sibling ≡ 32
        → Climbs root p
        → Climbs (hash (sibling ++ root)) (on_right hash sibling p)
    unfolding walk
    climb_right root sibling p n m climbs buffer size =
        let (after, wide_after, goes_on) = climbs buffer size in
        let node_buffer = fill_leaf after sibling root in
        let full : node_buffer ≡ sibling ++ root =
          fill_leaf-append after sibling root wide_after m n in
        (
          node_buffer,
          length-fill_leaf after sibling root wide_after,
          λ path indexes.
              ap
                (λ q.
                  walk hash buffer (hash p.shard.content) q
                    ((p.indexes ++ index_zero ∷ []) ++ indexes))
                (append_assoc p.path (sibling ∷ []) path)
              ∙ ap (walk hash buffer (hash p.shard.content) (p.path ++ sibling ∷ path))
                  (append_assoc p.indexes (index_zero ∷ []) indexes)
              ∙ goes_on (sibling ∷ path) (index_zero ∷ indexes)
              ∙ ap (λ x. walk hash node_buffer (hash x) path indexes) full,
        )

    place_at-Climbs : {k : ℕ} (t : Tree k) (i : ℕ) → Climbs (root_of hash t) (place_at hash t i)
    place_at-Climbs (leaf d) i = λ buffer size. (buffer, size, λ path indexes. refl)
    place_at-Climbs (node {k} l r) i =
        if_rule (Climbs (root_of hash (node l r))) (ltb i (2 ^ k))
          (λ _.
            climb_left (root_of hash l) (root_of hash r) (place_at hash l i) (length-root_of l)
              (length-root_of r) (place_at-Climbs l i))
          (λ _.
            climb_right (root_of hash r) (root_of hash l) (place_at hash r (i - 2 ^ k))
              (length-root_of r) (length-root_of l) (place_at-Climbs r (i - 2 ^ k)))

    -- Let the hash give 32 bytes. In a tree of 2 ^ k leaves, `ValidatePath` accepts the i-th leaf with
    -- its path and indexes under the root of the tree, and `OrderOfData` gives i.
    pub validate_path-tree :
        {k : ℕ} (t : Tree k) (i : ℕ)
        → i < 2 ^ k
        → (validate_path hash
              (place_at hash t i).shard
              (root_of hash t)
              (place_at hash t i).path
              (place_at hash t i).indexes
            ≡ some true)
          × (order_of_data (place_at hash t i).indexes ≡ i)
    unfolding validate_path walk
    validate_path-tree t i lt =
        let p = place_at hash t i in
        let (after, wide_after, goes_on) = place_at-Climbs t i (replicate 64 0) refl in
        let reached : walk hash (replicate 64 0) (hash p.shard.content) p.path p.indexes
            ≡ some (root_of hash t) =
          ap (walk hash (replicate 64 0) (hash p.shard.content) p.path) (sym (append-nil p.indexes))
          ∙ ap (λ q. walk hash (replicate 64 0) (hash p.shard.content) q (p.indexes ++ []))
              (sym (append-nil p.path))
          ∙ goes_on [] [] in
        (
          rw (reached, validate_path)
              (ap some ((bytes_beq_iff (root_of hash t) (root_of hash t)).1 refl)),
          (place_at-Ordered t i lt).1,
        )
