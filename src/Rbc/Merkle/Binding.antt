-- ===== src/Rbc/Merkle/Binding.antt =====
-- rbc/merkletree/merkletree.go: what a root that `ValidatePath` accepts says of the shard.
use cleisthenes.Base.{
  ◌≡◌, ◌≢◌, ◌⊎◌, refl, sym, ap, ◌∙◌, subst, inl, inr, true, List, [], ◌∷◌, some, replicate, length,
  bytes_beq, bytes_beq_iff, Bool-cases, Option-cases, arith,
}
use mathlib.Core.List.{Memᴰ}
use mathlib.Core.Option.{some-injective}
use cleisthenes.Rbc.Merkle.{
  Bytes, Index, index_zero, index_one, index_other, Data, fill_leaf, walk, validate_path,
}
use cleisthenes.Rbc.Merkle.Buffer.{length-fill_leaf, fill_leaf-right, fill_leaf-left}

-- SHA-256 gives 32 bytes.
abbrev pub GivesThirtyTwo : (Bytes → Bytes) → Type 0
GivesThirtyTwo hash = (bytes : Bytes) → length (hash bytes) ≡ 32

-- The strings that the loop hashes.
abbrev pub hashed_by_walk : (Bytes → Bytes) → Bytes → Bytes → List Bytes → List Index → List Bytes
hashed_by_walk hash leaf branch [] indexes = []
hashed_by_walk hash leaf branch (p ∷ path) [] = []
hashed_by_walk hash leaf branch (p ∷ path) (index_zero ∷ indexes) =
    let x = fill_leaf leaf p branch in x ∷ hashed_by_walk hash x (hash x) path indexes
hashed_by_walk hash leaf branch (p ∷ path) (index_one ∷ indexes) =
    let x = fill_leaf leaf branch p in x ∷ hashed_by_walk hash x (hash x) path indexes
hashed_by_walk hash leaf branch (p ∷ path) (index_other _ _ ∷ indexes) =
    hashed_by_walk hash leaf branch path indexes

-- The strings that `ValidatePath` hashes.
abbrev pub hashed : (Bytes → Bytes) → Data → List Bytes → List Index → List Bytes
hashed hash d path indexes =
    d.content ∷ hashed_by_walk hash (replicate 64 0) (hash d.content) path indexes

-- A string of one list and a different one of another list that have one hash.
abbrev pub Collision : (Bytes → Bytes) → List Bytes → List Bytes → Type 0
Collision hash xs ys =
    (x : Bytes) × (y : Bytes) × Memᴰ x xs × Memᴰ y ys × (hash x ≡ hash y) × (x ≢ y)

module _ (hash : Bytes → Bytes) where
  same-or-Collision :
      (x y : Bytes) (xs ys : List Bytes)
      → hash x ≡ hash y
      → (x ≡ y) ⊎ Collision hash (x ∷ xs) (y ∷ ys)
  same-or-Collision x y xs ys e = elim (Bool-cases (bytes_beq x y)) [
    | inl same ↦ inl ((bytes_beq_iff x y).0 same)
    | inr differ ↦ inr (
      x,
      y,
      Memᴰ.head refl,
      Memᴰ.head refl,
      e,
      λ same. absurd (let yes = (bytes_beq_iff x y).1 same in ground arith),
    )
  ]

  Collision-tail :
      (x y : Bytes) (xs ys : List Bytes) → Collision hash xs ys → Collision hash (x ∷ xs) (y ∷ ys)
  Collision-tail x y xs ys (u, v, in_xs, in_ys, e, differ) =
      (u, v, Memᴰ.tail in_xs, Memᴰ.tail in_ys, e, differ)

  pub validate_path-walk :
      (d : Data) (root : Bytes) (path : List Bytes) (indexes : List Index)
      → validate_path hash d root path indexes ≡ some true
      → walk hash (replicate 64 0) (hash d.content) path indexes ≡ some root
  unfolding validate_path
  validate_path-walk d root path indexes ok =
      elim (Option-cases (walk hash (replicate 64 0) (hash d.content) path indexes)) [
        | inl out ↦ absurd (ground (arith, ok, out))
        | inr (branch, there) ↦ ground (arith, ok, there, bytes_beq_iff root branch)
      ]

  module _ (wide : GivesThirtyTwo hash) where
    walk-same :
        (leaf other branch branch' root : Bytes) (path path' : List Bytes) (indexes : List Index)
        → length leaf ≡ 64
        → length other ≡ 64
        → length branch ≡ 32
        → length branch' ≡ 32
        → length path ≡ length path'
        → walk hash leaf branch path indexes ≡ some root
        → walk hash other branch' path' indexes ≡ some root
        → (branch ≡ branch')
          ⊎ Collision hash
              (hashed_by_walk hash leaf branch path indexes)
              (hashed_by_walk hash other branch' path' indexes)
    unfolding walk
    walk-same leaf other branch branch' root [] [] indexes l l' b b' n w w' =
        inl (some-injective _ _ (w ∙ sym w'))
    walk-same leaf other branch branch' root [] (p ∷ path') indexes l l' b b' n w w' =
        absurd (omega (arith, n))
    walk-same leaf other branch branch' root (p ∷ path) [] indexes l l' b b' n w w' =
        absurd (omega (arith, n))
    walk-same leaf other branch branch' root (p ∷ path) (p' ∷ path') [] l l' b b' n w w' =
        absurd (ground (arith, w))
    walk-same leaf other branch branch' root (p ∷ path) (p' ∷ path') (index_zero ∷ indexes) l l' b
          b' n w w' =
        let x = fill_leaf leaf p branch in
        let y = fill_leaf other p' branch' in
        elim (walk-same x y (hash x) (hash y) root path path' indexes
          (length-fill_leaf leaf p branch l) (length-fill_leaf other p' branch' l') (wide x)
          (wide y) (omega (arith, n)) w w') [
            | inr found ↦ inr (Collision-tail x y _ _ found)
            | inl same ↦ elim (same-or-Collision x y _ _ same) [
              | inr found ↦ inr found
              | inl equal ↦ inl (fill_leaf-right leaf other p p' branch branch' l l' b b' equal)
            ]
          ]
    walk-same leaf other branch branch' root (p ∷ path) (p' ∷ path') (index_one ∷ indexes) l l' b b'
          n w w' =
        let x = fill_leaf leaf branch p in
        let y = fill_leaf other branch' p' in
        elim (walk-same x y (hash x) (hash y) root path path' indexes
          (length-fill_leaf leaf branch p l) (length-fill_leaf other branch' p' l') (wide x)
          (wide y) (omega (arith, n)) w w') [
            | inr found ↦ inr (Collision-tail x y _ _ found)
            | inl same ↦ elim (same-or-Collision x y _ _ same) [
              | inr found ↦ inr found
              | inl equal ↦ inl (fill_leaf-left leaf other p p' branch branch' l l' b b' equal)
            ]
          ]
    walk-same leaf other branch branch' root (p ∷ path) (p' ∷ path') (index_other s k ∷ indexes) l
          l' b b' n w w' =
        walk-same leaf other branch branch' root path path' indexes l l' b b' (omega (arith, n)) w
          w'

    -- Let the hash give 32 bytes. Two shards that `ValidatePath` accepts under one root, at the same place in trees of the same
    -- height, are equal, or the two checks hash different byte strings to one value. The paths may differ and
    -- may hold entries of any length.
    pub same_shard :
        (d d' : Data) (root : Bytes) (path path' : List Bytes) (indexes : List Index)
        → length path ≡ length path'
        → validate_path hash d root path indexes ≡ some true
        → validate_path hash d' root path' indexes ≡ some true
        → (d.content ≡ d'.content)
          ⊎ Collision hash (hashed hash d path indexes) (hashed hash d' path' indexes)
    same_shard d d' root path path' indexes n ok ok' =
        elim (walk-same (replicate 64 0) (replicate 64 0) (hash d.content) (hash d'.content) root
          path path' indexes refl refl (wide d.content) (wide d'.content) n
          (validate_path-walk d root path indexes ok)
          (validate_path-walk d' root path' indexes ok')) [
            | inr found ↦ inr (Collision-tail d.content d'.content _ _ found)
            | inl same ↦ same-or-Collision d.content d'.content _ _ same
          ]

  walk-preimage :
      (leaf branch root : Bytes) (path : List Bytes) (indexes : List Index)
      → length leaf ≡ 64
      → ((x : Bytes) × (length x ≡ 64) × (hash x ≡ branch))
      → walk hash leaf branch path indexes ≡ some root
      → (x : Bytes) × (length x ≡ 64) × (hash x ≡ root)
  unfolding walk
  walk-preimage leaf branch root [] indexes l (x, n, e) w = (x, n, e ∙ some-injective _ _ w)
  walk-preimage leaf branch root (p ∷ path) [] l known w = absurd (ground (arith, w))
  walk-preimage leaf branch root (p ∷ path) (index_zero ∷ indexes) l known w =
      let x = fill_leaf leaf p branch in
      let n = length-fill_leaf leaf p branch l in
      walk-preimage x (hash x) root path indexes n (x, n, refl) w
  walk-preimage leaf branch root (p ∷ path) (index_one ∷ indexes) l known w =
      let x = fill_leaf leaf branch p in
      let n = length-fill_leaf leaf branch p l in
      walk-preimage x (hash x) root path indexes n (x, n, refl) w
  walk-preimage leaf branch root (p ∷ path) (index_other s k ∷ indexes) l known w =
      walk-preimage leaf branch root path indexes l known w

  first_step :
      (leaf branch root p : Bytes) (path : List Bytes) (i : Index) (indexes : List Index)
      → length leaf ≡ 64
      → ((i ≡ index_zero) ⊎ (i ≡ index_one))
      → walk hash leaf branch (p ∷ path) (i ∷ indexes) ≡ some root
      → (x : Bytes) × (length x ≡ 64) × (hash x ≡ root)
  unfolding walk
  first_step leaf branch root p path i indexes l (inl zero_bit) w =
      let x = fill_leaf leaf p branch in
      let n = length-fill_leaf leaf p branch l in
      walk-preimage x (hash x) root path indexes n (x, n, refl)
        (subst (λ j. walk hash leaf branch (p ∷ path) (j ∷ indexes) ≡ some root) zero_bit w)
  first_step leaf branch root p path i indexes l (inr one_bit) w =
      let x = fill_leaf leaf branch p in
      let n = length-fill_leaf leaf branch p l in
      walk-preimage x (hash x) root path indexes n (x, n, refl)
        (subst (λ j. walk hash leaf branch (p ∷ path) (j ∷ indexes) ≡ some root) one_bit w)

  -- From a shard that `ValidatePath` accepts, with a path that is not empty and whose first index is 0
  -- or 1, one gets 64 bytes that it accepts as a shard under the same root, with an empty path and
  -- any list of indexes, and so at any place.
  pub forged_shard :
      (d : Data) (root p : Bytes) (path : List Bytes) (i : Index) (indexes : List Index)
      → ((i ≡ index_zero) ⊎ (i ≡ index_one))
      → validate_path hash d root (p ∷ path) (i ∷ indexes) ≡ some true
      → (forged : Data) × (length forged.content ≡ 64)
        × ((any : List Index) → validate_path hash forged root [] any ≡ some true)
  unfolding validate_path walk
  forged_shard d root p path i indexes bit ok =
      let (x, n, e) =
        first_step (replicate 64 0) (hash d.content) root p path i indexes refl bit
          (validate_path-walk d root (p ∷ path) (i ∷ indexes) ok) in
      (record { content = x }, n, λ any. ap some ((bytes_beq_iff root (hash x)).1 (sym e)))
