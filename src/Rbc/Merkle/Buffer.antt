-- ===== src/Rbc/Merkle/Buffer.antt =====
-- rbc/merkletree/merkletree.go: the buffer of `ValidatePath`, which is 64 bytes long all the time.
use cleisthenes.Base.{
  ℕ, zero, suc, ◌-◌, ◌≡◌, refl, sym, ap, ◌∙◌, [], ◌∷◌, ◌++◌, take, drop, length, length-take,
  length-append, arith,
}
use cleisthenes.Rbc.Merkle.{Bytes, copy, fill_leaf}

length-copy : (dst src : Bytes) → length (copy dst src) ≡ length dst
length-copy [] src = refl
length-copy (d ∷ dst) [] = refl
length-copy (d ∷ dst) (b ∷ src) = ap suc (length-copy dst src)

copy_full : (dst src : Bytes) → length dst ≡ length src → copy dst src ≡ src
copy_full [] [] e = refl
copy_full [] (b ∷ src) e = absurd (omega (arith, e))
copy_full (d ∷ dst) [] e = absurd (omega (arith, e))
copy_full (d ∷ dst) (b ∷ src) e = ap (◌∷◌ b) (copy_full dst src (omega (arith, e)))

length-drop : (n : ℕ) (xs : Bytes) → length (drop n xs) ≡ length xs - n
length-drop zero xs = omega arith
length-drop (suc n) [] = omega arith
length-drop (suc n) (x ∷ xs) = omega (arith, length-drop n xs)

halves :
    (leaf : Bytes) → length leaf ≡ 64 → (length (take 32 leaf) ≡ 32) × (length (drop 32 leaf) ≡ 32)
halves leaf e = (omega (arith, length-take 32 leaf, e), omega (arith, length-drop 32 leaf, e))

pub length-fill_leaf :
    (leaf left right : Bytes) → length leaf ≡ 64 → length (fill_leaf leaf left right) ≡ 64
length-fill_leaf leaf left right e =
    let (front, back) = halves leaf e in
    omega (
      arith,
      length-append (copy (take 32 leaf) left) (copy (drop 32 leaf) right),
      length-copy (take 32 leaf) left,
      length-copy (drop 32 leaf) right,
      front,
      back,
    )

pub fill_leaf-append :
    (leaf left right : Bytes)
    → length leaf ≡ 64
    → length left ≡ 32
    → length right ≡ 32
    → fill_leaf leaf left right ≡ left ++ right
fill_leaf-append leaf left right e l r =
    let (front, back) = halves leaf e in
    rw
      (
        copy_full (take 32 leaf) left (omega (arith, front, l)),
        copy_full (drop 32 leaf) right (omega (arith, back, r)),
      )
      refl

append-injective :
    (xs us ys vs : Bytes) → length xs ≡ length us → xs ++ ys ≡ us ++ vs → (xs ≡ us) × (ys ≡ vs)
append-injective [] [] ys vs e h = (refl, h)
append-injective [] (u ∷ us) ys vs e h = absurd (omega (arith, e))
append-injective (x ∷ xs) [] ys vs e h = absurd (omega (arith, e))
append-injective (x ∷ xs) (u ∷ us) ys vs e h =
    let (same, rest) = append-injective xs us ys vs (omega (arith, e)) (ground (arith, h)) in
    (ground (arith, h, same), rest)

fill_leaf-halves :
    (leaf other left left' right right' : Bytes)
    → length leaf ≡ 64
    → length other ≡ 64
    → fill_leaf leaf left right ≡ fill_leaf other left' right'
    → (copy (take 32 leaf) left ≡ copy (take 32 other) left')
      × (copy (drop 32 leaf) right ≡ copy (drop 32 other) right')
fill_leaf-halves leaf other left left' right right' e e' h =
    let (front, back) = halves leaf e in
    let (front', back') = halves other e' in
    append-injective (copy (take 32 leaf) left) (copy (take 32 other) left') _ _
      (omega
        (arith, length-copy (take 32 leaf) left, length-copy (take 32 other) left', front, front'))
      h

-- The half that the loop's own hash is copied to holds it whole.
pub fill_leaf-right :
    (leaf other path path' branch branch' : Bytes)
    → length leaf ≡ 64
    → length other ≡ 64
    → length branch ≡ 32
    → length branch' ≡ 32
    → fill_leaf leaf path branch ≡ fill_leaf other path' branch'
    → branch ≡ branch'
fill_leaf-right leaf other path path' branch branch' e e' b b' h =
    let (front, back) = halves leaf e in
    let (front', back') = halves other e' in
    let same = (fill_leaf-halves leaf other path path' branch branch' e e' h).1 in
    sym (copy_full (drop 32 leaf) branch (omega (arith, back, b)))
    ∙ same
    ∙ copy_full (drop 32 other) branch' (omega (arith, back', b'))

pub fill_leaf-left :
    (leaf other path path' branch branch' : Bytes)
    → length leaf ≡ 64
    → length other ≡ 64
    → length branch ≡ 32
    → length branch' ≡ 32
    → fill_leaf leaf branch path ≡ fill_leaf other branch' path'
    → branch ≡ branch'
fill_leaf-left leaf other path path' branch branch' e e' b b' h =
    let (front, back) = halves leaf e in
    let (front', back') = halves other e' in
    let same = (fill_leaf-halves leaf other branch branch' path path' e e' h).0 in
    sym (copy_full (take 32 leaf) branch (omega (arith, front, b)))
    ∙ same
    ∙ copy_full (take 32 other) branch' (omega (arith, front', b'))
