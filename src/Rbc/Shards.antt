-- ===== src/Rbc/Shards.antt =====
-- rbc/rbc.go: where `tryDecodeValue` puts the shards.
use mathlib.Core.List.{Memᴰ}
use mathlib.Core.Option.{some-injective}
use cleisthenes.Base.{
  ℕ, zero, suc, ◌+◌, ◌≤◌, ◌<◌, ◌≡◌, ◌⊎◌, inl, inr, refl, sym, ap, ◌∙◌, subst, Bool, true, false,
  some, List, [], ◌∷◌, length, get_elem?, set, replicate, count_if, contains, Distinct, nat_eq,
  length-le-Distinct, All, bytes_beq, if◌then◌else◌, Bool-cases, arith,
}
use cleisthenes.Rbc.Merkle.{Bytes, order_of_data}
use cleisthenes.Rbc.State.{ValRequest}
use cleisthenes.Rbc.Decode.{place_shards}

-- A shard that is there: the code marks a missing one with nil.
abbrev pub present : Bytes → Bool
present [] = false
present (b ∷ bytes) = true

-- Each shard of the first list is missing or the one of the second.
abbrev pub Agrees : List Bytes → List Bytes → Type 0
Agrees [] [] = Unit
Agrees (x ∷ xs) (y ∷ ys) = ((x ≡ []) ⊎ (x ≡ y)) × Agrees xs ys
Agrees [] (y ∷ ys) = ⊥
Agrees (x ∷ xs) [] = ⊥

abbrev pub PresentAt : ℕ → List Bytes → Type 0
PresentAt i xs = (c : Bytes) × (get_elem? xs i ≡ some c) × (present c ≡ true)

pub replicate-Agrees : (shards : List Bytes) → Agrees (replicate (length shards) []) shards
replicate-Agrees [] = tt
replicate-Agrees (y ∷ ys) = (inl refl, replicate-Agrees ys)

length-Agrees : (xs ys : List Bytes) → Agrees xs ys → length xs ≡ length ys
length-Agrees [] [] h = refl
length-Agrees [] (y ∷ ys) h = elim h [ ]
length-Agrees (x ∷ xs) [] h = elim h [ ]
length-Agrees (x ∷ xs) (y ∷ ys) h = ap suc (length-Agrees xs ys h.1)

set-Agrees :
    (xs ys : List Bytes) (i : ℕ) (c : Bytes)
    → Agrees xs ys
    → get_elem? ys i ≡ some c
    → Agrees (set xs i c) ys
set-Agrees [] [] i c h e = tt
set-Agrees [] (y ∷ ys) i c h e = elim h [ ]
set-Agrees (x ∷ xs) [] i c h e = elim h [ ]
set-Agrees (x ∷ xs) (y ∷ ys) zero c h e = (inr (ground (arith, e)), h.1)
set-Agrees (x ∷ xs) (y ∷ ys) (suc i) c h e = (h.0, set-Agrees xs ys i c h.1 e)

get_elem?-lt : (xs : List Bytes) (i : ℕ) {c : Bytes} → get_elem? xs i ≡ some c → i < length xs
get_elem?-lt [] i e = absurd (ground (arith, e))
get_elem?-lt (x ∷ xs) zero e = omega arith
get_elem?-lt (x ∷ xs) (suc i) e = omega (arith, get_elem?-lt xs i e)

set-PresentAt :
    (xs : List Bytes) (i : ℕ) (c : Bytes)
    → i < length xs
    → present c ≡ true
    → PresentAt i (set xs i c)
set-PresentAt [] i c lt h = absurd (omega (arith, lt))
set-PresentAt (x ∷ xs) zero c lt h = (c, refl, h)
set-PresentAt (x ∷ xs) (suc i) c lt h = set-PresentAt xs i c (omega (arith, lt)) h

set-keeps_PresentAt :
    (xs : List Bytes) (i j : ℕ) (c : Bytes)
    → present c ≡ true
    → PresentAt j xs
    → PresentAt j (set xs i c)
set-keeps_PresentAt [] i j c h (d, e, p) = absurd (ground (arith, e))
set-keeps_PresentAt (x ∷ xs) zero zero c h there = (c, refl, h)
set-keeps_PresentAt (x ∷ xs) zero (suc j) c h there = there
set-keeps_PresentAt (x ∷ xs) (suc i) zero c h there = there
set-keeps_PresentAt (x ∷ xs) (suc i) (suc j) c h there = set-keeps_PresentAt xs i j c h there

-- Where shards are, counted from a number on.
abbrev positions : ℕ → List Bytes → List ℕ
positions j [] = []
positions j (x ∷ xs) = let rest = positions (suc j) xs in if present x then j ∷ rest else rest

length-positions : (j : ℕ) (xs : List Bytes) → length (positions j xs) ≡ count_if present xs
length-positions j [] = refl
length-positions j (x ∷ xs) = ground (arith, length-positions (suc j) xs)

contains-positions :
    (j i m : ℕ) (xs : List Bytes) → PresentAt i xs → j + i ≡ m → contains m (positions j xs) ≡ true
contains-positions j i m [] (c, e, p) same = absurd (ground (arith, e))
contains-positions j zero m (x ∷ xs) (c, e, p) same =
    let there : present x ≡ true = ap present (some-injective x c e) ∙ p in
    ground (arith, there, same)
contains-positions j (suc i) m (x ∷ xs) there same =
    ground (arith, contains-positions (suc j) i m xs there (omega (arith, same)))

-- As many shards are there as there are different places with one.
pub count-PresentAt :
    (places : List ℕ) (xs : List Bytes)
    → Distinct places
    → ((i : ℕ) → contains i places ≡ true → PresentAt i xs)
    → length places ≤ count_if present xs
count-PresentAt places xs once there =
    subst (λ k. length places ≤ k) (length-positions 0 xs)
      (length-le-Distinct (positions 0 xs) places once
        (λ i inside. contains-positions 0 i i xs (there i inside) (omega arith)))

module _ (root : Bytes) (shards : List Bytes) where
  -- A request under the root has the shard of its place.
  abbrev pub Fits : ValRequest → Type 0
  Fits req =
      bytes_beq root req.root_hash ≡ true
      → get_elem? shards (order_of_data req.indexes) ≡ some req.shard.content

  pub record Placed (reqs : List ValRequest) (got placed : List Bytes) : Type 0 where
    pub agrees : Agrees placed shards
    pub keeps : (i : ℕ) → PresentAt i got → PresentAt i placed
    pub covers :
        (req : ValRequest)
        → Memᴰ req reqs
        → bytes_beq root req.root_hash ≡ true
        → PresentAt (order_of_data req.indexes) placed

  -- Placing one more shard, which is the right one, keeps what `Placed` says of the rest.
  Placed-put :
      (req : ValRequest) (reqs : List ValRequest) (got placed : List Bytes)
      → order_of_data req.indexes < length got
      → present req.shard.content ≡ true
      → Placed reqs (set got (order_of_data req.indexes) req.shard.content) placed
      → Placed (req ∷ reqs) got placed
  Placed-put req reqs got placed lt full p =
      let i = order_of_data req.indexes in
      let put = req.shard.content in
      record {
        agrees = p.agrees;
        keeps = λ j there. p.keeps j (set-keeps_PresentAt got i j put full there);
        covers = λ other inside same. elim inside [
          | Memᴰ.head e ↦
              subst (λ r. PresentAt (order_of_data r.indexes) placed) (sym e)
                (p.keeps i (set-PresentAt got i put lt full))
          | Memᴰ.tail later ↦ p.covers other later same
        ];
      }

  -- A request under another root covers no place.
  Placed-skip :
      (req : ValRequest) (reqs : List ValRequest) (got placed : List Bytes)
      → bytes_beq root req.root_hash ≡ false
      → Placed reqs got placed
      → Placed (req ∷ reqs) got placed
  Placed-skip req reqs got placed other p = record {
    agrees = p.agrees;
    keeps = p.keeps;
    covers = λ r inside same. elim inside [
      | Memᴰ.head e ↦
          absurd (ground (arith, sym same ∙ ap (λ q. bytes_beq root q.root_hash) e ∙ other))
      | Memᴰ.tail later ↦ p.covers r later same
    ];
  }

  get_elem?-All :
      (P : Bytes → Type 0) (xs : List Bytes) (i : ℕ) (c : Bytes)
      → All P xs
      → get_elem? xs i ≡ some c
      → P c
  get_elem?-All P [] i c h e = absurd (ground (arith, e))
  get_elem?-All P (x ∷ xs) zero c h e = subst P (some-injective x c e) h.0
  get_elem?-All P (x ∷ xs) (suc i) c h e = get_elem?-All P xs i c h.1 e

  -- The loop that places the shards never runs out of range on requests of the shards of the tree.
  pub place_shards-Placed :
      (reqs : List ValRequest) (got : List Bytes)
      → All Fits reqs
      → All (λ shard. present shard ≡ true) shards
      → Agrees got shards
      → (placed : List Bytes) × (place_shards root reqs got ≡ some placed) × Placed reqs got placed
  unfolding place_shards
  place_shards-Placed [] got fits full agrees = (
    got,
    refl,
    record { agrees = agrees; keeps = λ i there. there; covers = λ req inside. elim inside [ ] },
  )
  place_shards-Placed (req ∷ reqs) got fits full agrees =
      let i = order_of_data req.indexes in
      let put = req.shard.content in
      elim (Bool-cases (bytes_beq root req.root_hash)) [
        | inr other ↦
            let (placed, e, p) = place_shards-Placed reqs got fits.1 full agrees in
            (placed, ground (arith, other, e), Placed-skip req reqs got placed other p)
        | inl same ↦
            let right = fits.0 same in
            let lt : i < length got =
              subst (λ n. i < n) (sym (length-Agrees got shards agrees))
                (get_elem?-lt shards i right) in
            let (placed, e, p) =
              place_shards-Placed reqs (set got i put) fits.1 full
                (set-Agrees got shards i put agrees right) in
            let there = get_elem?-All (λ shard. present shard ≡ true) shards i put full right in
            (placed, ground (arith, same, lt, e), Placed-put req reqs got placed lt there p)
      ]
