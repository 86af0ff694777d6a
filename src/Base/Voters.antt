-- ===== src/Base/Voters.antt =====
-- Counting the keys of a map by their values, and finding a key outside a shorter list.
use Prim.Native.Nat.{suc, ◌≤◌, ◌<◌}
use mathlib.Core.Path.{◌≡◌, refl, subst}
use mathlib.Core.Logic.{◌≢◌, inl, inr}
use mathlib.Core.Bool.{Bool, true, false, not}
use mathlib.Core.List.{List, [], ◌∷◌}
use native.Mathlib.Omega.{arith}
use cleisthenes.Base.Tests.{if◌then◌else◌, Eq, Bool-cases, if_rule}
use cleisthenes.Base.Lists.{length, count_if, select, All}
use cleisthenes.Base.Maps.{GoMap, keys, values, contains, Distinct, insert}

module _ {ℓ} {K V : Type ℓ} where
  -- The keys whose value passes the test.
  pub voters : (V → Bool) → GoMap K V → List K
  voters p [] = []
  voters p ((k, v) ∷ m) = let rest = voters p m in if p v then k ∷ rest else rest

  pub length-voters : (p : V → Bool) (m : GoMap K V) → length (voters p m) ≡ count_if p (values m)
  unfolding voters
  length-voters p [] = refl
  length-voters p ((k, v) ∷ m) = ground (arith, length-voters p m)

  pub All-voters {κ} :
      (P : K × V → Type κ) (Q : K → Type κ) (p : V → Bool)
      → ((k : K) (v : V) → p v ≡ true → P (k, v) → Q k)
      → (m : GoMap K V) → All P m
      → All Q (voters p m)
  unfolding voters
  All-voters P Q p f [] h = tt
  All-voters P Q p f ((k, v) ∷ m) h = ground (arith, f k v, All-voters P Q p f m h.1, h.0)

  pub All-insert {κ} :
      ⦃e : Eq K⦄
      → (P : K × V → Type κ) (k : K) (v : V) (m : GoMap K V) → P (k, v)
      → All P m
      → All P (insert k v m)
  unfolding insert
  All-insert P k v [] h hs = (h, tt)
  All-insert P k v ((j, w) ∷ m) h hs = ground (arith, h, All-insert P k v m h hs.1)

module _ {ℓ} {K V : Type ℓ} ⦃e : Eq K⦄ where
  contains-voters :
      (k : K) (p : V → Bool) (m : GoMap K V)
      → contains k (keys m) ≡ false
      → contains k (voters p m) ≡ false
  unfolding voters
  contains-voters k p [] h = refl
  contains-voters k p ((j, v) ∷ m) h = ground (arith, contains-voters k p m)

  pub voters-Distinct : (p : V → Bool) (m : GoMap K V) → Distinct (keys m) → Distinct (voters p m)
  unfolding voters
  voters-Distinct p [] h = tt
  voters-Distinct p ((j, v) ∷ m) h = ground (arith, contains-voters j p m, voters-Distinct p m h.1)

module _ {ℓ} {K : Type ℓ} ⦃e : Eq K⦄ where
  abbrev pub without : K → List K → List K
  without b = select (λ a. not (e.beq b a))

  contains-without :
      (a b : K) (good : List K)
      → contains a (without b good) ≡ true
      → (contains a good ≡ true) × (e.beq b a ≡ false)
  contains-without a b [] h = ground arith
  contains-without a b (c ∷ good) h =
      ground (arith, e.beq_iff c a, e.beq_iff b a, e.beq_iff b c, contains-without a b good)

  not-contains-without :
      (a b : K) (good : List K) → contains a good ≡ false → contains a (without b good) ≡ false
  not-contains-without a b [] h = refl
  not-contains-without a b (c ∷ good) h = ground (arith, not-contains-without a b good)

  pub without-Distinct : (b : K) (good : List K) → Distinct good → Distinct (without b good)
  without-Distinct b [] h = tt
  without-Distinct b (c ∷ good) h =
      ground (arith, not-contains-without c b good, without-Distinct b good h.1)

  without_absent : (b : K) (good : List K) → contains b good ≡ false → without b good ≡ good
  without_absent b [] h = refl
  without_absent b (c ∷ good) h =
      ground (arith, e.beq_iff c b, e.beq_iff b c, without_absent b good)

  -- Only one of several distinct elements is removed.
  pub length-without-le :
      (b : K) (good : List K) → Distinct good → length good ≤ suc (length (without b good))
  length-without-le b [] h = omega arith
  length-without-le b (c ∷ good) h =
      ground (arith, e.beq_iff b c, without_absent b good, length-without-le b good h.1)

  pub All-without {κ} :
      (P Q : K → Type κ) (b : K)
      → ((a : K) → a ≢ b → P a → Q a)
      → (good : List K) → All P good
      → All Q (without b good)
  All-without P Q b f [] h = tt
  All-without P Q b f (c ∷ good) h =
      let rest = All-without P Q b f good h.1 in
      if_rule (λ r. All Q r) (not (e.beq b c))
        (λ other. (f c (λ same. ground (arith, e.beq_iff b c, same)) h.0, rest)) (λ _. rest)

  -- Among more distinct elements than a list has, one is not in the list.
  pub exists_outside :
      (bad good : List K)
      → Distinct good
      → length bad < length good
      → (a : K) × (contains a good ≡ true) × (contains a bad ≡ false)
  exists_outside [] [] h lt = absurd (omega arith)
  exists_outside [] (a ∷ good) h lt = (a, ground (arith, e.beq_iff a a), refl)
  exists_outside (b ∷ bad) good h lt =
      let (a, inside, outside) =
        exists_outside bad (without b good) (without-Distinct b good h)
          (omega (arith, length-without-le b good h)) in
      let (here, other) = contains-without a b good inside in
      (a, here, ground (arith, e.beq_iff b a, e.beq_iff a b))

  -- What holds of every element holds of one that is found.
  pub All-contains {κ} : (P : K → Type κ) (l : List K) {a : K} → All P l → contains a l ≡ true → P a
  All-contains P [] h found = absurd (ground arith)
  All-contains P (b ∷ l) {a} h found = elim (Bool-cases (e.beq b a)) [
    | inl same ↦ subst P ((e.beq_iff b a).0 same) h.0
    | inr other ↦ All-contains P l h.1 (ground arith)
  ]
