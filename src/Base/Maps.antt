-- ===== src/Base/Maps.antt =====
-- A Go map as an association list with one entry for each key. A `range` over the map visits
-- the entries in the order of the list.
use Prim.Native.Nat.{suc, ◌+◌, ◌≤◌}
use mathlib.Core.Path.{◌≡◌, refl}
use mathlib.Core.Bool.{Bool, false, ◌||◌}
use mathlib.Core.Option.{Option, none, some}
use mathlib.Core.List.{List, [], ◌∷◌}
use native.Mathlib.Omega.{arith}
use cleisthenes.Base.Tests.{if◌then◌else◌, Eq}
use cleisthenes.Base.Lists.{length, count_if}

abbrev pub GoMap {ℓ} : Type ℓ → Type ℓ → Type ℓ
GoMap K V = List (K × V)

module _ {ℓ} {K V : Type ℓ} where
  abbrev pub values : GoMap K V → List V
  values [] = []
  values ((k, v) ∷ m) = v ∷ values m

  abbrev pub keys : GoMap K V → List K
  keys [] = []
  keys ((k, v) ∷ m) = k ∷ keys m

module _ {ℓ} {K : Type ℓ} ⦃e : Eq K⦄ where
  abbrev pub contains : K → List K → Bool
  contains k [] = false
  contains k (j ∷ ks) = e.beq j k || contains k ks

  -- No key stands twice.
  abbrev pub Distinct : List K → Type 0
  Distinct [] = Unit
  Distinct (k ∷ ks) = (contains k ks ≡ false) × Distinct ks

module _ {ℓ} {K V : Type ℓ} ⦃e : Eq K⦄ where
  -- `m[k]` with its second result.
  unfoldable pub lookup : K → GoMap K V → Option V
  lookup k [] = none
  lookup k ((j, v) ∷ m) = if e.beq j k then some v else lookup k m

  -- `m[k] = v`.
  unfoldable pub insert : K → V → GoMap K V → GoMap K V
  insert k v [] = (k, v) ∷ []
  insert k v ((j, w) ∷ m) = if e.beq j k then (k, v) ∷ m else (j, w) ∷ insert k v m

  -- `delete(m, k)`.
  unfoldable pub delete : K → GoMap K V → GoMap K V
  delete k [] = []
  delete k ((j, w) ∷ m) = if e.beq j k then m else (j, w) ∷ delete k m

  -- A lookup after a write sees the write at its key and the old map elsewhere.
  pub lookup-insert :
      (k j : K) (v : V) (m : GoMap K V)
      → lookup j (insert k v m) ≡ (if e.beq k j then some v else lookup j m)
  unfolding lookup insert
  lookup-insert k j v [] = refl
  lookup-insert k j v ((i, w) ∷ m) =
      ground (arith, e.beq_iff k j, e.beq_iff i k, e.beq_iff i j, lookup-insert k j v m)

  pub contains-insert :
      (k j : K) (v : V) (m : GoMap K V)
      → contains j (keys (insert k v m)) ≡ (e.beq k j || contains j (keys m))
  unfolding insert
  contains-insert k j v [] = refl
  contains-insert k j v ((i, w) ∷ m) =
      ground (arith, e.beq_iff k j, e.beq_iff i k, e.beq_iff i j, contains-insert k j v m)

  pub insert-Distinct :
      (k : K) (v : V) (m : GoMap K V) → Distinct (keys m) → Distinct (keys (insert k v m))
  unfolding insert
  insert-Distinct k v [] h = (refl, tt)
  insert-Distinct k v ((i, w) ∷ m) h =
      ground (arith, e.beq_iff i k, e.beq_iff k i, contains-insert k i v m, insert-Distinct k v m)

  pub lookup-contains : (k : K) (m : GoMap K V) → lookup k m ≡ none → contains k (keys m) ≡ false
  unfolding lookup
  lookup-contains k [] h = refl
  lookup-contains k ((i, w) ∷ m) h = ground (arith, lookup-contains k m)

  pub lookup_absent : (k : K) (m : GoMap K V) → contains k (keys m) ≡ false → lookup k m ≡ none
  unfolding lookup
  lookup_absent k [] h = refl
  lookup_absent k ((i, w) ∷ m) h = ground (arith, lookup_absent k m)

  -- A write at a new key adds one value.
  pub count_if-insert_new :
      (p : V → Bool) (k : K) (v : V) (m : GoMap K V)
      → lookup k m ≡ none
      → count_if p (values (insert k v m)) ≡ count_if p (values m) + (if p v then 1 else 0)
  unfolding lookup insert
  count_if-insert_new p k v [] h = ground arith
  count_if-insert_new p k v ((i, w) ∷ m) h = ground (arith, count_if-insert_new p k v m)

  pub length-insert_new :
      (k : K) (v : V) (m : GoMap K V)
      → lookup k m ≡ none
      → length (keys (insert k v m)) ≡ suc (length (keys m))
  unfolding lookup insert
  length-insert_new k v [] h = refl
  length-insert_new k v ((i, w) ∷ m) h = ground (arith, length-insert_new k v m)

  pub length-insert_le :
      (k : K) (v : V) (m : GoMap K V) → length (keys (insert k v m)) ≤ suc (length (keys m))
  unfolding insert
  length-insert_le k v [] = ground arith
  length-insert_le k v ((i, w) ∷ m) = ground (arith, length-insert_le k v m)

  -- A write at a key that the map has leaves the keys.
  pub keys-insert_present :
      (k : K) (v w : V) (m : GoMap K V) → lookup k m ≡ some w → keys (insert k v m) ≡ keys m
  unfolding lookup insert
  keys-insert_present k v w [] h = absurd (ground arith)
  keys-insert_present k v w ((i, x) ∷ m) h =
      ground (arith, e.beq_iff i k, keys-insert_present k v w m)
