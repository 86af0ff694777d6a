-- ===== src/Bba/Network/OneValue.antt =====
-- bba/bba.go: requests for one value, and sets that have no other.
use mathlib.Core.Option.{some-injective}
use cleisthenes.Base.{
  ℕ, ◌≡◌, ◌⊎◌, inl, inr, refl, sym, subst, ◌∙◌, true, some, List, [], ◌∷◌, lookup, insert, bool_eq,
  arith,
}
use cleisthenes.Binary.{Binary}
use cleisthenes.Member.{address_eq}
use cleisthenes.Bba.BinarySet.{BinarySet, exist, union, to_list}
use cleisthenes.Bba.Request.{Request, bval, aux, other, ok}
use cleisthenes.Bba.State.{BbaType}
use cleisthenes.Bba.Handlers.{Json, process_payload, type_of, marshal}
use cleisthenes.Bba.Transport.{RoundTrips}

-- A request that is no vote for another value

abbrev pub IsFor : Binary → Request → Type 0
IsFor v (bval w) = w ≡ v
IsFor v _ = Unit

-- A set that has no other value
abbrev pub Only : Binary → BinarySet → Type 0
Only v set = (set ≡ []) ⊎ (set ≡ (v, true) ∷ [])

pub Only-union : (v : Binary) (set : BinarySet) → Only v set → Only v (union v set)
unfolding union insert
Only-union v set (inl e) = inr (rw e refl)
Only-union v set (inr e) = inr (rw e (ground (arith, bool_eq.beq_iff v v)))

pub Only-exist : (v w : Binary) (set : BinarySet) → Only v set → exist w set ≡ true → w ≡ v
unfolding exist lookup
Only-exist v w set (inl e) h = absurd (ground (arith, e))
Only-exist v w set (inr e) h = ground (arith, e, bool_eq.beq_iff v w)

pub Only-single : (v b : Binary) (set : BinarySet) → Only v set → to_list set ≡ b ∷ [] → b ≡ v
unfolding to_list
Only-single v b set (inl e) h = absurd (ground (arith, e))
Only-single v b set (inr e) h = ground (arith, e)

pub Only-several :
    (v b c : Binary) (bs : List Binary) (set : BinarySet)
    → Only v set
    → to_list set ≡ b ∷ c ∷ bs
    → ⊥
unfolding to_list
Only-several v b c bs set (inl e) h = ground (arith, e)
Only-several v b c bs set (inr e) h = ground (arith, e)

-- Decoding gives back the request that was encoded.
decoded_same :
    (json : Json)
    → RoundTrips json
    → (req req' : Request) {typ : BbaType} {p : List ℕ} (round : ℕ) {round' : ℕ}
    → type_of req ≡ some typ
    → marshal json req ≡ some p
    → process_payload round typ (json.unmarshal p) ≡ ok (req', round')
    → req ≡ req'
unfolding type_of marshal process_payload
decoded_same json trips (bval w) req' {typ} {p} round typed marshalled decoded =
    let (p', there, back) = trips w in
    let e : p' ≡ p = some-injective _ _ (sym there ∙ marshalled) in
    let back' : json.unmarshal p ≡ some w = subst (λ x. json.unmarshal x ≡ some w) e back in
    ground (arith, back', typed, decoded)
decoded_same json trips (aux w) req' {typ} {p} round typed marshalled decoded =
    let (p', there, back) = trips w in
    let e : p' ≡ p = some-injective _ _ (sym there ∙ marshalled) in
    let back' : json.unmarshal p ≡ some w = subst (λ x. json.unmarshal x ≡ some w) e back in
    ground (arith, back', typed, decoded)
decoded_same json trips other req' round typed marshalled decoded = absurd (ground arith)

pub decoded-IsFor :
    (v : Binary) (json : Json)
    → RoundTrips json
    → (req req' : Request) {typ : BbaType} {p : List ℕ} (round : ℕ) {round' : ℕ}
    → type_of req ≡ some typ
    → marshal json req ≡ some p
    → process_payload round typ (json.unmarshal p) ≡ ok (req', round')
    → IsFor v req
    → IsFor v req'
decoded-IsFor v json trips req req' round typed marshalled decoded h =
    subst (IsFor v) (decoded_same json trips req req' round typed marshalled decoded) h
