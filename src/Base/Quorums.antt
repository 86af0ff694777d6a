-- ===== src/Base/Quorums.antt =====
-- Two large sets of addresses have an element in common that is not in a small one.
use Prim.Native.Nat.{ℕ, ◌-◌, ◌*◌, ◌≤◌, ◌<◌}
use mathlib.Core.Path.{◌≡◌, refl}
use mathlib.Core.Logic.{inl, inr}
use mathlib.Core.Bool.{true, false, not, ◌&&◌, ◌||◌}
use mathlib.Core.List.{List, [], ◌∷◌, ◌++◌}
use native.Mathlib.Omega.{arith}
use cleisthenes.Base.Tests.{Eq, Bool-cases, ltb}
use cleisthenes.Base.Lists.{length, length-append, select}
use cleisthenes.Base.Maps.{contains, Distinct}
use cleisthenes.Base.Voters.{exists_outside}

module _ {ℓ} {K : Type ℓ} ⦃e : Eq K⦄ where
  pub contains-append :
      (a : K) (xs ys : List K) → contains a (xs ++ ys) ≡ (contains a xs || contains a ys)
  contains-append a [] ys = refl
  contains-append a (x ∷ xs) ys = ground (arith, contains-append a xs ys)

  abbrev outside : List K → List K → List K
  outside seen xs = select (λ a. not (contains a seen)) xs

  contains-outside :
      (a : K) (seen xs : List K)
      → contains a (outside seen xs) ≡ (contains a xs && not (contains a seen))
  contains-outside a seen [] = refl
  contains-outside a seen (x ∷ xs) = elim (Bool-cases (e.beq x a)) [
    | inl same ↦ let eq = (e.beq_iff x a).0 same in ground (arith, eq, contains-outside a seen xs)
    | inr other ↦ ground (arith, contains-outside a seen xs)
  ]

  outside-Distinct : (seen xs : List K) → Distinct xs → Distinct (outside seen xs)
  outside-Distinct seen [] h = tt
  outside-Distinct seen (x ∷ xs) h =
      ground (arith, contains-outside x seen xs, outside-Distinct seen xs h.1)

  append-outside-Distinct :
      (seen left xs : List K)
      → Distinct left
      → Distinct xs
      → ((a : K) → contains a left ≡ true → contains a seen ≡ true)
      → Distinct (left ++ outside seen xs)
  append-outside-Distinct seen [] xs left_once xs_once within = outside-Distinct seen xs xs_once
  append-outside-Distinct seen (b ∷ left) xs left_once xs_once within = (
    ground (
      arith,
      left_once.0,
      contains-append b left (outside seen xs),
      contains-outside b seen xs,
      within b,
      e.beq_iff b b,
    ),
    append-outside-Distinct seen left xs left_once.1 xs_once (λ a h. within a (ground (arith, h))),
  )

  pub length-le-Distinct :
      (all xs : List K)
      → Distinct xs
      → ((a : K) → contains a xs ≡ true → contains a all ≡ true)
      → length xs ≤ length all
  length-le-Distinct all xs once within = elim (Bool-cases (ltb (length all) (length xs))) [
    | inl more ↦
        let (a, inside, out) = exists_outside all xs once (ground (arith, more)) in
        absurd (ground (arith, within a inside))
    | inr le ↦ ground (arith, le)
  ]

  -- Of n addresses, two sets of n - f have one in common that is not among f others, if n > 3f.
  pub common_voter :
      (all bad left right : List K) (n f : ℕ)
      → length all ≤ n
      → length bad ≤ f
      → 3 * f < n
      → Distinct left
      → Distinct right
      → ((a : K) → contains a left ≡ true → contains a all ≡ true)
      → ((a : K) → contains a right ≡ true → contains a all ≡ true)
      → n - f ≤ length left
      → n - f ≤ length right
      → (a : K) × (contains a left ≡ true) × (contains a right ≡ true) × (contains a bad ≡ false)
  common_voter all bad left right n f size few fewer left_once right_once left_in right_in many_left
        many_right =
      let together =
        length-le-Distinct all (left ++ outside left right)
          (append-outside-Distinct left left right left_once right_once (λ a h. h))
          (λ a h. ground (
            arith,
            h,
            contains-append a left (outside left right),
            contains-outside a left right,
            left_in a,
            right_in a,
          )) in
      let (a, here, out) = exists_outside (bad ++ outside left right) right right_once (
        omega (
          arith,
          together,
          length-append left (outside left right),
          length-append bad (outside left right),
          size,
          few,
          fewer,
          many_left,
          many_right,
        )) in
      (
        a,
        ground (
          arith,
          here,
          out,
          contains-append a bad (outside left right),
          contains-outside a left right,
        ),
        here,
        ground (arith, out, contains-append a bad (outside left right)),
      )
