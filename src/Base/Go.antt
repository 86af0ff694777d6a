-- ===== src/Base/Go.antt =====
-- What a Go call does to the state it works on: it returns, returns an error, blocks for ever on
-- a channel or panics. In each case the state is the one that the call leaves behind.

pub data Outcome {ℓ} (E S A : Type ℓ) : Type ℓ where
  done : A → S → Outcome E S A
  fail : E → S → Outcome E S A
  block : S → Outcome E S A
  panic : S → Outcome E S A

abbrev pub Go {ℓ} : Type ℓ → Type ℓ → Type ℓ → Type ℓ
Go E S A = S → Outcome E S A

module _ {ℓ} {E S : Type ℓ} where
  abbrev pub after : {A B : Type ℓ} → Outcome E S A → (A → Go E S B) → Outcome E S B
  after (done a s) f = f a s
  after (fail e s) f = fail e s
  after (block s) f = block s
  after (panic s) f = panic s

  infixl 5 ◌>>=◌ ◌>>◌
  abbrev pub ◌>>=◌ : {A B : Type ℓ} → Go E S A → (A → Go E S B) → Go E S B
  ◌>>=◌ m f s = after (m s) f

  abbrev pub ◌>>◌ : {A B : Type ℓ} → Go E S A → Go E S B → Go E S B
  ◌>>◌ m k s = after (m s) (λ _. k)

  abbrev pub pure : {A : Type ℓ} → A → Go E S A
  pure a s = done a s

  abbrev pub throw : {A : Type ℓ} → E → Go E S A
  throw e s = fail e s

  abbrev pub get : Go E S S
  get s = done s s

  -- The state that a call leaves, however it ends.
  abbrev pub final : {A : Type ℓ} → Outcome E S A → S
  final (done a s) = s
  final (fail e s) = s
  final (block s) = s
  final (panic s) = s

  -- What holds of the state that a first call leaves, and is kept by the second, holds at the end.
  pub after-final {κ} :
      {A B : Type ℓ} (P : S → Type κ) (o : Outcome E S A) (f : A → Go E S B)
      → P (final o)
      → ((a : A) (s : S) → P s → P (final (f a s)))
      → P (final (after o f))
  after-final P (done a s) f h k = k a s h
  after-final P (fail e s) f h k = h
  after-final P (block s) f h k = h
  after-final P (panic s) f h k = h

  -- The same for a second call that turns one property into another.
  pub after-final_to {κ} :
      {A B : Type ℓ} (P Q : S → Type κ) (o : Outcome E S A) (f : A → Go E S B)
      → ((s : S) → P s → Q s)
      → P (final o)
      → ((a : A) (s : S) → P s → Q (final (f a s)))
      → Q (final (after o f))
  after-final_to P Q (done a s) f w h k = k a s h
  after-final_to P Q (fail e s) f w h k = w s h
  after-final_to P Q (block s) f w h k = w s h
  after-final_to P Q (panic s) f w h k = w s h
