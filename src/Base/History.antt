-- ===== src/Base/History.antt =====
-- A log that the calls of a history append to, and the moment at which each entry was made.
use mathlib.Core.Path.{◌≡◌, refl, sym, ap, subst, ◌∙◌}
use mathlib.Core.List.{List, [], ◌∷◌, ◌++◌, append-nil, append_assoc}
use cleisthenes.Base.Lists.{All, All-append, All-map}
use cleisthenes.Base.Go.{Outcome, Go, done, fail, block, panic, after, final}

module _ {X S E M : Type 0} (step : E → Go X S (Unit {0})) (run : List E → Go X S (Unit {0}))
    (log : S → List M) (At : S → M → Type 0) where
  -- A log has grown by entries that are justified in the state.
  abbrev pub Grown : List M → S → Type 0
  Grown old t = (new : List M) × (log t ≡ old ++ new) × All (At t) new

  -- The entry is justified in the state that some first events of the history have led to.
  abbrev pub Earlier : List E → S → M → Type 0
  Earlier es s m =
      (before : List E) × (later : List E) × (before ++ later ≡ es) × At (final (run before s)) m

  module _ (run-nil : (s : S) → run [] s ≡ done tt s)
      (run-cons : (e : E) (es : List E) (s : S)
        → run (e ∷ es) s ≡ after (step e s) (λ _. run es)) where
    run_nothing :
        (o : Outcome X S (Unit {0})) → final (after o (λ (_ : Unit {0}). run [])) ≡ final o
    run_nothing (done a s) = ap final (run-nil s)
    run_nothing (fail e s) = refl
    run_nothing (block s) = refl
    run_nothing (panic s) = refl

    Earlier-first :
        (e : E) (es : List E) (s : S) (m : M) → At (final (step e s)) m → Earlier (e ∷ es) s m
    Earlier-first e es s m h = (
      e ∷ [],
      es,
      refl,
      subst (λ t. At t m) (sym (ap final (run-cons e [] s) ∙ run_nothing (step e s))) h,
    )

    Earlier-later :
        (e : E) (es : List E) (s t : S) (m : M)
        → step e s ≡ done tt t
        → Earlier es t m
        → Earlier (e ∷ es) s m
    Earlier-later e es s t m went (before, later, same, h) = (
      e ∷ before,
      later,
      ap (λ l. e ∷ l) same,
      subst (λ u. At u m)
          (sym (ap final (run-cons e before s) ∙ ap (λ o. final (after o (λ _. run before))) went))
          h,
    )

    -- What the events of a history add to the log.
    abbrev Added : List E → S → S → Type 0
    Added es s t = (new : List M) × (log t ≡ log s ++ new) × All (Earlier es s) new

    Added-stopped :
        (e : E) (es : List E) (s : S)
        → Grown (log s) (final (step e s))
        → Added (e ∷ es) s (final (step e s))
    Added-stopped e es s (new, grown, h) = (new, grown, All-map _ _ (Earlier-first e es s) new h)

    after-Added :
        (e : E) (es : List E) (s : S) (o : Outcome X S (Unit {0}))
        → step e s ≡ o
        → Grown (log s) (final (step e s))
        → ((t : S) → Added es t (final (run es t)))
        → Added (e ∷ es) s (final (after o (λ _. run es)))
    after-Added e es s (done tt t) went first rest =
        let (new, grown, h) = subst (λ o. Grown (log s) (final o)) went first in
        let (new', grown', h') = rest t in
        (
          new ++ new',
          grown' ∙ ap (λ l. l ++ new') grown ∙ append_assoc (log s) new new',
          All-append (Earlier (e ∷ es) s) new new'
              (All-map _ _
                (λ m k. Earlier-first e es s m (subst (λ o. At (final o) m) (sym went) k)) new h)
              (All-map _ _ (λ m. Earlier-later e es s t m went) new' h'),
        )
    after-Added e es s (fail x t) went first rest =
        subst (λ o. Added (e ∷ es) s (final o)) went (Added-stopped e es s first)
    after-Added e es s (block t) went first rest =
        subst (λ o. Added (e ∷ es) s (final o)) went (Added-stopped e es s first)
    after-Added e es s (panic t) went first rest =
        subst (λ o. Added (e ∷ es) s (final o)) went (Added-stopped e es s first)

    -- If every event makes the log grow by entries that are justified in the state it leaves, then
    -- every entry that a history adds is justified in a state that the history has gone through.
    pub run-Added :
        ((e : E) (s : S) → Grown (log s) (final (step e s)))
        → (es : List E) (s : S) → Added es s (final (run es s))
    run-Added grows [] s = ([], ap (λ o. log (final o)) (run-nil s) ∙ sym (append-nil (log s)), tt)
    run-Added grows (e ∷ es) s =
        subst (λ o. Added (e ∷ es) s (final o)) (sym (run-cons e es s))
          (after-Added e es s (step e s) refl (grows e s) (run-Added grows es))
