-- ===== src/Acs/Members.antt =====
-- acs/acs.go: an `ACS` whose member map has fewer members than the network has nodes.
use cleisthenes.Base.{
  ℕ, suc, ◌+◌, ◌≤◌, ◌<◌, ◌≡◌, refl, inl, inr, ap, subst, sym, not, Option, some, List, [], ◌∷◌,
  GoMap, keys, values, length, length-insert_le, keys-insert_present, count_if-le-length,
  Option-cases, arith,
}
use mathlib.Core.Option.{some-injective}
use cleisthenes.Base.Go.{final}
use cleisthenes.Binary
use cleisthenes.Binary.{Binary, BinaryState}
use cleisthenes.Member.{Member, MemberMap, member_eq, members}
use cleisthenes.Rbc.State.{Rbc}
use cleisthenes.Bba.State.{Bba}
use cleisthenes.Honeybadger.{BatchMessage}
use cleisthenes.Acs.State.{RbcOps, BbaOps, BinaryStateMap, Acs, with_member, add_members, new}
use cleisthenes.Acs.Handlers.{count_done_agreement, agreement_success}
use cleisthenes.Acs.Run.{Event, run}
use cleisthenes.Acs.Rules.{Rules}
use cleisthenes.Acs.Keeps.{run-keeps}

record SilentOf (n : ℕ) (results : BinaryStateMap) (batches : List BatchMessage) : Type 0 where
  pub few : length (keys results) < n
  pub silent : batches ≡ []

abbrev Silent : Acs → Type 0
Silent s = SilentOf s.n s.agreement_result s.batches

length-values : {K V : Type 0} (m : GoMap K V) → length (values m) ≡ length (keys m)
length-values [] = refl
length-values ((k, v) ∷ m) = ap suc (length-values m)

count_done_agreement-le :
    (results : BinaryStateMap) → count_done_agreement results ≤ length (keys results)
count_done_agreement-le results = ground (
  arith,
  count_if-le-length (λ (state : BinaryState). not state.undefined) (values results),
  length-values results,
)

Silent-Rules : Rules Silent
unfolding agreement_success
Silent-Rules = record {
  writes = record {
    set_rbc_repo = λ s repo h. h;
    set_bba_repo = λ s repo h. h;
    save_data = λ s m bytes there empty h. h;
    save_agreement = λ s m bin {state} there fresh h. record {
      few =
          subst (λ ks. length ks < s.n)
            (sym (keys-insert_present m (Binary.set state bin) state s.agreement_result there))
            h.few;
      silent = h.silent;
    };
    set_agreement_chan = λ s c h. h;
    set_agreement_started = λ s started h. h;
    set_stop_flag = λ s h. h;
  };
  send_batch = λ s undone all full one h.
      absurd (omega (arith, all, h.few, count_done_agreement-le s.agreement_result));
}

pub add_members-few :
    (make_rbc : Member → Option Rbc) (make_bba : Member → Bba) (ms : List Member) (s : Acs)
    {t : Acs}
    → add_members make_rbc make_bba ms s ≡ some t
    → (length (keys t.agreement_result) ≤ length (keys s.agreement_result) + length ms)
      × (t.n ≡ s.n)
      × (t.batches ≡ s.batches)
unfolding add_members
add_members-few make_rbc make_bba [] s e =
    subst
      (λ t.
        (length (keys t.agreement_result) ≤ length (keys s.agreement_result) + 0)
        × (t.n ≡ s.n)
        × (t.batches ≡ s.batches))
      (some-injective _ _ e) (omega arith, refl, refl)
add_members-few make_rbc make_bba (m ∷ ms) s {t} e = elim (Option-cases (make_rbc m)) [
  | inl refused ↦ absurd (ground arith)
  | inr (r, made) ↦
      let next = with_member m r (make_bba m) s in
      let (fits, same, logs) =
        add_members-few make_rbc make_bba ms next {t = t} (ground (arith, e, made)) in
      (omega (arith, fits, length-insert_le m Binary.new s.agreement_result), same, logs)
]

-- An `ACS` that is made with fewer members than nodes sends no batch, whatever happens.
pub too_few_members :
    (make_rbc : Member → Option Rbc) (make_bba : Member → Bba) (n f : ℕ) (owner : Member)
    (member_map : MemberMap) (rbc_ops : RbcOps) (bba_ops : BbaOps) (es : List Event) {s : Acs}
    → length (members member_map) < n
    → new make_rbc make_bba n f owner member_map ≡ some s
    → (final (run rbc_ops bba_ops es s)).batches ≡ []
unfolding new
too_few_members make_rbc make_bba n f owner member_map rbc_ops bba_ops es {s} few made =
    let (fits, same, logs) = add_members-few make_rbc make_bba (members member_map) _ made in
    (run-keeps Silent-Rules rbc_ops bba_ops es s
      (record { few = omega (arith, fits, same, few); silent = logs })).silent
