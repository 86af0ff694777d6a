-- ===== src/Bba/Decision.antt =====
-- bba/bba.go: the decision of an instance and what it tells its owner.
use cleisthenes.Base.{
  ℕ, ◌≡◌, refl, Bool, true, not, if◌then◌else◌, List, [], ◌∷◌, All-always, arith,
}
use cleisthenes.Base.Go.{final}
use cleisthenes.Binary.{Binary, BinaryState}
use cleisthenes.Member.{Member}
use cleisthenes.Bba.State.{BinaryMessage, Bba, new}
use cleisthenes.Bba.Handlers.{Json}
use cleisthenes.Bba.Run.{Event, run}
use cleisthenes.Bba.Rules.{Rules}
use cleisthenes.Bba.Keeps.{run-keeps, events-Known}

-- What the owner has been told by an instance with that decision state.
abbrev pub report : Member → Bool → Binary → List BinaryMessage
report proposer done value = if done then record { member = proposer; binary = value } ∷ [] else []

pub record SettledOf (proposer : Member) (done dec : BinaryState) (told : List BinaryMessage)
    : Type 0 where
  pub reported : told ≡ report proposer done.value dec.value
  pub defined : dec.undefined ≡ not done.value

-- Before the decision nothing has been sent to the owner's binary channel; after it one message
-- has, the proposer with the decided value.
abbrev pub Settled : Bba → Type 0
Settled s = SettledOf s.proposer s.done s.dec s.bin_input

Settled-Rules : (json : Json) → Rules json (λ _. Unit {0}) (λ _. Unit {0}) Settled
Settled-Rules json = record {
  own = λ s why h. tt;
  own_decoded = λ s why typed marshalled e h. tt;
  push = λ s r k h. h;
  pop = λ s r rs e h. (h, tt);
  keep_bval = λ s ir k h. h;
  keep_aux = λ s ir k h. h;
  kept_bval = λ s h. All-always (λ _. tt) s.incoming_bval_repo;
  kept_aux = λ s h. All-always (λ _. tt) s.incoming_aux_repo;
  set_bin_value_chan = λ s q h. h;
  set_tryout_agreement_chan = λ s q h. h;
  set_advance_round_chan = λ s q h. h;
  share = λ from s req k known typed marshalled h. h;
  take_input = λ s v given h. h;
  next_input = λ s h. tt;
  fail_single = λ s b e h. h;
  fail_several = λ s b c bs e h. h;
  set_aux_broadcasted = λ s b h. h;
  set_stopped = λ s h. h;
  save_bval = λ s sender v k fresh h. h;
  save_aux = λ s sender v k fresh h. h;
  add_bin_value = λ s v e h. h;
  add_broadcasted = λ s v e h. h;
  decide = λ s b undone single coin h. ground (arith, h.reported, h.defined);
  advance = λ s h. h;
}

-- An instance that has decided, with the decision and what its owner was told.
abbrev Fixed : Bba → Bba → Type 0
Fixed t s = (s.done.value ≡ true) × (s.dec ≡ t.dec) × (s.bin_input ≡ t.bin_input)

Fixed-Rules : (json : Json) (t : Bba) → Rules json (λ _. Unit {0}) (λ _. Unit {0}) (Fixed t)
Fixed-Rules json t = record {
  own = λ s why h. tt;
  own_decoded = λ s why typed marshalled e h. tt;
  push = λ s r k h. h;
  pop = λ s r rs e h. (h, tt);
  keep_bval = λ s ir k h. h;
  keep_aux = λ s ir k h. h;
  kept_bval = λ s h. All-always (λ _. tt) s.incoming_bval_repo;
  kept_aux = λ s h. All-always (λ _. tt) s.incoming_aux_repo;
  set_bin_value_chan = λ s q h. h;
  set_tryout_agreement_chan = λ s q h. h;
  set_advance_round_chan = λ s q h. h;
  share = λ from s req k known typed marshalled h. h;
  take_input = λ s v given h. h;
  next_input = λ s h. tt;
  fail_single = λ s b e h. h;
  fail_several = λ s b c bs e h. h;
  set_aux_broadcasted = λ s b h. h;
  set_stopped = λ s h. h;
  save_bval = λ s sender v k fresh h. h;
  save_aux = λ s sender v k fresh h. h;
  add_bin_value = λ s v e h. h;
  add_broadcasted = λ s v e h. h;
  decide = λ s b undone single coin h. absurd (ground arith);
  advance = λ s h. h;
}

-- A new instance that runs any schedule sends its owner nothing before it has decided, and once
-- it has, it has sent exactly one message: its proposer with its decision. The decision is
-- undefined until then.
pub run-Settled :
    (json : Json) (n f : ℕ) (owner proposer : Member) (coin : ℕ → Binary) (es : List Event)
    → Settled (final (run json es (new n f owner proposer coin)))
unfolding new
run-Settled json n f owner proposer coin es =
    run-keeps (Settled-Rules json) es _ (events-Known (Settled-Rules json) (λ _. tt) (λ _. tt) es)
      (record { reported = refl; defined = refl })

-- Whatever happens to an instance that has decided, its decision and what it told its owner stay.
pub decision_final :
    (json : Json) (s : Bba) (es : List Event)
    → s.done.value ≡ true
    → ((final (run json es s)).done.value ≡ true)
      × ((final (run json es s)).dec ≡ s.dec)
      × ((final (run json es s)).bin_input ≡ s.bin_input)
decision_final json s es e =
    run-keeps (Fixed-Rules json s) es s (events-Known (Fixed-Rules json s) (λ _. tt) (λ _. tt) es)
      (e, refl, refl)
