-- ===== src/Bba/Quorum.antt =====
-- bba/bba.go: what the counts that `handleBvalRequest` compares say of the sets that it fills.
use cleisthenes.Base.{
  ℕ, ◌+◌, ◌*◌, ◌≤◌, ◌≡◌, true, ◌||◌, List, [], none, lookup, insert, keys, Distinct, lookup-insert,
  insert-Distinct, count_if-insert_new, arith, All-always, bool_eq,
}
use cleisthenes.Base.Go.{final}
use cleisthenes.Binary.{Binary}
use cleisthenes.Member.{Member, Address, address_eq}
use cleisthenes.Bba.BinarySet.{BinarySet, exist, union, new_binary_set}
use cleisthenes.Bba.Request.{ReqRepository}
use cleisthenes.Bba.State.{Bba, new}
use cleisthenes.Bba.Handlers.{Json}
use cleisthenes.Bba.Local.{count_by_value}
use cleisthenes.Bba.Run.{Event, run}
use cleisthenes.Bba.Rules.{Rules}
use cleisthenes.Bba.Keeps.{run-keeps, events-Known}

-- A value is in a set after `union` if it was put in or was there before.
pub exist-union :
    (v w : Binary) (s : BinarySet) → exist w (union v s) ≡ (bool_eq.beq v w || exist w s)
unfolding exist union
exist-union v w s = ground (arith, lookup-insert v w true s)

-- A new sender can only raise a count.
count-insert_new :
    (v w : Binary) (a : Address) (r : ReqRepository)
    → lookup a r ≡ none
    → count_by_value v r ≤ count_by_value v (insert a w r)
count-insert_new v w a r new = omega (arith, count_if-insert_new (bool_eq.beq v) a w r new)

pub record QuorumOf (f : ℕ) (bvals auxs : ReqRepository) (bins sent : BinarySet) : Type 0 where
  pub bval_senders : Distinct (keys bvals)
  pub aux_senders : Distinct (keys auxs)
  pub bin_values : (v : Binary) → exist v bins ≡ true → 2 * f + 1 ≤ count_by_value v bvals
  pub relayed : (v : Binary) → exist v sent ≡ true → f + 1 ≤ count_by_value v bvals

-- Each sender is counted once; a value is in `binValueSet` only if at least 2f + 1 senders sent
-- it, and in `broadcastedBvalSet` only if at least f + 1 did.
abbrev pub Quorum : Bba → Type 0
Quorum s = QuorumOf s.f s.bval_repo s.aux_repo s.bin_value_set s.broadcasted_bval_set

save_bval-Quorum :
    (s : Bba) (sender : Member) (v : Binary)
    → lookup sender.address s.bval_repo ≡ none
    → Quorum s
    → Quorum (record s { bval_repo = insert sender.address v s.bval_repo })
save_bval-Quorum s sender v new h = record {
  bval_senders = insert-Distinct sender.address v s.bval_repo h.bval_senders;
  aux_senders = h.aux_senders;
  bin_values =
      λ w e. omega (arith, h.bin_values w e, count-insert_new w v sender.address s.bval_repo new);
  relayed =
      λ w e. omega (arith, h.relayed w e, count-insert_new w v sender.address s.bval_repo new);
}

union-kept :
    (n : ℕ) (v : Binary) (bins : BinarySet) (r : ReqRepository)
    → n ≤ count_by_value v r
    → ((w : Binary) → exist w bins ≡ true → n ≤ count_by_value w r)
    → (w : Binary) → exist w (union v bins) ≡ true
    → n ≤ count_by_value w r
union-kept n v bins r met h w e = ground (arith, exist-union v w bins, bool_eq.beq_iff v w, h w)

-- Nothing is claimed of empty repositories and sets.
empty-Quorum : (f : ℕ) → QuorumOf f [] [] new_binary_set new_binary_set
unfolding exist lookup
empty-Quorum f = record {
  bval_senders = tt;
  aux_senders = tt;
  bin_values = λ v e. absurd (ground arith);
  relayed = λ v e. absurd (ground arith);
}

Quorum-Rules : (json : Json) → Rules json (λ _. Unit {0}) (λ _. Unit {0}) Quorum
Quorum-Rules json = record {
  own = λ s why h. tt;
  own_decoded = λ s why typed marshalled e h. tt;
  push = λ s r k h. h;
  pop = λ s r rs e h. (h, tt);
  keep_bval = λ s ir k h. h;
  keep_aux = λ s ir k h. h;
  kept_bval = λ s h. All-always (λ _. tt) s.incoming_bval_repo;
  kept_aux = λ s h. All-always (λ _. tt) s.incoming_aux_repo;
  set_bin_value_chan = λ s q h. h;
  set_tryout_agreement_chan = λ s q h. h;
  set_advance_round_chan = λ s q h. h;
  share = λ from s req k known typed marshalled h. h;
  take_input = λ s v given h. h;
  next_input = λ s h. tt;
  fail_single = λ s b e h. h;
  fail_several = λ s b c bs e h. h;
  set_aux_broadcasted = λ s b h. h;
  set_stopped = λ s h. h;
  save_bval = λ s sender v k new h. save_bval-Quorum s sender v new h;
  save_aux = λ s sender v k new h. record {
    bval_senders = h.bval_senders;
    aux_senders = insert-Distinct sender.address v s.aux_repo h.aux_senders;
    bin_values = h.bin_values;
    relayed = h.relayed;
  };
  add_bin_value = λ s v e h. record {
    bval_senders = h.bval_senders;
    aux_senders = h.aux_senders;
    bin_values = union-kept _ v s.bin_value_set s.bval_repo (omega arith) h.bin_values;
    relayed = h.relayed;
  };
  add_broadcasted = λ s v e h. record {
    bval_senders = h.bval_senders;
    aux_senders = h.aux_senders;
    bin_values = h.bin_values;
    relayed = union-kept _ v s.broadcasted_bval_set s.bval_repo (omega arith) h.relayed;
  };
  decide = λ s b undone single coin h. h;
  advance = λ s h. empty-Quorum s.f;
}

module _ (json : Json) where
  run-Quorum :
      (n f : ℕ) (owner proposer : Member) (coin : ℕ → Binary) (es : List Event)
      → Quorum (final (run json es (new n f owner proposer coin)))
  unfolding new
  run-Quorum n f owner proposer coin es =
      run-keeps (Quorum-Rules json) es _ (events-Known (Quorum-Rules json) (λ _. tt) (λ _. tt) es)
        (empty-Quorum f)

  -- In every state that a new instance reaches by any schedule, however the last event ends: a
  -- value that is in `binValueSet` is the value of at least 2f + 1 saved BVALs, and no address
  -- has two of the saved BVALs.
  pub bin_value_quorum :
      (n f : ℕ) (owner proposer : Member) (coin : ℕ → Binary) (es : List Event) (v : Binary)
      → exist v (final (run json es (new n f owner proposer coin))).bin_value_set ≡ true
      → let s = final (run json es (new n f owner proposer coin)) in
        (2 * s.f + 1 ≤ count_by_value v s.bval_repo) × Distinct (keys s.bval_repo)
  bin_value_quorum n f owner proposer coin es v e =
      let h = run-Quorum n f owner proposer coin es in (h.bin_values v e, h.bval_senders)
