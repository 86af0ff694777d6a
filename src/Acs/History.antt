-- ===== src/Acs/History.antt =====
-- acs/acs.go: the batches that an `ACS` sends, over all its histories.
mod Sends
use cleisthenes.Base.{
  true, ℕ, ◌≤◌, ◌≡◌, inl, inr, refl, sym, subst, Bool, false, Option, some, List, [], ◌∷◌, ◌++◌,
  keys, ap, ◌∙◌, not, ◌&&◌, ◌||◌, ◌==◌, if_rule, Distinct, insert-Distinct, length, length-append,
  All, All-map, Option-cases, if◌then◌else◌, arith,
}
use mathlib.Core.Option.{some-injective}
use mathlib.Core.List.{append-nil}
use cleisthenes.Rbc.Merkle.{Bytes}
use cleisthenes.Base.Go.{Outcome, final, after-final_to}
use cleisthenes.Base.History.{Grown, run-Added}
use cleisthenes.Binary
use cleisthenes.Binary.{Binary, BinaryState}
use cleisthenes.Member.{Member, MemberMap, member_eq, address_eq, members}
use cleisthenes.Rbc.State.{Rbc}
use cleisthenes.Bba.State.{Bba}
use cleisthenes.Honeybadger.{BatchMessage}
use cleisthenes.Acs.State.{
  Error, RbcOps, BbaOps, BinaryStateMap, BroadcastDataMap, Acs, with_member, add_members, new,
}
use cleisthenes.Acs.Handlers.{
  count_done_agreement, agreed_node_list, collect, agreement_success, try_complete_agreement,
  ignored, process_data, process_agreement, try_agreement_start, handle_message, handle_input,
}
use cleisthenes.Acs.Run.{
  Event, request, data_output, agreement, binary_output, input, close, on_data, on_agreement,
  on_binary, step, run,
}
use cleisthenes.Acs.Completion.{BatchOf, complete-BatchOf}
use cleisthenes.Acs.Rules.{
  Writes, Rules, ignored-keeps, process_data-keeps, process_agreement-keeps,
}
use cleisthenes.Acs.Members.{add_members-few}
use cleisthenes.Acs.Keeps.{
  run-keeps, try_agreement_start-keeps, handle_message-keeps, handle_input-keeps,
  on_agreement-keeps,
}
use Sends.{Tested, step-SendsTested}

record CompleteOf (n nodes : ℕ) (dec : Bool) (results : BinaryStateMap)
    (batches : List BatchMessage) : Type 0 where
  pub same_n : nodes ≡ n
  pub members_differ : Distinct (keys results)
  pub sent : length batches ≡ (if dec then 1 else 0)

module _ (n : ℕ) where
  abbrev Complete : Acs → Type 0
  Complete s = CompleteOf n s.n s.dec.value s.agreement_result s.batches

  send_batch-Complete :
      (s : Acs) (batch : BroadcastDataMap)
      → s.dec.value ≡ false
      → Complete s
      → Complete (agreement_success batch s)
  unfolding agreement_success
  send_batch-Complete s batch undone h =
      let none_yet : length s.batches ≡ 0 = ground (arith, h.sent) in
      record {
        same_n = h.same_n;
        members_differ = h.members_differ;
        sent = omega (arith, length-append {0} s.batches, none_yet);
      }

  Complete-Rules : Rules Complete
  Complete-Rules = record {
    writes = record {
      set_rbc_repo = λ s repo h. h;
      set_bba_repo = λ s repo h. h;
      save_data = λ s m bytes there empty h. h;
      save_agreement = λ s m bin {state} there open_state h. record {
        same_n = h.same_n;
        members_differ = insert-Distinct m _ s.agreement_result h.members_differ;
        sent = h.sent;
      };
      set_agreement_chan = λ s k h. h;
      set_agreement_started = λ s started h. h;
      set_stop_flag = λ s h. h;
    };
    send_batch = λ s undone all full one h. send_batch-Complete s _ undone h;
  }

  add_members-Complete :
      (make_rbc : Member → Option Rbc) (make_bba : Member → Bba) (ms : List Member) (s : Acs)
      {t : Acs}
      → Complete s
      → add_members make_rbc make_bba ms s ≡ some t
      → Complete t
  unfolding add_members
  add_members-Complete make_rbc make_bba [] s {t} h e = subst Complete (some-injective _ _ e) h
  add_members-Complete make_rbc make_bba (m ∷ ms) s {t} h e = elim (Option-cases (make_rbc m)) [
    | inl refused ↦ absurd (ground arith)
    | inr (r, made) ↦
        add_members-Complete make_rbc make_bba ms (with_member m r (make_bba m) s) {t = t}
          (record {
            same_n = h.same_n;
            members_differ = insert-Distinct m Binary.new s.agreement_result h.members_differ;
            sent = h.sent;
          })
          (ground (arith, made))
  ]

module _ (rbc_ops : RbcOps) (bba_ops : BbaOps) where
  module _ (n : ℕ) (s : Acs) (start : Complete n s) where
    Tested-BatchOf :
        (before : List Event) (msg : BatchMessage)
        → Tested (final (run rbc_ops bba_ops before s)) msg
        → BatchOf n (final (run rbc_ops bba_ops before s)) msg.batch
    Tested-BatchOf before msg (made, all, full, one) =
        let t = final (run rbc_ops bba_ops before s) in
        let h = run-keeps (Complete-Rules n) rbc_ops bba_ops before s start in
        subst (λ k. BatchOf k t msg.batch) h.same_n
          (subst (BatchOf t.n t) (sym made) (complete-BatchOf t h.members_differ all full one))

    batches-BatchOf :
        (es : List Event)
        → s.batches ≡ []
        → All
            (λ msg.
              (before : List Event) × (later : List Event) × (before ++ later ≡ es)
              × BatchOf n (final (run rbc_ops bba_ops before s)) msg.batch)
            (final (run rbc_ops bba_ops es s)).batches
    unfolding run
    batches-BatchOf es none_yet =
        let (new, grown, made) =
          run-Added (step rbc_ops bba_ops) (run rbc_ops bba_ops) (λ (t : Acs). t.batches) Tested
            (λ t. refl) (λ e es t. refl) (step-SendsTested rbc_ops bba_ops) es s in
        subst (All _) (sym (grown ∙ ap (λ l. l ++ new) none_yet)) (
          All-map _ _
            (λ msg (before, later, same, tested).
              (before, later, same, Tested-BatchOf before msg tested))
            new made)

-- A new `ACS`, after any history of requests, inputs, results of its instances and signals, has sent
-- no batch if it has not recorded a decision, and exactly one if it has. Each batch is the one that
-- the results and the data make which the `ACS` has after some first events of the history: then
-- `n` members are decided, at least one of them for One, and the batch holds the data of exactly
-- the members with One, which all have data that is not empty.
pub run-Complete :
    (rbc_ops : RbcOps) (bba_ops : BbaOps) (make_rbc : Member → Option Rbc) (make_bba : Member → Bba)
    (n f : ℕ) (owner : Member) (member_map : MemberMap) {s : Acs} (es : List Event)
    → new make_rbc make_bba n f owner member_map ≡ some s
    → let t = final (run rbc_ops bba_ops es s) in
      (length t.batches ≡ (if t.dec.value then 1 else 0))
      × All
          (λ msg.
            (before : List Event) × (later : List Event) × (before ++ later ≡ es)
            × BatchOf n (final (run rbc_ops bba_ops before s)) msg.batch)
          t.batches
unfolding new
run-Complete rbc_ops bba_ops make_rbc make_bba n f owner member_map {s} es e =
    let start =
      add_members-Complete n make_rbc make_bba (members member_map) _
        (record { same_n = refl; members_differ = tt; sent = refl }) e in
    let (fits, same, none_yet) = add_members-few make_rbc make_bba (members member_map) _ e in
    (
      (run-keeps (Complete-Rules n) rbc_ops bba_ops es s start).sent,
      batches-BatchOf rbc_ops bba_ops n s start es none_yet,
    )
