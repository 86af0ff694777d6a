-- ===== src/Acs/History/Sends.antt =====
-- acs/acs.go: what one event adds to the batches that an `ACS` has sent.
use cleisthenes.Base.{
  true, ◌≤◌, ◌≡◌, refl, sym, List, [], ◌∷◌, ◌++◌, ap, ◌∙◌, not, ◌&&◌, ◌||◌, ◌==◌, if_rule, length,
  arith,
}
use mathlib.Core.List.{append-nil}
use cleisthenes.Base.Go.{Outcome, final, after-final_to}
use cleisthenes.Base.History.{Grown}
use cleisthenes.Member.{member_eq, address_eq}
use cleisthenes.Honeybadger.{BatchMessage}
use cleisthenes.Acs.State.{Error, RbcOps, BbaOps, Acs}
use cleisthenes.Acs.Handlers.{
  count_done_agreement, agreed_node_list, collect, agreement_success, try_complete_agreement,
  ignored, process_data, process_agreement, try_agreement_start, handle_message, handle_input,
}
use cleisthenes.Acs.Run.{
  Event, request, data_output, agreement, binary_output, input, close, on_data, on_agreement,
  on_binary, step, run,
}
use cleisthenes.Acs.Rules.{Writes, ignored-keeps, process_data-keeps, process_agreement-keeps}
use cleisthenes.Acs.Keeps.{
  try_agreement_start-keeps, handle_message-keeps, handle_input-keeps, on_agreement-keeps,
}

-- The batch passed the tests of `tryCompleteAgreement` in the state, and is what it made of it.
abbrev pub Tested : Acs → BatchMessage → Type 0
Tested s msg =
    let agreed = agreed_node_list s.agreement_result in
    let result = collect s.broadcast_result agreed [] in
    (msg.batch ≡ result)
    × (count_done_agreement s.agreement_result ≡ s.n)
    × (length agreed ≡ length result)
    × (1 ≤ length result)

module _ (rbc_ops : RbcOps) (bba_ops : BbaOps) where
  abbrev pub SendsTested : List BatchMessage → Acs → Type 0
  SendsTested = Grown (step rbc_ops bba_ops) (run rbc_ops bba_ops) (λ (s : Acs). s.batches) Tested

  abbrev Same : List BatchMessage → Acs → Type 0
  Same old s = s.batches ≡ old

  Same-Writes : (old : List BatchMessage) → Writes (Same old)
  Same-Writes old = record {
    set_rbc_repo = λ s repo h. h;
    set_bba_repo = λ s repo h. h;
    save_data = λ s m bytes there empty h. h;
    save_agreement = λ s m bin there open_state h. h;
    set_agreement_chan = λ s k h. h;
    set_agreement_started = λ s started h. h;
    set_stop_flag = λ s h. h;
  }

  Same-SendsTested : (old : List BatchMessage) (s : Acs) → Same old s → SendsTested old s
  Same-SendsTested old s h = ([], h ∙ sym (append-nil old), tt)

  try_complete_agreement-SendsTested :
      (old : List BatchMessage) (s : Acs) → Same old s → SendsTested old (try_complete_agreement s)
  unfolding try_complete_agreement agreement_success
  try_complete_agreement-SendsTested old s h =
      let agreed = agreed_node_list s.agreement_result in
      let result = collect s.broadcast_result agreed [] in
      let quiet = Same-SendsTested old s h in
      if_rule (SendsTested old)
        (s.dec.value || not (count_done_agreement s.agreement_result == s.n)) (λ _. quiet)
        (λ undone.
          if_rule (SendsTested old) (length agreed == length result && not (length result == 0))
            (λ full. (
              record { epoch = 0; batch = result } ∷ [],
              ap (λ l. l ++ record { epoch = 0; batch = result } ∷ []) h,
              ((refl, ground arith, ground arith, ground arith), tt),
            ))
            (λ _. quiet))

  abbrev Ends : List BatchMessage → Outcome Error Acs (Unit {0}) → Type 0
  Ends old o = SendsTested old (final o)

  pub step-SendsTested :
      (e : Event) (s : Acs) → SendsTested s.batches (final (step rbc_ops bba_ops e s))
  unfolding step on_data on_binary
  step-SendsTested (data_output m bytes) s =
      let W = Same-Writes s.batches in
      let quiet = Same-SendsTested s.batches in
      if_rule (Ends s.batches) s.stop_flag (λ _. quiet s refl)
        (λ _.
          after-final_to (Same s.batches) (SendsTested s.batches) (process_data m bytes s) _ quiet
            (process_data-keeps W m bytes s refl)
            (λ _ t k.
              after-final_to (Same s.batches) (SendsTested s.batches)
                (try_agreement_start bba_ops m t) _ quiet
                (try_agreement_start-keeps W bba_ops m t k)
                (λ _ u j. try_complete_agreement-SendsTested s.batches u j)))
  step-SendsTested (binary_output m bin) s =
      let W = Same-Writes s.batches in
      let quiet = Same-SendsTested s.batches in
      if_rule (Ends s.batches) s.stop_flag (λ _. quiet s refl)
        (λ _.
          after-final_to (Same s.batches) (SendsTested s.batches) (process_agreement m bin s) _
            quiet (process_agreement-keeps W m bin s refl)
            (λ _ t k. try_complete_agreement-SendsTested s.batches t k))
  step-SendsTested (request sender msg) s =
      let W = Same-Writes s.batches in
      let o = ignored (handle_message rbc_ops bba_ops sender msg s) in
      if_rule (Ends s.batches) s.stop_flag (λ _. Same-SendsTested s.batches s refl)
        (λ _. Same-SendsTested s.batches (final o) (
          ignored-keeps W (handle_message rbc_ops bba_ops sender msg s)
            (handle_message-keeps W rbc_ops bba_ops sender msg s refl)))
  step-SendsTested agreement s =
      let W = Same-Writes s.batches in
      if_rule (Ends s.batches) s.stop_flag (λ _. Same-SendsTested s.batches s refl)
        (λ _.
          Same-SendsTested s.batches (final (on_agreement rbc_ops bba_ops s.agreement_chan s))
            (on_agreement-keeps W rbc_ops bba_ops s.agreement_chan s refl))
  step-SendsTested (input bytes) s =
      let W = Same-Writes s.batches in
      Same-SendsTested s.batches (final (ignored (handle_input rbc_ops bytes s)))
        (ignored-keeps W (handle_input rbc_ops bytes s) (handle_input-keeps W rbc_ops bytes s refl))
  step-SendsTested close s = Same-SendsTested s.batches (record s { stop_flag = true }) refl
