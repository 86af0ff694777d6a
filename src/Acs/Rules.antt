-- ===== src/Acs/Rules.antt =====
-- acs/acs.go: the writes that the handlers of an `ACS` make, with what the code has tested, as one
-- record, and the handlers of single results.
use cleisthenes.Base.{
  ℕ, ◌≤◌, ◌≡◌, inl, inr, true, false, not, some, [], GoMap, lookup, insert, length, ◌==◌, ltb,
  if_rule, Option-cases, arith,
}
use cleisthenes.Base.Go.{Outcome, done, fail, block, panic, final}
use cleisthenes.Binary
use cleisthenes.Binary.{Binary, BinaryState}
use cleisthenes.Member.{Member, member_eq, address_eq}
use cleisthenes.Rbc.Merkle.{Bytes}
use cleisthenes.Rbc.State.{Rbc}
use cleisthenes.Bba.State.{Bba}
use cleisthenes.Acs.State.{Error, BinaryStateMap, Acs}
use cleisthenes.Acs.Handlers.{
  ignored, place_rbc, place_bba, process_data, signal_agreement, process_agreement,
  count_success_done_agreement, agreement_threshold, count_done_agreement, agreed_node_list,
  collect, agreement_success,
}

-- The writes that send nothing to the owner.
pub record Writes (P : Acs → Type 0) : Type 0 where
  pub set_rbc_repo : (s : Acs) (repo : GoMap Member Rbc) → P s → P (record s { rbc_repo = repo })
  pub set_bba_repo : (s : Acs) (repo : GoMap Member Bba) → P s → P (record s { bba_repo = repo })
  pub save_data :
      (s : Acs) (m : Member) (bytes : Bytes) {old : Bytes}
      → lookup m s.broadcast_result ≡ some old
      → length old ≡ 0
      → P s
      → P (record s { broadcast_result = insert m bytes s.broadcast_result })
  pub save_agreement :
      (s : Acs) (m : Member) (bin : Binary) {state : BinaryState}
      → lookup m s.agreement_result ≡ some state
      → state.value ≡ false
      → P s
      → P (record s { agreement_result = insert m (Binary.set state bin) s.agreement_result })
  pub set_agreement_chan : (s : Acs) (k : ℕ) → P s → P (record s { agreement_chan = k })
  pub set_agreement_started :
      (s : Acs) (started : BinaryStateMap) → P s → P (record s { agreement_started = started })
  pub set_stop_flag : (s : Acs) → P s → P (record s { stop_flag = true })

-- All the writes.
pub record Rules (P : Acs → Type 0) : Type 0 where
  pub writes : Writes P
  pub send_batch :
      (s : Acs)
      → s.dec.value ≡ false
      → count_done_agreement s.agreement_result ≡ s.n
      → length (agreed_node_list s.agreement_result)
        ≡ length (collect s.broadcast_result (agreed_node_list s.agreement_result) [])
      → 1 ≤ length (collect s.broadcast_result (agreed_node_list s.agreement_result) [])
      → P s
      → P (
          agreement_success (collect s.broadcast_result (agreed_node_list s.agreement_result) []) s)

module _ {P : Acs → Type 0} (R : Writes P) where
  abbrev pub Ends : Outcome Error Acs (Unit {0}) → Type 0
  Ends o = P (final o)

  pub ignored-keeps : (o : Outcome Error Acs (Unit {0})) → Ends o → Ends (ignored o)
  ignored-keeps (done a s) h = h
  ignored-keeps (fail e s) h = h
  ignored-keeps (block s) h = h
  ignored-keeps (panic s) h = h

  pub place_bba-keeps :
      (m : Member) (o : Outcome _ Bba (Unit {0})) (s : Acs) → P s → Ends (place_bba m o s)
  place_bba-keeps m (done a b) s h = R.set_bba_repo s _ h
  place_bba-keeps m (fail e b) s h = R.set_bba_repo s _ h
  place_bba-keeps m (block b) s h = R.set_bba_repo s _ h
  place_bba-keeps m (panic b) s h = R.set_bba_repo s _ h

  pub call_bba-keeps :
      (m : Member) (o : Outcome _ Bba (Unit {0})) (s : Acs) → P s → Ends (ignored (place_bba m o s))
  call_bba-keeps m o s h = ignored-keeps (place_bba m o s) (place_bba-keeps m o s h)

  pub place_rbc-keeps :
      (m : Member) (o : Outcome _ Rbc (Unit {0})) (s : Acs) → P s → Ends (place_rbc m o s)
  place_rbc-keeps m (done a r) s h = R.set_rbc_repo s _ h
  place_rbc-keeps m (fail e r) s h = R.set_rbc_repo s _ h
  place_rbc-keeps m (block r) s h = R.set_rbc_repo s _ h
  place_rbc-keeps m (panic r) s h = R.set_rbc_repo s _ h

  pub process_data-keeps :
      (m : Member) (bytes : Bytes) (s : Acs) → P s → Ends (process_data m bytes s)
  unfolding process_data
  process_data-keeps m bytes s h = elim (Option-cases (lookup m s.broadcast_result)) [
    | inl absent ↦ rw (absent, process_data) h
    | inr (old, there) ↦
        rw (there, process_data)
          (if_rule Ends (not (length old == 0)) (λ _. h)
            (λ e. R.save_data s m bytes there (ground arith) h))
  ]

  signal_agreement-keeps : (s : Acs) → P s → Ends (signal_agreement s)
  unfolding signal_agreement
  signal_agreement-keeps s h =
      if_rule Ends (ltb s.agreement_chan s.n) (λ _. R.set_agreement_chan s _ h) (λ _. h)

  pub process_agreement-keeps :
      (m : Member) (bin : Binary) (s : Acs) → P s → Ends (process_agreement m bin s)
  unfolding process_agreement
  process_agreement-keeps m bin s h = elim (Option-cases (lookup m s.agreement_result)) [
    | inl absent ↦ rw (absent, process_agreement) h
    | inr (state, there) ↦
        rw (there, process_agreement)
          (if_rule Ends state.value (λ _. h)
            (λ fresh.
              let next = R.save_agreement s m bin there fresh h in
              let t = record s {
                agreement_result = insert m (Binary.set state bin) s.agreement_result;
              } in
              if_rule Ends
                (count_success_done_agreement t.agreement_result == agreement_threshold t)
                (λ _. signal_agreement-keeps t next) (λ _. next)))
  ]
