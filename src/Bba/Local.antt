-- ===== src/Bba/Local.antt =====
-- bba/bba.go: the methods of a `BBA` that send nothing to other nodes: what it saves, and the end of a
-- round.
use cleisthenes.Base.{
  ℕ, Bool, true, false, not, List, [], ◌∷◌, ◌++◌, count_if, ◌==◌, if◌then◌else◌, bool_eq,
}
use cleisthenes.Base.Go.{pure, done, fail}
use cleisthenes.Binary.{Binary, BinaryState}
use cleisthenes.Binary
use cleisthenes.Member.{Member}
use cleisthenes.Bba.BinarySet.{to_list}
use cleisthenes.Bba.Request.{
  Request, bval, aux, other, is_err_no_result, ok, err, ReqRepository, save_bval, save_aux, find,
  find_aux, find_all, save_incoming,
}
use cleisthenes.Bba.State.{Bba, BbaGo, send_advance_round}

-- `convToBvalList`, `convToAuxList` and the loops of `countBvalByValue` and `countAuxByValue`
abbrev pub count_by_value : Binary → ReqRepository → ℕ
count_by_value val r = count_if (bool_eq.beq val) (find_all r)

-- `saveBvalIfNotExist`
unfoldable pub save_bval_if_not_exist : Member → Binary → BbaGo (Unit {0})
unfolding find save_bval
save_bval_if_not_exist sender v s = elim (find sender.address s.bval_repo) [
  | ok _ ↦ done tt s
  | err e ↦
      if is_err_no_result e
      then elim (save_bval sender.address (bval v) s.bval_repo) [
        | ok r ↦ done tt (record s { bval_repo = r })
        | err e' ↦ fail e' s
      ]
      else fail e s
]

-- `saveAuxIfNotExist`
unfoldable pub save_aux_if_not_exist : Member → Binary → BbaGo (Unit {0})
unfolding find save_aux
save_aux_if_not_exist sender v s = elim (find_aux sender.address s.aux_repo) [
  | ok _ ↦ done tt s
  | err e ↦
      if is_err_no_result e
      then elim (save_aux sender.address (aux v) s.aux_repo) [
        | ok r ↦ done tt (record s { aux_repo = r })
        | err e' ↦ fail e' s
      ]
      else fail e s
]

-- `saveIncomingRequest`
unfoldable pub save_incoming_request : ℕ → Member → Request → BbaGo (Unit {0})
unfolding save_incoming
save_incoming_request round sender (bval v) s = done tt (record s {
  incoming_bval_repo = save_incoming round sender.address (bval v) s.incoming_bval_repo;
})
save_incoming_request round sender (aux v) s = done tt (record s {
  incoming_aux_repo = save_incoming round sender.address (aux v) s.incoming_aux_repo;
})
save_incoming_request round sender other s = done tt s

-- `matchWithCurrentRound`
abbrev pub match_with_current_round : ℕ → Bba → Bool
match_with_current_round r s = if not (r == s.round) then false else true

-- `agreementFailed`
unfoldable pub agreement_failed : Binary → BbaGo (Unit {0})
unfolding Binary.set
agreement_failed est_value s =
    send_advance_round s.round (record s { est = Binary.set s.est est_value })

-- `agreementSuccess`. The send to the owner's channel can block in the source; here it ends and is
-- logged.
unfoldable pub agreement_success : Binary → BbaGo (Unit {0})
unfolding Binary.set
agreement_success dec_value s =
    let t = record s { dec = Binary.set s.dec dec_value; done = Binary.set s.done true } in
    let u = record t {
      bin_input = t.bin_input ++ record { member = t.proposer; binary = t.dec.value } ∷ [];
    } in
    send_advance_round u.round u

-- What `tryoutAgreement` does with the list of binaries and the coin of the round.
unfoldable pub tryout_with : List Binary → Binary → BbaGo (Unit {0})
tryout_with [] coin = pure tt
tryout_with (b ∷ []) coin =
    if not (bool_eq.beq b coin) then agreement_failed b else agreement_success b
tryout_with (b ∷ c ∷ bs) coin = agreement_failed coin

-- `tryoutAgreement`
unfoldable pub tryout_agreement : BbaGo (Unit {0})
tryout_agreement s =
    if s.done.value
    then done tt s
    else tryout_with (to_list s.bin_value_set) (s.coin_generator s.round) s
