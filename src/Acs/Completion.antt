-- ===== src/Acs/Completion.antt =====
-- acs/acs.go: `tryCompleteAgreement`, when it sends a batch and what is in it.
use cleisthenes.Base.{
  ℕ, ◌≤◌, ◌≡◌, refl, true, false, none, some, [], ◌∷◌, ◌++◌, keys, Distinct, lookup, length,
  All-always, if◌then◌else◌, arith,
}
use cleisthenes.Member.{Member, member_eq}
use cleisthenes.Honeybadger.{BatchMessage}
use cleisthenes.Acs.State.{BinaryStateMap, BroadcastDataMap, item, data_item, Acs}
use cleisthenes.Acs.Handlers.{
  count_done_agreement, agreed_node_list, collect, agreement_success, try_complete_agreement,
}
use cleisthenes.Acs.Batch.{
  agreed_node_list-item, agreed_node_list-Distinct, Delivered, collect-Delivered, collect-lookup,
  collect-length,
}

-- The batch is the one that the results and the data of the `ACS` make: there are `n` decisions
-- under as many members, One for at least one of them, and all the members with One have data. The
-- batch has the data of each of them, and nothing else.
pub record BatchOf (n : ℕ) (s : Acs) (batch : BroadcastDataMap) : Type 0 where
  pub members_differ : Distinct (keys s.agreement_result)
  pub all_done : count_done_agreement s.agreement_result ≡ n
  pub delivered : Delivered s.broadcast_result (agreed_node_list s.agreement_result)
  pub agreed_some : 1 ≤ length batch
  pub contents :
      (k : Member)
      → lookup k batch ≡ (
          if (item k s.agreement_result).value then some (data_item k s.broadcast_result) else none)

collected :
    (results : BinaryStateMap) (items : BroadcastDataMap) (k : Member)
    → Distinct (keys results)
    → Delivered items (agreed_node_list results)
    → lookup k (collect items (agreed_node_list results) [])
      ≡ (if (item k results).value then some (data_item k items) else none)
unfolding lookup
collected results items k d h = ground (
  arith,
  collect-lookup items (agreed_node_list results) [] k h,
  agreed_node_list-item k results d,
)

-- What the tests of `tryCompleteAgreement` say of the batch that it then sends.
pub complete-BatchOf :
    (s : Acs)
    → Distinct (keys s.agreement_result)
    → count_done_agreement s.agreement_result ≡ s.n
    → length (agreed_node_list s.agreement_result)
      ≡ length (collect s.broadcast_result (agreed_node_list s.agreement_result) [])
    → 1 ≤ length (collect s.broadcast_result (agreed_node_list s.agreement_result) [])
    → BatchOf s.n s (collect s.broadcast_result (agreed_node_list s.agreement_result) [])
complete-BatchOf s d all full one =
    let agreed = agreed_node_list s.agreement_result in
    let h : Delivered s.broadcast_result agreed =
      collect-Delivered s.broadcast_result agreed [] (omega (arith, full)) in
    record {
      members_differ = d;
      all_done = all;
      delivered = h;
      agreed_some = one;
      contents = λ k. collected s.agreement_result s.broadcast_result k d h;
    }

-- If no batch was sent, all `n` agreements are decided, One for at least one member, and every
-- member with One has data, then `tryCompleteAgreement` sends one batch and records it: the data
-- of exactly the members with One.
pub try_complete_agreement-sends :
    (s : Acs)
    → s.dec.value ≡ false
    → Distinct (keys s.agreement_result)
    → count_done_agreement s.agreement_result ≡ s.n
    → 1 ≤ length (agreed_node_list s.agreement_result)
    → Delivered s.broadcast_result (agreed_node_list s.agreement_result)
    → (msg : BatchMessage) × ((try_complete_agreement s).batches ≡ s.batches ++ msg ∷ [])
      × ((try_complete_agreement s).dec.value ≡ true)
      × ((k : Member)
          → lookup k msg.batch ≡ (
              if (item k s.agreement_result).value
              then some (data_item k s.broadcast_result)
              else none))
unfolding try_complete_agreement agreement_success
try_complete_agreement-sends s undone d all one h =
    let agreed = agreed_node_list s.agreement_result in
    let full =
      collect-length s.broadcast_result agreed [] h (agreed_node_list-Distinct _ d)
        (All-always (λ k. refl) agreed) in
    (
      record { epoch = 0; batch = collect s.broadcast_result agreed [] },
      ground (arith, full),
      ground (arith, full),
      λ k. collected s.agreement_result s.broadcast_result k d h,
    )
