-- ===== src/Acs/Batch.antt =====
-- acs/acs.go: what the two loops of `tryCompleteAgreement` make of the results.
use cleisthenes.Base.{
  ℕ, suc, ◌+◌, ◌≤◌, ◌≡◌, refl, false, not, some, List, [], ◌∷◌, keys, contains, Distinct, lookup,
  insert, length, lookup-insert, lookup_absent, contains-insert, All, ◌==◌, if_rule, if◌then◌else◌,
  arith,
}
use cleisthenes.Member.{Member, member_eq, member_beq_iff}
use cleisthenes.Acs.State.{BinaryStateMap, BroadcastDataMap, item, data_item}
use cleisthenes.Acs.Handlers.{agreed_node_list, collect}

-- The members that were agreed on, for a map with one entry for each member
pub agreed_node_list-item :
    (k : Member) (results : BinaryStateMap)
    → Distinct (keys results)
    → contains k (agreed_node_list results) ≡ (item k results).value
unfolding agreed_node_list item lookup
agreed_node_list-item k [] d = refl
agreed_node_list-item k ((m, state) ∷ results) d =
    ground
      (arith, agreed_node_list-item k results d.1, lookup_absent m results d.0, member_beq_iff m k)

agreed-contains :
    (k : Member) (results : BinaryStateMap)
    → contains k (keys results) ≡ false
    → contains k (agreed_node_list results) ≡ false
unfolding agreed_node_list
agreed-contains k [] h = refl
agreed-contains k ((m, state) ∷ results) h = ground (arith, agreed-contains k results)

pub agreed_node_list-Distinct :
    (results : BinaryStateMap) → Distinct (keys results) → Distinct (agreed_node_list results)
unfolding agreed_node_list
agreed_node_list-Distinct [] d = tt
agreed_node_list-Distinct ((m, state) ∷ results) d =
    if_rule (λ l. Distinct {K = Member} l) state.value
      (λ _. (agreed-contains m results d.0, agreed_node_list-Distinct results d.1))
      (λ _. agreed_node_list-Distinct results d.1)

-- Every member of the list has data.
abbrev pub Delivered : BroadcastDataMap → List Member → Type 0
Delivered items = All (λ m. 1 ≤ length (data_item m items))

length-insert_le :
    (m : Member) (bytes : List ℕ) (acc : BroadcastDataMap)
    → length (insert m bytes acc) ≤ suc (length acc)
unfolding insert
length-insert_le m bytes [] = ground arith
length-insert_le m bytes ((j, w) ∷ acc) = ground (arith, length-insert_le m bytes acc)

length-collect :
    (items : BroadcastDataMap) (ms : List Member) (acc : BroadcastDataMap)
    → length (collect items ms acc) ≤ length acc + length ms
unfolding collect
length-collect items [] acc = omega arith
length-collect items (m ∷ ms) acc =
    let bytes = data_item m items in
    if_rule (λ next. length (collect items ms next) ≤ length acc + length (m ∷ ms))
      (not (length bytes == 0))
      (λ _.
        omega (arith, length-collect items ms (insert m bytes acc), length-insert_le m bytes acc))
      (λ _. omega (arith, length-collect items ms acc))

-- The collected map can only be as long as the list if every member of it has data.
pub collect-Delivered :
    (items : BroadcastDataMap) (ms : List Member) (acc : BroadcastDataMap)
    → length acc + length ms ≤ length (collect items ms acc)
    → Delivered items ms
unfolding collect
collect-Delivered items [] acc h = tt
collect-Delivered items (m ∷ ms) acc h =
    let bytes = data_item m items in
    if_rule
      (λ next.
        length acc + length (m ∷ ms) ≤ length (collect items ms next) → Delivered items (m ∷ ms))
      (not (length bytes == 0))
      (λ some_data full. (
        ground arith,
        collect-Delivered items ms (insert m bytes acc)
            (omega (arith, length-insert_le m bytes acc, full)),
      ))
      (λ no_data full. absurd (omega (arith, length-collect items ms acc, full))) h

-- What the collected map holds, if every member of the list has data
pub collect-lookup :
    (items : BroadcastDataMap) (ms : List Member) (acc : BroadcastDataMap) (k : Member)
    → Delivered items ms
    → lookup k (collect items ms acc)
      ≡ (if contains k ms then some (data_item k items) else lookup k acc)
unfolding collect
collect-lookup items [] acc k h = refl
collect-lookup items (m ∷ ms) acc k h =
    let bytes = data_item m items in
    ground (
      arith,
      h.0,
      collect-lookup items ms (insert m bytes acc) k h.1,
      lookup-insert m k bytes acc,
      member_beq_iff m k,
    )

length-insert_fresh :
    (m : Member) (bytes : List ℕ) (acc : BroadcastDataMap)
    → contains m (keys acc) ≡ false
    → length (insert m bytes acc) ≡ suc (length acc)
unfolding insert
length-insert_fresh m bytes [] h = refl
length-insert_fresh m bytes ((j, w) ∷ acc) h =
    ground (arith, length-insert_fresh m bytes acc, member_beq_iff j m)

-- None of the members is a key of the map.
abbrev Fresh : List Member → BroadcastDataMap → Type 0
Fresh ms acc = All (λ k. contains k (keys acc) ≡ false) ms

Fresh-insert :
    (m : Member) (bytes : List ℕ) (ms : List Member) (acc : BroadcastDataMap)
    → contains m ms ≡ false
    → Fresh ms acc
    → Fresh ms (insert m bytes acc)
Fresh-insert m bytes [] acc out h = tt
Fresh-insert m bytes (k ∷ ms) acc out h = (
  ground (arith, contains-insert m k bytes acc, member_beq_iff m k, member_beq_iff k m, h.0),
  Fresh-insert m bytes ms acc (ground arith) h.1,
)

pub collect-length :
    (items : BroadcastDataMap) (ms : List Member) (acc : BroadcastDataMap)
    → Delivered items ms
    → Distinct ms
    → Fresh ms acc
    → length (collect items ms acc) ≡ length acc + length ms
unfolding collect
collect-length items [] acc h d f = omega arith
collect-length items (m ∷ ms) acc h d f =
    let bytes = data_item m items in
    ground (
      arith,
      h.0,
      collect-length items ms (insert m bytes acc) h.1 d.1 (Fresh-insert m bytes ms acc d.0 f.1),
      length-insert_fresh m bytes acc f.0,
    )
