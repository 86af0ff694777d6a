-- ===== src/Bba/Support.antt =====
-- bba/bba.go: what `tryoutAgreement` decides on, and what it leaves for the next round.
use cleisthenes.Base.{
  ℕ, ◌*◌, ◌-◌, ◌≤◌, ◌<◌, ◌≡◌, refl, true, false, not, none, some, List, [], ◌∷◌, ◌++◌, length,
  lookup, insert, count_if-insert_new, bool_eq, arith,
}
use cleisthenes.Base.Go.{done, final}
use cleisthenes.Binary
use cleisthenes.Binary.{Binary, BinaryState}
use cleisthenes.Member.{Member, address_eq}
use cleisthenes.Bba.BinarySet.{to_list}
use cleisthenes.Bba.Request.{find_incoming, find, save_aux}
use cleisthenes.Bba.State.{Bba, inc, send_req, bval_type, send_tryout_agreement, send_advance_round}
use cleisthenes.Bba.Handlers.{
  Json, handle_aux_request, advance_round, handle_delayed_bval_request, send_delayed, handle_input,
  broadcast, type_of, marshal, handle_message, process_payload, share,
}
use cleisthenes.Bba.Local.{
  count_by_value, save_aux_if_not_exist, agreement_success, tryout_with, tryout_agreement,
}
use cleisthenes.Bba.Transport.{RoundTrips}

-- An undecided instance whose `binValueSet` has one value, the coin of the round.
pub record AgreesWithCoin (s : Bba) (v : Binary) : Type 0 where
  pub undecided : s.done.value ≡ false
  pub single : to_list s.bin_value_set ≡ v ∷ []
  pub coin : s.coin_generator s.round ≡ v
  pub free : length s.advance_round_chan < s.n * 4

tryout_agreement-decides :
    (s : Bba) (v : Binary)
    → AgreesWithCoin s v
    → tryout_agreement s
      ≡ done tt (record s {
        dec = record { value = v; undefined = false };
        done = record { value = true; undefined = false };
        bin_input = s.bin_input ++ record { member = s.proposer; binary = v } ∷ [];
        advance_round_chan = s.advance_round_chan ++ s.round ∷ [];
      })
unfolding tryout_agreement tryout_with agreement_success send_advance_round Binary.set
tryout_agreement-decides s v h =
    ground (arith, h.undecided, h.single, h.coin, h.free, bool_eq.beq_iff v v)

-- An instance that agrees with the coin on `v` decides `v` on the AUXs of n - f addresses for the
-- other value: the AUX that completes them makes it try, and it then decides, with no more AUXs for
-- `v` than it had.
pub decides_unsupported :
    (s : Bba) (sender : Member) (v : Binary)
    → AgreesWithCoin s v
    → lookup sender.address s.aux_repo ≡ none
    → s.n - s.f ≤ count_by_value (not v) (insert sender.address (not v) s.aux_repo)
    → length s.tryout_agreement_chan < s.n * 4
    → (t : Bba) × (u : Bba) × (handle_aux_request sender (not v) s ≡ done tt t)
      × (t.tryout_agreement_chan ≡ s.tryout_agreement_chan ++ s.round ∷ [])
      × (tryout_agreement t ≡ done tt u)
      × (u.done.value ≡ true)
      × (u.dec.value ≡ v)
      × (count_by_value v u.aux_repo ≡ count_by_value v s.aux_repo)
unfolding handle_aux_request save_aux_if_not_exist find save_aux send_tryout_agreement
decides_unsupported s sender v h new many free =
    let t = record s {
      aux_repo = insert sender.address (not v) s.aux_repo;
      tryout_agreement_chan = s.tryout_agreement_chan ++ s.round ∷ [];
    } in
    let decides =
      tryout_agreement-decides t v
        (record { undecided = h.undecided; single = h.single; coin = h.coin; free = h.free }) in
    (
      t,
      final (tryout_agreement t),
      ground (arith, new, many, free),
      refl,
      rw decides refl,
      rw decides refl,
      rw decides refl,
      rw decides
          (ground (arith, count_if-insert_new (bool_eq.beq v) sender.address (not v) s.aux_repo)),
    )

module _ (json : Json) where
  advance_round-shared :
      (s : Bba) (w : Binary)
      → RoundTrips json
      → s.est.value ≡ w
      → s.incoming_bval_repo ≡ []
      → s.req_chan ≡ []
      → s.req_chan_closed ≡ false
      → 0 < s.n
      → (p : List ℕ) × (json.marshal w ≡ some p)
        × ((final (advance_round json s)).shared
            ≡ s.shared
              ++ record {
                proposer = s.proposer;
                sender = s.owner;
                body = record { round = inc s.round; type = bval_type; payload = p };
              }
                ∷ [])
  unfolding advance_round handle_delayed_bval_request find_incoming send_delayed handle_input
      broadcast type_of marshal handle_message process_payload share send_req
  advance_round-shared s w trips estimated none_early idle open_chan some_nodes =
      let (p, there, back) = trips w in
      (p, there, ground (arith, there, back, estimated, none_early, idle, open_chan, some_nodes))

  -- Let an undecided instance agree with the coin on `v` while its estimate is the other value, with
  -- no request waiting and none early for the next round. It decides `v`, and the round after its
  -- decision it broadcasts a BVAL for the other value.
  pub decided_votes_against :
      (s : Bba) (v : Binary)
      → RoundTrips json
      → AgreesWithCoin s v
      → s.est.value ≡ not v
      → s.incoming_bval_repo ≡ []
      → s.req_chan ≡ []
      → s.req_chan_closed ≡ false
      → 0 < s.n
      → let t = final (tryout_agreement s) in
        (t.done.value ≡ true)
        × (t.dec.value ≡ v)
        × ((p : List ℕ) × (json.marshal (not v) ≡ some p)
            × ((final (advance_round json t)).shared
                ≡ s.shared
                  ++ record {
                    proposer = s.proposer;
                    sender = s.owner;
                    body = record { round = inc s.round; type = bval_type; payload = p };
                  }
                    ∷ []))
  decided_votes_against s v trips h estimated none_early idle open_chan some_nodes =
      let decides = tryout_agreement-decides s v h in
      rw decides (
        refl,
        refl,
        advance_round-shared _ (not v) trips estimated none_early idle open_chan some_nodes,
      )
