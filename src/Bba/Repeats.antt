-- ===== src/Bba/Repeats.antt =====
-- bba/bba.go: `handleBvalRequest` goes on when it does not save a BVAL, as if it had.
use cleisthenes.Base.{
  ℕ, zero, suc, ◌+◌, ◌*◌, ◌≡◌, refl, false, some, List, [], ◌∷◌, ◌++◌, length, length-append,
  replicate, lookup, arith,
}
use cleisthenes.Base.Go.{block}
use cleisthenes.Binary.{Binary}
use cleisthenes.Member.{Member, address_eq}
use cleisthenes.Bba.BinarySet.{union}
use cleisthenes.Bba.Request.{bval, find}
use cleisthenes.Bba.State.{BbaRequest, Bba, send_bin_value}
use cleisthenes.Bba.Handlers.{Json, after_bval, handle_bval_request, mux_request, mux_message}
use cleisthenes.Bba.Local.{count_by_value, save_bval_if_not_exist}
use cleisthenes.Bba.Run.{take_req, on_req, step, run}

-- What is repeated: a BVAL of the current round from a sender who has one saved, while exactly
-- 2f + 1 BVALs are saved for its value.
pub record Repeats (s : Bba) (sender : Member) (v w : Binary) : Type 0 where
  pub running : s.stop_flag ≡ false
  pub saved : lookup sender.address s.bval_repo ≡ some w
  pub count : count_by_value v s.bval_repo ≡ 2 * s.f + 1

abbrev pub bval_of : Member → ℕ → Binary → BbaRequest
bval_of sender round v = record { sender = sender; payload = bval v; round = round }

module _ (json : Json) where
  saved-mux_message :
      (s : Bba) (sender : Member) (v : Binary) {w : Binary}
      → lookup sender.address s.bval_repo ≡ some w
      → count_by_value v s.bval_repo ≡ 2 * s.f + 1
      → mux_message json sender s.round (bval v) s
        ≡ send_bin_value s.round (record s { bin_value_set = union v s.bin_value_set })
  unfolding mux_message mux_request handle_bval_request save_bval_if_not_exist after_bval find
  saved-mux_message s sender v saved count = ground (arith, saved, count)

  -- If the request channel starts with one BVAL more than `binValueChan` has free places, all of
  -- them repeats of the same sender while exactly 2f + 1 BVALs are saved for the value, then the
  -- goroutine, when it takes these requests first, blocks for ever on the channel that only it
  -- reads.
  pub repeated_bval_blocks :
      (free : ℕ) (s : Bba) (sender : Member) (v w : Binary) (rest : List BbaRequest)
      → Repeats s sender v w
      → length s.bin_value_chan + free ≡ s.n * 4
      → s.req_chan ≡ replicate (suc free) (bval_of sender s.round v) ++ rest
      → (t : Bba) × (run json (replicate (suc free) take_req) s ≡ block t)
  unfolding run step on_req send_bin_value
  repeated_bval_blocks zero s sender v w rest h full waiting =
      let s' = record s { req_chan = rest } in
      let e = saved-mux_message s' sender v {w = w} h.saved h.count in
      (
        record s' { bin_value_set = union v s.bin_value_set },
        ground (arith, h.running, waiting, e, full),
      )
  repeated_bval_blocks (suc free) s sender v w rest h full waiting =
      let next = replicate (suc free) (bval_of sender s.round v) ++ rest in
      let s' = record s { req_chan = next } in
      let e = saved-mux_message s' sender v {w = w} h.saved h.count in
      let u = record s' {
        bin_value_set = union v s.bin_value_set;
        bin_value_chan = s.bin_value_chan ++ s.round ∷ [];
      } in
      let (t, blocked) =
        repeated_bval_blocks free u sender v w rest
          (record { running = h.running; saved = h.saved; count = h.count })
          (omega (arith, length-append s.bin_value_chan (s.round ∷ []), full)) refl in
      (t, ground (arith, h.running, waiting, e, full, blocked))
