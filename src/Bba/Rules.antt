-- ===== src/Bba/Rules.antt =====
-- A rule for invariants of bba/bba.go. `Rules Ok P` lists every write that the handlers make,
-- with what the code has tested when it makes it; `P` then holds after every step. `Ok` is what
-- is known of the requests that wait in the instance's channel and in its repositories, `In` of
-- the values that it is given as input.
use cleisthenes.Base.{ℕ, ◌≡◌, true, false, List, [], ◌∷◌, ◌++◌, none, some, All, lookup, insert}
use cleisthenes.Binary.{Binary, BinaryState}
use cleisthenes.Member.{Member, address_eq}
use cleisthenes.Bba.BinarySet.{new_binary_set, exist, union, to_list}
use cleisthenes.Bba.Request.{Request, bval, aux, ok, new_req_repository, IncomingRequest}
use cleisthenes.Bba.State.{
  BbaRequest, BbaType, BbaMessage, Bba, inc, bval_broadcast_threshold, bin_value_set_threshold,
}
use cleisthenes.Bba.Handlers.{Json, type_of, marshal, process_payload}
use cleisthenes.Bba.Local.{count_by_value}

-- The request that a saved one is turned back into.
abbrev pub request_of : IncomingRequest → BbaRequest
request_of ir = record { sender = record { address = ir.addr }; payload = ir.req; round = ir.round }

abbrev pub decided : Binary → Bba → Bba
decided b s = record s {
  dec = record { value = b; undefined = false };
  done = record { value = true; undefined = false };
  bin_input = s.bin_input ++ record { member = s.proposer; binary = b } ∷ [];
}

-- The fields that `advanceRound` resets, and the next round.
abbrev pub advanced : Bba → Bba
advanced s = record s {
  bval_repo = new_req_repository;
  aux_repo = new_req_repository;
  bin_value_set = new_binary_set;
  broadcasted_bval_set = new_binary_set;
  aux_broadcasted = record { value = false; undefined = true };
  round = inc s.round;
}

-- Why an instance broadcasts a request: a BVAL for its estimate or for a value that it relays, an
-- AUX for a value of `binValueSet`.
pub data Reason (s : Bba) : Request → Type 0 where
  estimate : Reason s (bval s.est.value)
  relay : (v : Binary) → exist v s.broadcasted_bval_set ≡ true → Reason s (bval v)
  support : (v : Binary) → Reason s (aux v)

pub record Rules (json : Json) (In : Binary → Type 0) (Ok : BbaRequest → Type 0) (P : Bba → Type 0)
    : Type 0 where
  pub own :
      (s : Bba) {req : Request}
      → Reason s req
      → P s
      → Ok (record { sender = s.owner; payload = req; round = s.round })
  -- What the instance decodes from its own message
  pub own_decoded :
      (s : Bba) {req req' : Request} {typ : BbaType} {p : List ℕ} {round : ℕ}
      → Reason s req
      → type_of req ≡ some typ
      → marshal json req ≡ some p
      → process_payload s.round typ (json.unmarshal p) ≡ ok (req', round)
      → P s
      → Ok (record { sender = s.owner; payload = req'; round = s.round })
  pub push :
      (s : Bba) (r : BbaRequest) → Ok r → P s → P (record s { req_chan = s.req_chan ++ r ∷ [] })
  pub pop :
      (s : Bba) (r : BbaRequest) (rs : List BbaRequest)
      → s.req_chan ≡ r ∷ rs
      → P s
      → P (record s { req_chan = rs }) × Ok r
  pub keep_bval :
      (s : Bba) (ir : IncomingRequest)
      → Ok (request_of ir)
      → P s
      → P (record s { incoming_bval_repo = s.incoming_bval_repo ++ ir ∷ [] })
  pub keep_aux :
      (s : Bba) (ir : IncomingRequest)
      → Ok (request_of ir)
      → P s
      → P (record s { incoming_aux_repo = s.incoming_aux_repo ++ ir ∷ [] })
  pub kept_bval : (s : Bba) → P s → All (λ ir. Ok (request_of ir)) s.incoming_bval_repo
  pub kept_aux : (s : Bba) → P s → All (λ ir. Ok (request_of ir)) s.incoming_aux_repo
  pub set_bin_value_chan : (s : Bba) (q : List ℕ) → P s → P (record s { bin_value_chan = q })
  pub set_tryout_agreement_chan :
      (s : Bba) (q : List ℕ) → P s → P (record s { tryout_agreement_chan = q })
  pub set_advance_round_chan :
      (s : Bba) (q : List ℕ) → P s → P (record s { advance_round_chan = q })
  -- `from` is the state in which the broadcast began: since then the request may have been queued.
  pub share :
      (from s : Bba) (req : Request) {typ : BbaType} {p : List ℕ}
      → P from
      → Ok (record { sender = from.owner; payload = req; round = from.round })
      → type_of req ≡ some typ
      → marshal json req ≡ some p
      → P s
      → let msg : BbaMessage = record { round = from.round; type = typ; payload = p } in
        P (record s {
          shared = s.shared ++ record { proposer = s.proposer; sender = s.owner; body = msg } ∷ [];
        })
  pub take_input :
      (s : Bba) (v : Binary)
      → In v
      → P s
      → P (record s { est = record { value = v; undefined = false } })
  pub next_input : (s : Bba) → P s → In s.est.value
  pub fail_single :
      (s : Bba) (b : Binary)
      → to_list s.bin_value_set ≡ b ∷ []
      → P s
      → P (record s { est = record { value = b; undefined = false } })
  pub fail_several :
      (s : Bba) (b c : Binary) (bs : List Binary)
      → to_list s.bin_value_set ≡ b ∷ c ∷ bs
      → P s
      → P (record s { est = record { value = s.coin_generator s.round; undefined = false } })
  pub set_aux_broadcasted : (s : Bba) (b : BinaryState) → P s → P (record s { aux_broadcasted = b })
  pub set_stopped : (s : Bba) → P s → P (record s { stop_flag = true; req_chan_closed = true })
  -- One request of each sender is saved.
  pub save_bval :
      (s : Bba) (sender : Member) (v : Binary)
      → Ok (record { sender = sender; payload = bval v; round = s.round })
      → lookup sender.address s.bval_repo ≡ none
      → P s
      → P (record s { bval_repo = insert sender.address v s.bval_repo })
  pub save_aux :
      (s : Bba) (sender : Member) (v : Binary)
      → Ok (record { sender = sender; payload = aux v; round = s.round })
      → lookup sender.address s.aux_repo ≡ none
      → P s
      → P (record s { aux_repo = insert sender.address v s.aux_repo })
  pub add_bin_value :
      (s : Bba) (v : Binary)
      → count_by_value v s.bval_repo ≡ bin_value_set_threshold s
      → P s
      → P (record s { bin_value_set = union v s.bin_value_set })
  pub add_broadcasted :
      (s : Bba) (v : Binary)
      → count_by_value v s.bval_repo ≡ bval_broadcast_threshold s
      → P s
      → P (record s { broadcasted_bval_set = union v s.broadcasted_bval_set })
  pub decide :
      (s : Bba) (b : Binary)
      → s.done.value ≡ false
      → to_list s.bin_value_set ≡ b ∷ []
      → b ≡ s.coin_generator s.round
      → P s
      → P (decided b s)
  pub advance : (s : Bba) → P s → P (advanced s)
