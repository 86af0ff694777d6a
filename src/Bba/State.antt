-- ===== src/Bba/State.antt =====
-- bba/bba.go: the state of a `BBA`, its channels and its constructor. The tracer, the locks and
-- the handshake over `closeChan` are left out. A channel is its buffer, oldest first, and its
-- capacity follows from `n`; `shared` and `bin_input` log what the instance hands to its
-- broadcaster and to its owner's binary channel.
use Prim.Native.Nat.{ℕ, ◌+◌, ◌*◌, ◌-◌, ◌%◌, ◌^◌}
use cleisthenes.Base.{◌==◌, ◌&&◌, Bool, false, List, [], ◌∷◌, ◌++◌, length, ltb, if◌then◌else◌}
use cleisthenes.Base.Go.{Outcome, Go, block, panic}
use cleisthenes.Binary.{Binary, BinaryState}
use cleisthenes.Binary
use cleisthenes.Member.{Member}
use cleisthenes.Bba.BinarySet.{BinarySet, new_binary_set}
use cleisthenes.Bba.Request.{
  Request, Error, ReqRepository, new_req_repository, new_aux_req_repository,
  IncomingRequestRepository,
}

-- `request`
pub record BbaRequest : Type 0 where
  pub sender : Member
  pub payload : Request
  pub round : ℕ

-- `pb.BBAType`: an enumeration over int32, so other numbers can arrive.
pub data BbaType : Type 0 where
  bval_type aux_type : BbaType
  unknown_type : ℕ → BbaType

-- `pb.BBA`
pub record BbaMessage : Type 0 where
  pub round : ℕ  -- uint64
  pub type : BbaType
  pub payload : List ℕ

-- `pb.Message` as `broadcast` builds it, less its timestamp
pub record SharedMessage : Type 0 where
  pub proposer : Member
  pub sender : Member
  pub body : BbaMessage

-- `BinaryMessage`
pub record BinaryMessage : Type 0 where
  pub member : Member
  pub binary : Binary

pub record Bba : Type 0 where
  pub owner : Member
  pub proposer : Member
  pub n : ℕ
  pub f : ℕ
  pub stop_flag : Bool
  pub done : BinaryState
  pub round : ℕ  -- uint64
  pub bin_value_set : BinarySet
  pub broadcasted_bval_set : BinarySet
  pub est : BinaryState
  pub dec : BinaryState
  pub aux_broadcasted : BinaryState
  pub bval_repo : ReqRepository
  pub aux_repo : ReqRepository
  pub incoming_bval_repo : IncomingRequestRepository
  pub incoming_aux_repo : IncomingRequestRepository
  pub req_chan : List BbaRequest
  pub req_chan_closed : Bool
  pub bin_value_chan : List ℕ
  pub tryout_agreement_chan : List ℕ
  pub advance_round_chan : List ℕ
  pub shared : List SharedMessage
  pub bin_input : List BinaryMessage
  pub coin_generator : ℕ → Binary

-- `New`, with the coin generator as an argument: the source takes the one of its test mocks.
unfoldable pub new : ℕ → ℕ → Member → Member → (ℕ → Binary) → Bba
unfolding Binary.new
new n f owner proposer coin = record {
  owner = owner;
  proposer = proposer;
  n = n;
  f = f;
  stop_flag = false;
  done = Binary.new;
  round = 1;
  bin_value_set = new_binary_set;
  broadcasted_bval_set = new_binary_set;
  est = Binary.new;
  dec = Binary.new;
  aux_broadcasted = Binary.new;
  bval_repo = new_req_repository;
  aux_repo = new_aux_req_repository;
  incoming_bval_repo = [];
  incoming_aux_repo = [];
  req_chan = [];
  req_chan_closed = false;
  bin_value_chan = [];
  tryout_agreement_chan = [];
  advance_round_chan = [];
  shared = [];
  bin_input = [];
  coin_generator = coin;
}

abbrev pub BbaGo : Type 0 → Type 0
BbaGo A = Go Error Bba A

-- `bba.reqChan <- r`: a send on a full channel waits, and one on a closed channel panics.
unfoldable pub send_req : BbaRequest → BbaGo (Unit {0})
send_req r s =
    if s.req_chan_closed
    then panic s
    else if ltb (length s.req_chan) (s.n * 8)
    then Outcome.done tt (record s { req_chan = s.req_chan ++ r ∷ [] })
    else block s

-- `bba.binValueChan <- r`
unfoldable pub send_bin_value : ℕ → BbaGo (Unit {0})
send_bin_value r s =
    if ltb (length s.bin_value_chan) (s.n * 4)
    then Outcome.done tt (record s { bin_value_chan = s.bin_value_chan ++ r ∷ [] })
    else block s

-- `bba.tryoutAgreementChan <- r`
unfoldable pub send_tryout_agreement : ℕ → BbaGo (Unit {0})
send_tryout_agreement r s =
    if ltb (length s.tryout_agreement_chan) (s.n * 4)
    then Outcome.done tt (record s { tryout_agreement_chan = s.tryout_agreement_chan ++ r ∷ [] })
    else block s

-- `bba.advanceRoundChan <- r`
unfoldable pub send_advance_round : ℕ → BbaGo (Unit {0})
send_advance_round r s =
    if ltb (length s.advance_round_chan) (s.n * 4)
    then Outcome.done tt (record s { advance_round_chan = s.advance_round_chan ++ r ∷ [] })
    else block s

-- `bba.round.inc()`: the counter is a uint64.
unfoldable pub inc : ℕ → ℕ
inc val = (val + 1) % 2 ^ 64

-- `bvalBroadcastThreshold`
abbrev pub bval_broadcast_threshold : Bba → ℕ
bval_broadcast_threshold s = s.f + 1

-- `binValueSetThreshold`
abbrev pub bin_value_set_threshold : Bba → ℕ
bin_value_set_threshold s = 2 * s.f + 1

-- `tryoutAgreementThreshold`: a count is below `n - f` in Go's integers if and only if it is
-- below this difference, which stops at 0.
abbrev pub tryout_agreement_threshold : Bba → ℕ
tryout_agreement_threshold s = s.n - s.f

-- `Idle`
unfoldable pub idle : Bba → Bool
idle s = s.round == 1 && s.est.undefined
