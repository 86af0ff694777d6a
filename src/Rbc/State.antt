-- ===== src/Rbc/State.antt =====
-- rbc/request.go and the data of rbc/rbc.go: requests, their repositories and the state of an
-- `RBC`. The locks are left out. `shared`, `distributed` and `data_sent` log what the instance
-- hands to its broadcaster and to its owner's data channel.
use cleisthenes.Base.{
  ℕ, ◌*◌, ◌-◌, ◌==◌, Bool, true, false, Option, none, some, List, [], GoMap, lookup, insert, values,
  map, if◌then◌else◌,
}
use cleisthenes.Base.Go.{Go}
use cleisthenes.Binary.{BinaryState}
use cleisthenes.Binary
use cleisthenes.Member.{Address, Member, address_eq}
use cleisthenes.Rbc.Merkle.{Bytes, Index, Data}

-- `ValRequest`; an `EchoRequest` holds one.
pub record ValRequest : Type 0 where
  pub root_hash : Bytes
  pub shard : Data
  pub root_path : List Bytes
  pub indexes : List Index

-- The values of the interface `Request`: `*ValRequest`, `*EchoRequest`, `*ReadyRequest`, others.
pub data Request : Type 0 where
  val echo : ValRequest → Request
  ready : Bytes → Request
  other : Request

-- The errors of request.go and error.go, and those that rbc.go makes where it returns them.
pub data Error : Type 0 where
  no_id_matching_request invalid_req_type invalid_rbc_type : Error
  invalid_message_type json_error encoder_error tree_error : Error
  already_received_val already_sent_echo invalid_val : Error
  already_received_echo invalid_echo already_received_ready : Error
  invalid_content_length : (known received : ℕ) → Error
  not_enough_shards : (minimum got : ℕ) → Error
  reconstruct_error : Error

pub data Result {ℓ} (A : Type ℓ) : Type ℓ where
  ok : A → Result A
  err : Error → Result A

abbrev pub EchoReqRepository : Type 0
EchoReqRepository = GoMap Address ValRequest

abbrev pub ReadyReqRepository : Type 0
ReadyReqRepository = GoMap Address Bytes

abbrev pub ValReqRepository : Type 0
ValReqRepository = GoMap Address ValRequest

-- `NewEchoReqRepository`
abbrev pub new_echo_req_repository : EchoReqRepository
new_echo_req_repository = []

-- `NewReadyReqRepository`
abbrev pub new_ready_req_repository : ReadyReqRepository
new_ready_req_repository = []

-- `NewValReqRepository`
abbrev pub new_val_req_repository : ValReqRepository
new_val_req_repository = []

-- `(*EchoReqRepository).Save`
unfoldable pub save_echo : Address → Request → EchoReqRepository → Result EchoReqRepository
save_echo addr (echo req) r = ok (insert addr req r)
save_echo addr _ r = err invalid_req_type

-- `(*ReadyReqRepository).Save`
unfoldable pub save_ready : Address → Request → ReadyReqRepository → Result ReadyReqRepository
save_ready addr (ready hash) r = ok (insert addr hash r)
save_ready addr _ r = err invalid_req_type

-- `(*ValReqRepository).Save`: nothing calls this repository.
unfoldable pub save_val : Address → Request → ValReqRepository → Result ValReqRepository
save_val addr (val req) r = ok (insert addr req r)
save_val addr _ r = err invalid_req_type

-- `(*ValReqRepository).Find`
unfoldable pub find_val : Address → ValReqRepository → Result ValRequest
find_val addr r = elim (lookup addr r) [ none ↦ err no_id_matching_request | some req ↦ ok req ]

-- `(*ValReqRepository).FindAll`
abbrev pub find_all_val : ValReqRepository → List Request
find_all_val r = map val (values r)

-- `(*EchoReqRepository).FindAll`, whose callers take the requests as ECHOs
abbrev pub find_all_echo : EchoReqRepository → List ValRequest
find_all_echo r = values r

-- `(*ReadyReqRepository).FindAll`
abbrev pub find_all_ready : ReadyReqRepository → List Bytes
find_all_ready r = values r

-- `Find` of the repositories of ECHOs and READYs: the callers ask only whether one was found.
unfoldable pub find : {V : Type 0} → Address → GoMap Address V → Bool
find addr r = elim (lookup addr r) [ none ↦ false | some _ ↦ true ]

abbrev pub find_ready : Address → ReadyReqRepository → Bool
find_ready addr r = find addr r

-- `pb.RBCType`
pub data RbcType : Type 0 where
  val_type echo_type ready_type : RbcType
  unknown_type : ℕ → RbcType

-- `pb.RBC`
pub record RbcMessage : Type 0 where
  pub payload : Bytes
  pub content_length : ℕ  -- uint64
  pub type : RbcType

-- `pb.Message` as the instance builds it, less its timestamp
pub record SharedMessage : Type 0 where
  pub proposer : Member
  pub sender : Member
  pub body : RbcMessage

-- `DataMessage`
pub record DataMessage : Type 0 where
  pub member : Member
  pub bytes : Bytes

-- `RBC`
pub record Rbc : Type 0 where
  pub n : ℕ
  pub f : ℕ
  pub owner : Member
  pub proposer : Member
  pub output : Bytes
  pub content_length : ℕ  -- uint64
  pub num_data_shards : ℕ
  pub num_parity_shards : ℕ
  pub echo_req_repo : EchoReqRepository
  pub ready_req_repo : ReadyReqRepository
  pub val_received : BinaryState
  pub echo_sent : BinaryState
  pub ready_sent : BinaryState
  pub done : BinaryState
  pub shared : List SharedMessage
  pub distributed : List (List SharedMessage)
  pub data_sent : List DataMessage

abbrev pub RbcGo : Type 0 → Type 0
RbcGo A = Go Error Rbc A

-- `New`, given whether `reedsolomon.New` takes the numbers of shards. A difference that Go has
-- below 0 is 0 here; `reedsolomon.New` refuses both.
unfoldable pub new : (ℕ → ℕ → Bool) → ℕ → ℕ → Member → Member → Option Rbc
unfolding Binary.new
new accepts n f owner proposer =
    let num_parity_shards = 2 * f in
    let num_data_shards = n - num_parity_shards in
    if accepts num_data_shards num_parity_shards
    then some (record {
      n = n;
      f = f;
      owner = owner;
      proposer = proposer;
      output = [];
      content_length = 0;
      num_data_shards = num_data_shards;
      num_parity_shards = num_parity_shards;
      echo_req_repo = new_echo_req_repository;
      ready_req_repo = new_ready_req_repository;
      val_received = Binary.new;
      echo_sent = Binary.new;
      ready_sent = Binary.new;
      done = Binary.new;
      shared = [];
      distributed = [];
      data_sent = [];
    })
    else none

-- `(*contentLength).set`: only the first length that is not 0 is taken.
unfoldable pub set_content_length : ℕ → Rbc → Rbc
set_content_length length s =
    if s.content_length == 0 then record s { content_length = length } else s
