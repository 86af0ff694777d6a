-- ===== src/Acs/State.antt =====
-- acs/acs.go, acs/binary_map.go, acs/bba.go and acs/rbc.go: the interfaces of the instances and the
-- state of an `ACS`, which refers to its instances by interfaces: their states are those of rbc/
-- and bba/, their methods are any. `agreement_chan` is the number of signals in the channel, whose
-- capacity is `n`; `batches` logs what is sent to the batch channel. Locks and the handshake over
-- `closeChan` are left out.
use cleisthenes.Base.{
  ℕ, Bool, false, Option, none, some, List, [], ◌∷◌, GoMap, lookup, insert, values,
}
use cleisthenes.Base.Go.{Go}
use cleisthenes.Binary
use cleisthenes.Binary.{Binary, BinaryState}
use cleisthenes.Member.{Address, Member, MemberMap, member_eq, members}
use cleisthenes.Bba.Request.{Error as BbaError}
use cleisthenes.Bba.State.{Bba, BbaMessage}
use cleisthenes.Rbc.Merkle.{Bytes}
use cleisthenes.Rbc.State.{Rbc, RbcMessage, Error as RbcError}
use cleisthenes.Honeybadger.{BatchMessage}

-- The interface `RBC`, less `Close`
pub record RbcOps : Type 0 where
  pub handle_input : Bytes → Go RbcError Rbc (Unit {0})
  pub handle_message : Member → RbcMessage → Go RbcError Rbc (Unit {0})

-- The interface `BBA`, less `Close`
pub record BbaOps : Type 0 where
  pub handle_input : Binary → Go BbaError Bba (Unit {0})
  pub handle_message : Member → BbaMessage → Go BbaError Bba (Unit {0})
  pub idle : Bba → Bool

-- `pb.Message` as far as it is read here: `ToAddress` of the proposer is done on arrival.
pub data Payload : Type 0 where
  message_rbc : RbcMessage → Payload
  message_bba : BbaMessage → Payload
  message_other : Payload

pub record Message : Type 0 where
  pub proposer : Option Address
  pub payload : Payload

-- error.go, the errors that acs.go makes, and those of the instances
pub data Error : Type 0 where
  no_member_matching_request bad_address no_match undefined_request_type : Error
  rbc_error : RbcError → Error
  bba_error : BbaError → Error

-- `binaryStateMap`
abbrev pub BinaryStateMap : Type 0
BinaryStateMap = GoMap Member BinaryState

-- `item` of a `binaryStateMap`: for a missing key the zero value, which is defined.
unfoldable pub item : Member → BinaryStateMap → BinaryState
item member items = elim (lookup member items) [
  | none ↦ record { value = false; undefined = false }
  | some state ↦ state
]

-- `broadcastDataMap`
abbrev pub BroadcastDataMap : Type 0
BroadcastDataMap = GoMap Member Bytes

-- `item` of a `broadcastDataMap`: for a missing key nil
unfoldable pub data_item : Member → BroadcastDataMap → Bytes
data_item member items = elim (lookup member items) [ none ↦ [] | some bytes ↦ bytes ]

-- `RBCRepository`
abbrev pub RbcRepository : Type 0
RbcRepository = GoMap Member Rbc

-- `NewRBCRepository`
abbrev pub new_rbc_repository : RbcRepository
new_rbc_repository = []

-- `(*RBCRepository).Save`
abbrev pub save_rbc : Member → Rbc → RbcRepository → RbcRepository
save_rbc mem rbc r = insert mem rbc r

-- `(*RBCRepository).Find`, whose error is that there is none
abbrev pub find_rbc : Member → RbcRepository → Option Rbc
find_rbc mem r = lookup mem r

-- `(*RBCRepository).FindAll`
abbrev pub find_all_rbc : RbcRepository → List Rbc
find_all_rbc r = values r

-- `BBARepository`
abbrev pub BbaRepository : Type 0
BbaRepository = GoMap Member Bba

-- `NewBBARepository`
abbrev pub new_bba_repository : BbaRepository
new_bba_repository = []

-- `(*BBARepository).Save`
abbrev pub save_bba : Member → Bba → BbaRepository → BbaRepository
save_bba mem bba r = insert mem bba r

-- `(*BBARepository).Find`, whose error is that there is none
abbrev pub find_bba : Member → BbaRepository → Option Bba
find_bba mem r = lookup mem r

-- `(*BBARepository).FindAll`
abbrev pub find_all_bba : BbaRepository → List Bba
find_all_bba r = values r

-- `ACS`
pub record Acs : Type 0 where
  pub n : ℕ
  pub f : ℕ
  pub owner : Member
  pub member_map : MemberMap
  pub rbc_repo : RbcRepository
  pub bba_repo : BbaRepository
  pub broadcast_result : BroadcastDataMap
  pub agreement_result : BinaryStateMap
  pub agreement_started : BinaryStateMap
  pub dec : BinaryState
  pub agreement_chan : ℕ
  pub stop_flag : Bool
  pub batches : List BatchMessage

-- What `New` saves for one member
abbrev pub with_member : Member → Rbc → Bba → Acs → Acs
with_member m r b s = record s {
  rbc_repo = save_rbc m r s.rbc_repo;
  bba_repo = save_bba m b s.bba_repo;
  broadcast_result = insert m [] s.broadcast_result;
  agreement_result = insert m Binary.new s.agreement_result;
  agreement_started = insert m Binary.new s.agreement_started;
}

module _ (make_rbc : Member → Option Rbc) (make_bba : Member → Bba) where
  -- The loop of `New`, over the members; `make_rbc` and `make_bba` stand for `rbc.New` and
  -- `bba.New` with the arguments that do not change.
  unfoldable pub add_members : List Member → Acs → Option Acs
  add_members [] s = some s
  add_members (m ∷ ms) s = elim (make_rbc m) [
    | none ↦ none
    | some r ↦ add_members ms (with_member m r (make_bba m) s)
  ]

  -- `New`; the field `dec`, which it does not name, is the zero `BinaryState`.
  unfoldable pub new : ℕ → ℕ → Member → MemberMap → Option Acs
  unfolding members
  new n f owner member_map = add_members (members member_map) (record {
    n = n;
    f = f;
    owner = owner;
    member_map = member_map;
    rbc_repo = new_rbc_repository;
    bba_repo = new_bba_repository;
    broadcast_result = [];
    agreement_result = [];
    agreement_started = [];
    dec = record { value = false; undefined = false };
    agreement_chan = 0;
    stop_flag = false;
    batches = [];
  })
