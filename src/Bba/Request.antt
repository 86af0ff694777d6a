-- ===== src/Bba/Request.antt =====
-- bba/request.go and bba/error.go: the requests of one binary agreement, the repositories that
-- keep one BVAL and one AUX of each sender, and the one that keeps requests of later rounds.
use cleisthenes.Base.{
  ℕ, Bool, true, false, List, [], ◌∷◌, ◌++◌, none, some, GoMap, values, lookup, insert, select,
  ◌==◌,
}
use cleisthenes.Binary.{Binary}
use cleisthenes.Member.{Address, address_eq}

-- The values of the interface `Request`: `*BvalRequest`, `*AuxRequest`, and any other type.
pub data Request : Type 0 where
  bval : Binary → Request
  aux : Binary → Request
  other : Request

-- error.go, and the errors that bba.go makes where it returns them.
pub data Error : Type 0 where
  undefined_request_type invalid_type no_result : Error
  invalid_broadcast_type invalid_message_type json_error : Error

-- `IsErrNoResult`
abbrev pub is_err_no_result : Error → Bool
is_err_no_result no_result = true
is_err_no_result _ = false

pub data Result {ℓ} (A : Type ℓ) : Type ℓ where
  ok : A → Result A
  err : Error → Result A

-- `bvalReqRepository` and `auxReqRepository`: the `Value` of the request of each address.
abbrev pub ReqRepository : Type 0
ReqRepository = GoMap Address Binary

-- `newBvalReqRepository`
abbrev pub new_req_repository : ReqRepository
new_req_repository = []

-- `newAuxReqRepository`
abbrev pub new_aux_req_repository : ReqRepository
new_aux_req_repository = []

-- `(*bvalReqRepository).Save`
unfoldable pub save_bval : Address → Request → ReqRepository → Result ReqRepository
save_bval addr (bval v) r = ok (insert addr v r)
save_bval addr _ r = err invalid_type

-- `(*auxReqRepository).Save`
unfoldable pub save_aux : Address → Request → ReqRepository → Result ReqRepository
save_aux addr (aux v) r = ok (insert addr v r)
save_aux addr _ r = err invalid_type

-- `(*bvalReqRepository).Find`
unfoldable pub find : Address → ReqRepository → Result Binary
find addr r = elim (lookup addr r) [ none ↦ err no_result | some v ↦ ok v ]

-- `(*auxReqRepository).Find`
abbrev pub find_aux : Address → ReqRepository → Result Binary
find_aux addr r = find addr r

-- `FindAll` of both repositories
abbrev pub find_all : ReqRepository → List Binary
find_all r = values r

-- `incomingRequest`
pub record IncomingRequest : Type 0 where
  pub round : ℕ
  pub addr : Address
  pub req : Request

-- `newIncomingRequest`
abbrev pub new_incoming_request : ℕ → Address → Request → IncomingRequest
new_incoming_request round addr req = record { round = round; addr = addr; req = req }

abbrev pub IncomingRequestRepository : Type 0
IncomingRequestRepository = List IncomingRequest

-- `(*defaultIncomingReqRepository).Save`
unfoldable pub save_incoming :
    ℕ → Address → Request → IncomingRequestRepository → IncomingRequestRepository
save_incoming round addr req m = m ++ new_incoming_request round addr req ∷ []

-- `(*defaultIncomingReqRepository).Find`
unfoldable pub find_incoming : ℕ → IncomingRequestRepository → List IncomingRequest
find_incoming round m = select (λ ir. ir.round == round) m
