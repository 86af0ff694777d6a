-- ===== src/App.antt =====
-- example/app/api.go: the HTTP interface of the example application on top of `Submit` of a node. The
-- router, the JSON of requests and responses and the logger are third-party: the model starts where
-- a route is taken, with what the decoder makes of the body.
mod Tests
use cleisthenes.Base.{
  ℕ, String, Bool, true, false, Option, none, some, List, [], ◌∷◌, ◌++◌, if◌then◌else◌,
}
use cleisthenes.Base.Go.{Outcome, Go, done, fail, block, panic, after}

-- `ErrIllegalArgument`, an error of the decoder, and an error of `Submit`
pub data Error (E : Type 0) : Type 0 where
  illegal_argument json_error : Error E
  submit_error : E → Error E

-- What is written to an `http.ResponseWriter`: the content type, a status, and a body, which is an
-- error's text, the encoding of a response, or plain text.
pub data Written (E R : Type 0) : Type 0 where
  json_header : Written E R
  internal_server_error : Written E R
  error_body : E → Written E R
  body : R → Written E R
  text : String → Written E R

-- `ProposeTxResponse`
pub record ProposeTxResponse : Type 0 where

-- The handler of the route `/healthz`
unfoldable pub healthz : {E R : Type 0} → List (Written E R) → List (Written E R)
healthz w = w ++ text "up" ∷ []

-- `encodeError`
unfoldable pub encode_error : {E R : Type 0} → E → List (Written E R) → List (Written E R)
encode_error e w = w ++ json_header ∷ internal_server_error ∷ error_body e ∷ []

-- `encodeResponse`, given the error of a response that is an `errorer`
unfoldable pub encode_response :
    {E R : Type 0} → (R → Option E) → R → List (Written E R) → List (Written E R)
unfolding encode_error
encode_response error_of response w = elim (error_of response) [
  | some e ↦ encode_error e w
  | none ↦ w ++ json_header ∷ body response ∷ []
]

-- `empty` is the comparison of `reflect.DeepEqual` with the transaction that has no field set.
module _ {E Tx Node : Type 0} (empty : Tx → Bool) (submit : Tx → Go E Node (Unit {0})) where
  -- `decodeProposeTxRequest`
  unfoldable pub decode_propose_tx_request : Option Tx → Go (Error E) Node Tx
  decode_propose_tx_request none n = fail json_error n
  decode_propose_tx_request (some tx) n = if empty tx then fail illegal_argument n else done tx n

  -- `makeProposeTxEndpoint`
  unfoldable pub make_propose_tx_endpoint : Tx → Go (Error E) Node ProposeTxResponse
  make_propose_tx_endpoint tx n = elim (submit tx n) [
    | done _ n' ↦ done (record {}) n'
    | fail e n' ↦ fail (submit_error e) n'
    | block n' ↦ block n'
    | panic n' ↦ panic n'
  ]

  -- `proposeTx`, which logs an error and returns it
  unfoldable pub propose_tx : Tx → Go (Error E) Node ProposeTxResponse
  unfolding make_propose_tx_endpoint
  propose_tx tx n = make_propose_tx_endpoint tx n

  -- The route `/tx`: the endpoint is called with what the decoder returns.
  unfoldable pub post_tx : Option Tx → Go (Error E) Node ProposeTxResponse
  unfolding decode_propose_tx_request propose_tx
  post_tx request n = after (decode_propose_tx_request request n) propose_tx
