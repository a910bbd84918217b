-- ===== src/Rpc/Call.antt =====
-- src/rpc.rs: one call of the membership client. JSON is encoded and decoded by serde_json, so
-- these are arguments.
use Prim.Native.String.{String}
use text.Mathlib.Text.{◌==◌ as str_eq}
use mempool_atlas.Prelude.{
  ℕ, ℤ, ◌+◌, ◌%◌, ◌^◌, Bool, false, not, ◌||◌, Option, none, some, map_option, Bytes, ◌==◌, ◌⊎◌,
}
use mempool_atlas.Results.{Result, ok, err, panic, reject, ◌>>=◌, ◌>>◌}
use mempool_atlas.Rpc.Error.{
  MembershipRpcError, encode_request, transport_failed, decode_response,
  mismatched_response_envelope, rpc_code, missing_result, decode_result, RpcTransportError,
}
use mempool_atlas.Rpc.Transport.{Response, post_json_bounded}

pub record MembershipWireResponse : Type 0 where
  pub result : Option String
  pub error : Option String
  pub id : Option ℕ
  pub jsonrpc : Option String

abbrev pub is_version : Option String → Bool
is_version none = false
is_version (some version) = str_eq version "2.0"

abbrev pub is_id : ℕ → Option ℕ → Bool
is_id id none = false
is_id id (some other) = other == id

abbrev pub map_error : {E F A : Type 0} → (E → F) → Result E A → Result F A
map_error wrap (err e) = err (wrap e)
map_error wrap (ok a) = ok a
map_error wrap panic = panic

abbrev pub raw_result : Option String → Result MembershipRpcError String
raw_result none = err missing_result
raw_result (some raw) = ok raw

module _ (read_response : Bytes → Result String MembershipWireResponse)
    (read_code : String → Result String ℤ) {T : Type 0}
    (read_result : String → Result String T) where
  abbrev pub check_error : (status_code : ℕ) → Option String → Result MembershipRpcError Unit
  check_error status_code none = ok tt
  check_error status_code (some error) = do
    code ← map_error (decode_response status_code) (read_code error)
    err (rpc_code code)

  abbrev pub result_in : (id status_code : ℕ) → MembershipWireResponse → Result MembershipRpcError T
  result_in id status_code response = do
    reject (not (is_version response.jsonrpc) || not (is_id id response.id))
        mismatched_response_envelope
    check_error status_code response.error
    result ← raw_result response.result
    map_error decode_result (read_result result)

  unfoldable pub answer_of : (id status_code : ℕ) → Bytes → Result MembershipRpcError T
  answer_of id status_code body = do
    response ← map_error (decode_response status_code) (read_response body)
    result_in id status_code response

  -- A call takes the next id, whatever becomes of it.
  abbrev pub answer_to : ℕ → Result RpcTransportError (ℕ × Bytes) → Result MembershipRpcError T
  answer_to id sent = do answer ← map_error transport_failed sent; answer_of id answer.0 answer.1

  module _ {S : Type 0} (read : S → ℕ → String ⊎ (Bytes × S))
      (encode : (id : ℕ) → Result String Bytes) (send : Bytes → Result String (Response S)) where
    abbrev pub post :
        (rounds id maximum : ℕ) → Result String Bytes → Option (Result MembershipRpcError T)
    post rounds id maximum (err e) = some (err (encode_request e))
    post rounds id maximum panic = some panic
    post rounds id maximum (ok body) =
        map_option (answer_to id) (post_json_bounded read rounds (send body) maximum)

    unfoldable pub call : (rounds next_id maximum : ℕ) → Option (Result MembershipRpcError T) × ℕ
    unfolding answer_of post_json_bounded
    call rounds next_id maximum =
        (post rounds next_id maximum (encode next_id), (next_id + 1) % 2 ^ 64)
