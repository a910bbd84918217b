-- ===== src/Rpc/Error.antt =====
-- src/rpc.rs, src/rpc_transport.rs: the errors of the calls to the node. The causes that other
-- crates report are texts.
use Prim.Native.String.{String}
use mempool_atlas.Prelude.{ℕ, ℤ}
use mempool_atlas.Model.Error.{ModelError}

pub data RpcTransportError : Type 0 where
  transport : String → RpcTransportError
  unexpected_http_status : ℕ → RpcTransportError
  unsupported_transfer_encoding : RpcTransportError
  incomplete_response_body : (expected actual : ℕ) → RpcTransportError
  response_too_large : (actual maximum : ℕ) → RpcTransportError

pub data MembershipRpcError : Type 0 where
  encode_request : String → MembershipRpcError
  transport_failed : RpcTransportError → MembershipRpcError
  decode_response : (status_code : ℕ) (cause : String) → MembershipRpcError
  mismatched_response_envelope : MembershipRpcError
  rpc_code : ℤ → MembershipRpcError
  missing_result : MembershipRpcError
  decode_result : String → MembershipRpcError

pub data RpcError : Type 0 where
  invalid_rpc_url rpc_url_contains_userinfo : RpcError
  get_mempool_info get_raw_mempool get_blockchain_info : MembershipRpcError → RpcError
  task : RpcError
  invalid_mempool_entry_limit : (configured maximum : ℕ) → RpcError
  invalid_mempool_size : ℤ → RpcError
  snapshot_too_large : (actual maximum : ℕ) → RpcError
  invalid_txid invalid_wtxid duplicate_txid duplicate_wtxid : String → RpcError
  entry_time_overflow : (txid : String) (time_seconds : ℕ) → RpcError
  invalid_entry_facts : String → ModelError → RpcError
  invalid_best_block_hash : String → RpcError
  invalid_block_height : ℕ → RpcError
  unstable_chain_tip :
      (starting_height : ℕ) (starting_hash : String) (ending_height : ℕ) (ending_hash : String)
      → RpcError
  invalid_system_clock system_time_overflow : RpcError
  invalid_snapshot : ModelError → RpcError

unfoldable pub public_message : RpcError → String
public_message (get_mempool_info e) = "Bitcoin node RPC is unavailable"
public_message (get_raw_mempool e) = "Bitcoin node RPC is unavailable"
public_message (get_blockchain_info e) = "Bitcoin node RPC is unavailable"
public_message (snapshot_too_large actual maximum) =
    "Bitcoin node mempool exceeds the configured limit"
public_message (invalid_mempool_entry_limit configured maximum) =
    "Bitcoin node mempool exceeds the configured limit"
public_message task = "Atlas snapshot worker failed"
public_message invalid_system_clock = "Atlas system clock is invalid"
public_message system_time_overflow = "Atlas system clock is invalid"
public_message _ = "Bitcoin node returned an invalid mempool snapshot"
