-- ===== src/Classification/Report.antt =====
-- src/classification.rs: its errors and limits, and the reports of its slices.
use Prim.Native.String.{String}
use mempool_atlas.Prelude.{
  ℕ, ◌+◌, ◌*◌, ◌/◌, ◌^◌, ◌≤◌, ◌<◌, ◌≡◌, min, arith, Bool, true, false, ◌||◌, Option, none, List,
  ltb, ◌==◌,
}
use mempool_atlas.Results.{Result, ok, reject, ◌>>◌}
use mempool_atlas.Model.Snapshot.{MempoolSnapshot}
use mempool_atlas.Model.Validation.{TransactionClassification}
use mempool_atlas.Model.Observation.{Classifications}
use mempool_atlas.Classification.Batches.{
  max_batch_response_bytes, estimated_json_bytes_per_response,
}

pub data ClassificationError : Type 0 where
  invalid_limits : ClassificationError
  batch : String → ClassificationError
  batch_response_too_large : (actual maximum : ℕ) → ClassificationError
  batch_response_estimate_too_large : (estimated maximum : ℕ) → ClassificationError
  invalid_membership_txid : String → ClassificationError
  generation_overflow : ClassificationError

abbrev pub max_gettxout_batch_size : ℕ
max_gettxout_batch_size = 512

abbrev pub max_rpc_lanes : ℕ
max_rpc_lanes = 8

abbrev pub max_transactions_per_slice : ℕ
max_transactions_per_slice = 8_192

abbrev pub max_confirmed_response_bytes_per_slice : ℕ
max_confirmed_response_bytes_per_slice = 256 * 1024 * 1024

abbrev pub max_unique_prevouts_per_slice : ℕ
max_unique_prevouts_per_slice = 65_536

abbrev pub max_pending_script_bytes : ℕ
max_pending_script_bytes = max_confirmed_response_bytes_per_slice

abbrev pub max_auxiliary_cache_bytes : ℕ
max_auxiliary_cache_bytes = 512 * 1024 * 1024

abbrev pub estimated_gettxout_response_bytes : ℕ
estimated_gettxout_response_bytes = 64 * 1024 + estimated_json_bytes_per_response

pub record ClassificationLimits : Type 0 where
  pub max_transactions_per_slice : ℕ
  pub rpc_lanes : ℕ
  pub max_auxiliary_cache_bytes : ℕ

unfoldable pub new_limits :
    (transactions lanes cache_bytes : ℕ) → Result ClassificationError ClassificationLimits
new_limits transactions lanes cache_bytes = do
  reject
      (transactions == 0
        || (ltb max_transactions_per_slice transactions
            || (lanes == 0
                || (ltb max_rpc_lanes lanes
                    || (cache_bytes == 0 || ltb max_auxiliary_cache_bytes cache_bytes)))))
      invalid_limits
  ok (record {
    max_transactions_per_slice = transactions;
    rpc_lanes = lanes;
    max_auxiliary_cache_bytes = cache_bytes;
  })

-- `div_ceil(2)`
unfoldable pub prevout_rpc_lanes : ClassificationLimits → ℕ
prevout_rpc_lanes limits = (limits.rpc_lanes + 1) / 2

unfoldable pub maximum_confirmed_prevouts_per_batch : ℕ
maximum_confirmed_prevouts_per_batch =
    min max_gettxout_batch_size (max_batch_response_bytes / estimated_gettxout_response_bytes)

unfoldable pub maximum_confirmed_prevouts_per_slice : ℕ
maximum_confirmed_prevouts_per_slice =
    min max_unique_prevouts_per_slice
      (max_confirmed_response_bytes_per_slice / estimated_gettxout_response_bytes)

pub record ResolverLimits : Type 0 where
  pub max_parent_transactions_per_wave : ℕ
  pub max_confirmed_prevouts_per_wave : ℕ
  pub max_unique_prevouts_per_window : ℕ
  pub max_pending_script_bytes : ℕ

unfoldable pub production_limits : (cache_bytes : ℕ) → ResolverLimits
unfolding maximum_confirmed_prevouts_per_slice
production_limits cache_bytes = record {
  max_parent_transactions_per_wave = max_transactions_per_slice;
  max_confirmed_prevouts_per_wave = maximum_confirmed_prevouts_per_slice;
  max_unique_prevouts_per_window = max_unique_prevouts_per_slice;
  max_pending_script_bytes = min max_pending_script_bytes cache_bytes;
}

pub record ClassificationGenerationStart : Type 0 where
  pub generation : ℕ
  pub revision : ℕ
  pub has_eligible_work : Bool
  pub membership : MempoolSnapshot
  pub classifications : Classifications

pub record ClassificationRevisionDelta : Type 0 where
  pub generation : ℕ
  pub revision : ℕ
  pub changed : List TransactionClassification

pub data ClassificationDisposition : Type 0 where
  continue complete paused stale : ClassificationDisposition

pub record ClassificationSliceReport : Type 0 where
  pub generation : ℕ
  pub attempted : ℕ
  pub newly_classified : ℕ
  pub fact_requests : ℕ
  pub facts_resolved : ℕ
  pub facts_missing : ℕ
  pub capacity_deferred : ℕ
  pub deferred_candidates : ℕ
  pub response_failures : ℕ
  pub systemic_response_failures : ℕ
  pub missing_responses : ℕ
  pub batch_failures : ℕ
  pub response_bytes : ℕ
  pub classified : ℕ
  pub remaining : ℕ
  pub is_complete : Bool
  pub is_stale : Bool
  pub disposition : ClassificationDisposition
  pub publication : Option ClassificationRevisionDelta

unfoldable pub waiting : ClassificationSliceReport
waiting = record {
  generation = 0;
  attempted = 0;
  newly_classified = 0;
  fact_requests = 0;
  facts_resolved = 0;
  facts_missing = 0;
  capacity_deferred = 0;
  deferred_candidates = 0;
  response_failures = 0;
  systemic_response_failures = 0;
  missing_responses = 0;
  batch_failures = 0;
  response_bytes = 0;
  classified = 0;
  remaining = 0;
  is_complete = true;
  is_stale = false;
  disposition = complete;
  publication = none;
}

unfoldable pub stale_report : ℕ → ClassificationSliceReport
unfolding waiting
stale_report generation = record waiting {
  generation = generation;
  is_complete = false;
  is_stale = true;
  disposition = stale;
}

-- The limits that are accepted are those in range; and of these, the two kinds of lanes, and a
-- batch and a wave for confirmed outpoints, stay within their own bounds.
pub new_limits-bounds :
    (transactions lanes cache_bytes : ℕ) (limits : ClassificationLimits)
    → new_limits transactions lanes cache_bytes ≡ ok limits
    → (1 ≤ limits.max_transactions_per_slice)
      × (limits.max_transactions_per_slice ≤ 8_192)
      × (1 ≤ prevout_rpc_lanes limits)
      × (prevout_rpc_lanes limits ≤ limits.rpc_lanes)
      × (limits.rpc_lanes ≤ 8)
      × ((production_limits limits.max_auxiliary_cache_bytes).max_pending_script_bytes < 2 ^ 64)
      × (maximum_confirmed_prevouts_per_batch * estimated_gettxout_response_bytes
          ≤ max_batch_response_bytes)
      × ((production_limits limits.max_auxiliary_cache_bytes).max_confirmed_prevouts_per_wave
            * estimated_gettxout_response_bytes
          ≤ max_confirmed_response_bytes_per_slice)
unfolding new_limits prevout_rpc_lanes production_limits maximum_confirmed_prevouts_per_batch
new_limits-bounds transactions lanes cache_bytes limits h = ground arith
