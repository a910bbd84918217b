-- ===== src/Runtime/State.antt =====
-- src/runtime.rs, src/runtime/publisher.rs: the errors, the state that is published for a source,
-- and what readers are shown of it.
use Prim.Native.String.{String, slice, ◌++◌ as str_append}
use mempool_atlas.Prelude.{
  ℕ, suc, zero, [], ◌+◌, ◌/◌, ◌%◌, ◌^◌, Option, none, some, map_option, Bytes, if◌then◌else◌, ltb,
}
use mempool_atlas.Results.{Result, ok, err, panic}
use mempool_atlas.Model.Error.{ModelError}
use mempool_atlas.Model.Snapshot.{ChainTip, MempoolSnapshot}
use mempool_atlas.Model.Progress.{ClassificationState, ClassificationProgress, from_snapshot}
use mempool_atlas.Model.Observation.{Classifications, MempoolObservation, materialize_retained}
use mempool_atlas.Classification.Report.{ClassificationError}
use mempool_atlas.Rpc.Error.{RpcError}

pub data RuntimeError : Type 0 where
  model : ModelError → RuntimeError
  rpc : RpcError → RuntimeError
  classification : ClassificationError → RuntimeError
  zero_poll_interval no_sources : RuntimeError
  too_many_sources : (configured maximum : ℕ) → RuntimeError
  duplicate_source : String → RuntimeError
  poll_interval_mismatch : (source_id : String) (expected_seconds actual_seconds : ℕ) → RuntimeError
  snapshot_source_mismatch : (expected actual : String) → RuntimeError
  classification_generation_overflow : RuntimeError
  classification_report_generation_mismatch : (report publication : ℕ) → RuntimeError
  classification_revision_mismatch : (publication snapshot : ℕ) → RuntimeError
  classification_revision_sequence : (current publication : ℕ) → RuntimeError
  classifications_exceed_membership : (classified membership : ℕ) → RuntimeError
  classification_state_without_snapshot : RuntimeError
  snapshot_response_task : RuntimeError
  snapshot_response_encoding : String → RuntimeError
  invalid_system_clock system_time_overflow : RuntimeError

-- The interval in nanoseconds.
pub record CurrentStatePublisher : Type 0 where
  pub source_id : String
  pub source_label : String
  pub poll_interval : ℕ

pub record CachedSnapshotResponse : Type 0 where
  pub body : Bytes
  pub etag : Option String

pub record CurrentState : Type 0 where
  pub last_poll_started_at_ms : Option ℕ
  pub membership : Option MempoolSnapshot
  pub latest : Option MempoolSnapshot
  pub classifications : Classifications
  pub last_error : Option String
  pub cached_response : Option CachedSnapshotResponse
  pub classification_generation : Option ℕ
  pub classification_revision : ℕ
  pub classification_state : Option ClassificationState
  pub status_revision : ℕ
  pub response_revision : ℕ

abbrev pub initial_state : CurrentState
initial_state = record {
  last_poll_started_at_ms = none;
  membership = none;
  latest = none;
  classifications = [];
  last_error = none;
  cached_response = none;
  classification_generation = none;
  classification_revision = 0;
  classification_state = none;
  status_revision = 0;
  response_revision = 0;
}

pub data SourceAvailability : Type 0 where
  waiting ready stale error : SourceAvailability

pub record SourceSummary : Type 0 where
  pub source_id : String
  pub source_label : String
  pub availability : SourceAvailability
  pub poll_interval_seconds : ℕ
  pub last_poll_started_at_ms : Option ℕ
  pub snapshot_observed_at_ms : Option ℕ
  pub chain_tip : Option ChainTip
  pub transaction_count : Option ℕ
  pub total_vsize : Option ℕ
  pub classification : Option ClassificationProgress
  pub last_error : Option String

pub record SourceSnapshotResponse : Type 0 where
  pub source : SourceSummary
  pub snapshot : Option MempoolSnapshot

abbrev pub as_secs : ℕ → ℕ
as_secs nanos = nanos / 1_000_000_000

-- `u64::wrapping_add(1)`
abbrev pub next_u64 : ℕ → ℕ
next_u64 n = (n + 1) % 2 ^ 64

unfoldable pub availability_of : Option MempoolSnapshot → Option String → SourceAvailability
availability_of none none = SourceAvailability.waiting
availability_of none (some _) = SourceAvailability.error
availability_of (some _) none = SourceAvailability.ready
availability_of (some _) (some _) = SourceAvailability.stale

-- The assertion that the two coexist is of debug builds only.
unfoldable pub progress_of :
    Option MempoolSnapshot → Option ClassificationState → Option ClassificationProgress
unfolding from_snapshot
progress_of (some snapshot) (some state) = some (from_snapshot state snapshot)
progress_of none none = none
progress_of _ _ = none

unfoldable pub summary_from_parts :
    CurrentStatePublisher
    → (last_poll_started_at_ms : Option ℕ) → (latest : Option MempoolSnapshot)
    → Option ClassificationState
    → (last_error : Option String) → SourceSummary
unfolding availability_of progress_of
summary_from_parts publisher last_poll_started_at_ms latest classification_state last_error =
    record {
      source_id = publisher.source_id;
      source_label = publisher.source_label;
      availability = availability_of latest last_error;
      poll_interval_seconds = as_secs publisher.poll_interval;
      last_poll_started_at_ms = last_poll_started_at_ms;
      snapshot_observed_at_ms = map_option (λ snapshot. snapshot.observed_at_ms) latest;
      chain_tip = map_option (λ snapshot. snapshot.chain_tip) latest;
      transaction_count = map_option (λ snapshot. snapshot.transaction_count) latest;
      total_vsize = map_option (λ snapshot. snapshot.total_vsize) latest;
      classification = progress_of latest classification_state;
      last_error = last_error;
    }

unfoldable pub summary_from_state : CurrentStatePublisher → CurrentState → SourceSummary
unfolding summary_from_parts
summary_from_state publisher state =
    summary_from_parts publisher state.last_poll_started_at_ms state.latest
      state.classification_state state.last_error

unfoldable pub snapshot_response : CurrentStatePublisher → CurrentState → SourceSnapshotResponse
unfolding summary_from_state
snapshot_response publisher state = record {
  source = summary_from_state publisher state;
  snapshot = state.latest;
}

-- The digits of a number, of which there are at most as many as the fuel.
unfoldable pub decimal_from : (fuel : ℕ) → ℕ → String → String
decimal_from zero n rest = rest
decimal_from (suc fuel) n rest =
    let shown = str_append (slice "0123456789" (n % 10) (n % 10 + 1)) rest in
    let more = decimal_from fuel (n / 10) shown in if ltb n 10 then shown else more

abbrev pub decimal : ℕ → String
decimal n = decimal_from (suc n) n ""

abbrev pub etag_of : String → ℕ → ℕ → String
etag_of source_id observed_at_ms response_revision = str_append "W/\"" (
    str_append source_id (
      str_append "-" (
        str_append (decimal observed_at_ms)
          (str_append "-" (str_append (decimal response_revision) "\"")))))

unfoldable pub replace_cached_response : CurrentStatePublisher → CurrentState → Bytes → CurrentState
unfolding decimal_from
replace_cached_response publisher state body =
    let response_revision = next_u64 state.response_revision in
    record state {
      response_revision = response_revision;
      cached_response = some (record {
        body = body;
        etag =
            map_option
              (λ snapshot. etag_of publisher.source_id snapshot.observed_at_ms response_revision)
              state.latest;
      });
    }

-- A worker that panics is a task error.
unfoldable pub prepared :
    Result ModelError MempoolObservation → Result RuntimeError MempoolObservation
prepared (err e) = err (model e)
prepared (ok observation) = ok observation
prepared panic = err snapshot_response_task

unfoldable pub prepare_observation :
    (atlas_version : String)
    → MempoolSnapshot
    → ℕ
    → Classifications
    → Result RuntimeError MempoolObservation
unfolding prepared materialize_retained
prepare_observation atlas_version membership revision classifications =
    prepared (materialize_retained atlas_version membership revision classifications)

unfoldable pub encoded : Result String Bytes → Result RuntimeError Bytes
encoded (err e) = err (snapshot_response_encoding e)
encoded (ok body) = ok body
encoded panic = err snapshot_response_task

-- The encoder is of the serde_json crate.
unfoldable pub encode_response :
    (to_vec : SourceSnapshotResponse → Result String Bytes)
    → SourceSnapshotResponse
    → Result RuntimeError Bytes
unfolding encoded
encode_response to_vec response = encoded (to_vec response)
