-- ===== src/Runtime/Lookup.antt =====
-- src/runtime/publisher.rs: what readers are answered from the published state.
use Prim.Native.String.{String}
use text.Mathlib.Text.{◌==◌ as str_eq}
use mempool_atlas.Prelude.{ℕ, Option, none, some, List, any, Bytes, if◌then◌else◌}
use mempool_atlas.Results.{Result, ok, ◌>>=◌}
use mempool_atlas.Model.Rules.{Bip110Assessment, Bip110RuleDetail}
use mempool_atlas.Model.Entry.{ClassificationResult}
use mempool_atlas.Model.Snapshot.{MempoolSnapshot}
use mempool_atlas.Model.Validation.{TransactionClassification}
use mempool_atlas.Model.Observation.{get_classification}
use mempool_atlas.Runtime.State.{
  RuntimeError, CurrentStatePublisher, CurrentState, CachedSnapshotResponse, SourceSnapshotResponse,
  snapshot_response, encode_response,
}

pub record TransactionDetailResponse : Type 0 where
  pub source_id : String
  pub snapshot_observed_at_ms : ℕ
  pub classification_revision : ℕ
  pub txid : String
  pub wtxid : String
  pub classifications : List ClassificationResult
  pub assessment : Bip110Assessment
  pub rules : List Bip110RuleDetail

pub data TransactionLookup : Type 0 where
  ready : TransactionDetailResponse → TransactionLookup
  waiting_for_snapshot not_present unclassified : TransactionLookup

abbrev pub detail_response :
    CurrentStatePublisher
    → CurrentState
    → MempoolSnapshot
    → TransactionClassification
    → TransactionDetailResponse
detail_response publisher state snapshot c = record {
  source_id = publisher.source_id;
  snapshot_observed_at_ms = snapshot.observed_at_ms;
  classification_revision = state.classification_revision;
  txid = c.txid;
  wtxid = c.wtxid;
  classifications = c.results;
  assessment = c.assessment;
  rules = c.rules;
}

abbrev pub lookup_classification :
    CurrentStatePublisher
    → CurrentState
    → MempoolSnapshot
    → Option TransactionClassification
    → TransactionLookup
lookup_classification publisher state snapshot none = unclassified
lookup_classification publisher state snapshot (some c) =
    ready (detail_response publisher state snapshot c)

-- The code searches by bisection, over entries in the order of their ids.
abbrev pub lookup_in :
    CurrentStatePublisher → CurrentState → String → Option MempoolSnapshot → TransactionLookup
lookup_in publisher state txid none = waiting_for_snapshot
lookup_in publisher state txid (some snapshot) =
    if any (λ entry. str_eq entry.txid txid) snapshot.transactions
    then lookup_classification publisher state snapshot
        (get_classification state.classifications txid)
    else not_present

unfoldable pub transaction_detail :
    CurrentStatePublisher → CurrentState → String → TransactionLookup
transaction_detail publisher state txid = lookup_in publisher state txid state.latest

-- A response that is not cached has no etag.
abbrev pub payload_of :
    Option CachedSnapshotResponse
    → Result RuntimeError Bytes
    → Result RuntimeError CachedSnapshotResponse
payload_of (some response) fresh = ok response
payload_of none fresh = do body ← fresh; ok (record { body = body; etag = none })

unfoldable pub snapshot_response_payload :
    (to_vec : SourceSnapshotResponse → Result String Bytes)
    → CurrentStatePublisher
    → CurrentState
    → Result RuntimeError CachedSnapshotResponse
unfolding snapshot_response encode_response
snapshot_response_payload to_vec publisher state =
    payload_of state.cached_response (encode_response to_vec (snapshot_response publisher state))
