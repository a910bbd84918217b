-- ===== src/Runtime/Outcome.antt =====
-- src/runtime.rs: what becomes of the report of a classification slice.
use Prim.Native.String.{String}
use mempool_atlas.Prelude.{ℕ, Bool, true, false, ◌&&◌, Option, none, some, List, Bytes}
use mempool_atlas.Results.{Result, ok, err, panic, ◌>>=◌}
use mempool_atlas.Model.Progress.{ClassificationState, classifying, paused}
use mempool_atlas.Classification.Report.{
  ClassificationError, ClassificationDisposition, ClassificationSliceReport,
}
use mempool_atlas.Runtime.State.{
  RuntimeError, CurrentStatePublisher, CurrentState, SourceSnapshotResponse,
}
use mempool_atlas.Runtime.Publish.{
  Attempt, superseded, unchanged, committed, publish_classification_update,
}

-- The Boolean of the result: whether the state published is of the call.
abbrev pub is_current : Attempt → Bool
is_current unchanged = true
is_current (committed state) = true
is_current _ = false

abbrev pub is_continue : ClassificationDisposition → Bool
is_continue ClassificationDisposition.continue = true
is_continue _ = false

abbrev pub lifecycle_of : ClassificationDisposition → Option ClassificationState
lifecycle_of ClassificationDisposition.continue = some classifying
lifecycle_of ClassificationDisposition.complete = some ClassificationState.complete
lifecycle_of ClassificationDisposition.paused = some paused
lifecycle_of ClassificationDisposition.stale = none

module _ (atlas_version : String) (to_vec : SourceSnapshotResponse → Result String Bytes)
    (publisher : CurrentStatePublisher) where
  -- With the attempt, whether the classification goes on.
  unfoldable pub record_classification_outcome :
      ClassificationSliceReport
      → (first : CurrentState) → (rounds : List (CurrentState × CurrentState))
      → Result RuntimeError (Attempt × Bool)
  unfolding publish_classification_update
  record_classification_outcome report first rounds = elim (lifecycle_of report.disposition) [
    | none ↦ ok (superseded, false)
    | some state ↦
        publish_classification_update atlas_version to_vec publisher report.generation
          report.publication state first rounds
        >>= λ attempt. ok (attempt, is_current attempt && is_continue report.disposition)
  ]

  unfoldable pub record_classification_error :
      (expected_generation : Option ℕ)
      → (first : CurrentState) → (rounds : List (CurrentState × CurrentState))
      → Result RuntimeError Attempt
  unfolding publish_classification_update
  record_classification_error none first rounds = ok superseded
  record_classification_error (some generation) first rounds =
      publish_classification_update atlas_version to_vec publisher generation none paused first
        rounds

  abbrev pub or_stop : Result RuntimeError (Attempt × Bool) → Bool
  or_stop (err e) = false
  or_stop (ok outcome) = outcome.1
  or_stop panic = false

  -- `publish_classification`: whether the source asks for another slice. Its errors are logged.
  unfoldable pub asks_for_more :
      Result ClassificationError ClassificationSliceReport
      → (first : CurrentState) → (rounds : List (CurrentState × CurrentState)) → Bool
  unfolding record_classification_outcome
  asks_for_more (ok report) first rounds =
      or_stop (record_classification_outcome report first rounds)
  asks_for_more (err e) first rounds = false
  asks_for_more panic first rounds = false
