-- ===== src/Runtime/History.antt =====
-- The states that a source goes through when calls to publish are interleaved: each step is one
-- commit under the lock, of a call that read any earlier state.
use Prim.Native.String.{String}
use mempool_atlas.Prelude.{ℕ, ◌≡◌, some, List, [], ◌∷◌, Bytes, Contains}
use mempool_atlas.Results.{Result, ok}
use mempool_atlas.Model.Progress.{ClassificationState}
use mempool_atlas.Model.Observation.{MempoolObservation}
use mempool_atlas.Runtime.State.{
  CurrentStatePublisher, CurrentState, SourceSnapshotResponse, initial_state, prepare_observation,
}
use mempool_atlas.Classification.Report.{ClassificationGenerationStart, ClassificationRevisionDelta}
use mempool_atlas.Runtime.Publish.{
  committed, Preparation, status_read, record_poll_started, check_membership, membership_attempt,
  prepare_update, update_attempt, lifecycle_attempt, failure_attempt,
}

module _ (atlas_version : String) (to_vec : SourceSnapshotResponse → Result String Bytes)
    (publisher : CurrentStatePublisher) where
  -- `past` are the states before `s`, which is replaced by `t`.
  pub data Change (past : List CurrentState) (s t : CurrentState) : Type 0 where
    poll_started : (started_at_ms : ℕ) → t ≡ record_poll_started started_at_ms s → Change past s t
    membership_published :
        (p : ClassificationGenerationStart) (observation : MempoolObservation) (seen : CurrentState)
        → Contains seen (s ∷ past)
        → check_membership publisher p ≡ ok tt
        → prepare_observation atlas_version p.membership p.revision p.classifications
          ≡ ok observation
        → membership_attempt atlas_version to_vec publisher p observation seen s ≡ ok (committed t)
        → Change past s t
    classification_published :
        (generation : ℕ) (delta : ClassificationRevisionDelta) (state : ClassificationState)
        (first seen : CurrentState) (prep : Preparation)
        → Contains first (s ∷ past)
        → Contains seen (s ∷ past)
        → prepare_update atlas_version to_vec publisher generation delta first ≡ ok (some prep)
        → seen.classification_generation ≡ some generation
        → seen.classification_revision ≡ prep.current_revision
        → update_attempt atlas_version to_vec publisher generation delta state prep
            (status_read seen)
            s
          ≡ ok (committed t)
        → Change past s t
    lifecycle_published :
        (generation : ℕ) (state : ClassificationState) (seen : CurrentState)
        → Contains seen (s ∷ past)
        → lifecycle_attempt atlas_version to_vec publisher generation state seen s
          ≡ ok (committed t)
        → Change past s t
    failure_published :
        (error : String) (seen : CurrentState)
        → Contains seen (s ∷ past)
        → failure_attempt atlas_version to_vec publisher error seen s ≡ ok (committed t)
        → Change past s t

  -- The last state, and those before it, the latest first.
  pub data History : CurrentState → List CurrentState → Type 0 where
    start : History initial_state []
    change :
        {s t : CurrentState} {past : List CurrentState}
        → History s past
        → Change past s t
        → History t (s ∷ past)
