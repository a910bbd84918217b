-- ===== src/Runtime/Commits.antt =====
-- What a commit of src/runtime/publisher.rs shows of the state it replaces and of the one it leaves.
use Prim.Native.String.{String}
use mempool_atlas.Prelude.{
  ℕ, ◌+◌, ◌≤◌, ◌≡◌, refl, true, false, Option, none, some, Bytes, length, arith,
}
use mempool_atlas.Results.{Result, ok}
use mempool_atlas.Model.Snapshot.{MempoolSnapshot}
use mempool_atlas.Model.Progress.{ClassificationState}
use mempool_atlas.Model.Observation.{MempoolObservation}
use mempool_atlas.Runtime.State.{
  CurrentStatePublisher, CurrentState, SourceSnapshotResponse, summary_from_parts,
  replace_cached_response, encode_response, prepare_observation,
}
use mempool_atlas.Classification.Report.{ClassificationGenerationStart, ClassificationRevisionDelta}
use mempool_atlas.Runtime.Publish.{
  committed, Preparation, StatusRead, nat_option_eq, is_current_or_newer,
  initial_classification_state, insert_changed, with_membership, with_classification,
  with_lifecycle, with_failure, membership_attempt, prepare_update, update_attempt,
  lifecycle_attempt, failure_attempt,
}

pub nat_option_eq_sound : (a b : Option ℕ) → nat_option_eq a b ≡ true → a ≡ b
nat_option_eq_sound none none h = refl
nat_option_eq_sound none (some b) h = cc
nat_option_eq_sound (some a) none h = cc
nat_option_eq_sound (some a) (some b) h = ground arith

module _ (to_vec : SourceSnapshotResponse → Result String Bytes)
    (publisher : CurrentStatePublisher) where
  -- The response with the parts, and its encoding.
  abbrev pub Encodes :
      (last_poll : Option ℕ)
      → Option MempoolSnapshot
      → Option ClassificationState
      → (last_error : Option String) → Bytes
      → Type 0
  Encodes last_poll latest state last_error body =
      encode_response to_vec (record {
        source = summary_from_parts publisher last_poll latest state last_error;
        snapshot = latest;
      })
      ≡ ok body

module _ (atlas_version : String) (to_vec : SourceSnapshotResponse → Result String Bytes)
    (publisher : CurrentStatePublisher) where
  pub membership_attempt-committed :
      (p : ClassificationGenerationStart) (o : MempoolObservation) (seen s : CurrentState)
      {t : CurrentState}
      → membership_attempt atlas_version to_vec publisher p o seen s ≡ ok (committed t)
      → (is_current_or_newer s.classification_generation p.generation ≡ false)
        × (s.status_revision ≡ seen.status_revision)
        × (s.classification_generation ≡ seen.classification_generation)
        × ((body : Bytes) × Encodes to_vec publisher seen.last_poll_started_at_ms
              (some o.snapshot)
              (some (initial_classification_state p.has_eligible_work))
              none
              body
            × (t ≡ replace_cached_response publisher (with_membership p o s) body))
  unfolding membership_attempt
  membership_attempt-committed p o seen s h =
      ground
        (arith, (nat_option_eq_sound s.classification_generation seen.classification_generation))

  pub update_attempt-committed :
      (generation : ℕ) (delta : ClassificationRevisionDelta) (state : ClassificationState)
      (prep : Preparation) (status : StatusRead) (s : CurrentState) {t : CurrentState}
      → update_attempt atlas_version to_vec publisher generation delta state prep status s
        ≡ ok (committed t)
      → (s.classification_generation ≡ some generation)
        × (s.classification_revision ≡ prep.current_revision)
        × (s.status_revision ≡ status.status_revision)
        × ((body : Bytes) × Encodes to_vec publisher status.last_poll_started_at_ms
              (some prep.observation.snapshot)
              (some state)
              status.last_error
              body
            × (t
                ≡ replace_cached_response publisher
                    (with_classification delta prep.observation state s)
                    body))
  unfolding update_attempt
  update_attempt-committed generation delta state prep status s h =
      ground (arith, (nat_option_eq_sound s.classification_generation (some generation)))

  pub lifecycle_attempt-committed :
      (generation : ℕ) (state : ClassificationState) (seen s : CurrentState) {t : CurrentState}
      → lifecycle_attempt atlas_version to_vec publisher generation state seen s ≡ ok (committed t)
      → (s.classification_generation ≡ seen.classification_generation)
        × (s.classification_generation ≡ some generation)
        × (s.classification_revision ≡ seen.classification_revision)
        × (s.status_revision ≡ seen.status_revision)
        × ((latest : MempoolSnapshot) × (seen.latest ≡ some latest)
            × ((body : Bytes) × Encodes to_vec publisher seen.last_poll_started_at_ms
                  (some latest)
                  (some state)
                  seen.last_error
                  body
                × (t ≡ replace_cached_response publisher (with_lifecycle state s) body)))
  unfolding lifecycle_attempt
  lifecycle_attempt-committed generation state seen s h = ground (
    arith,
    (nat_option_eq_sound s.classification_generation (some generation)),
    nat_option_eq_sound seen.classification_generation (some generation),
  )

  pub failure_attempt-committed :
      (error : String) (seen s : CurrentState) {t : CurrentState}
      → failure_attempt atlas_version to_vec publisher error seen s ≡ ok (committed t)
      → (s.status_revision ≡ seen.status_revision)
        × (s.classification_generation ≡ seen.classification_generation)
        × (s.classification_revision ≡ seen.classification_revision)
        × ((body : Bytes) × Encodes to_vec publisher seen.last_poll_started_at_ms seen.latest
              seen.classification_state
              (some error)
              body
            × (t ≡ replace_cached_response publisher (with_failure error s) body))
  unfolding failure_attempt
  failure_attempt-committed error seen s h =
      ground
        (arith, (nat_option_eq_sound s.classification_generation seen.classification_generation))

  pub prepare_update-some :
      (generation : ℕ) (delta : ClassificationRevisionDelta) (first : CurrentState)
      {prep : Preparation}
      → prepare_update atlas_version to_vec publisher generation delta first ≡ ok (some prep)
      → (first.classification_generation ≡ some generation)
        × (prep.current_revision ≡ first.classification_revision)
        × (delta.revision ≡ first.classification_revision + 1)
        × (first.membership ≡ some prep.membership)
        × (length (insert_changed delta.changed first.classifications)
            ≤ length prep.membership.transactions)
        × (prepare_observation atlas_version prep.membership delta.revision
              (insert_changed delta.changed first.classifications)
            ≡ ok prep.observation)
  unfolding prepare_update
  prepare_update-some generation delta first h =
      ground (arith, nat_option_eq_sound first.classification_generation (some generation))
