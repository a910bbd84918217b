-- ===== src/Runtime/Publish.antt =====
-- src/runtime/publisher.rs: the calls that publish. A call reads the state under the lock, prepares
-- the response outside it, and commits under the lock when the state is still the one it read. Of
-- each loop, `…_attempt` is one round, on the state that is read and the state at the commit; the
-- loop takes these states round by round.
use Prim.Native.String.{String}
use text.Mathlib.Text.{◌==◌ as str_eq}
use mempool_atlas.Prelude.{
  ℕ, ◌+◌, ◌^◌, Bool, true, false, ◌||◌, not, Option, none, some, List, [], ◌∷◌, Bytes, length, map,
  ltb, leb, ◌==◌, if◌then◌else◌,
}
use mempool_atlas.Results.{Result, ok, err, reject, ◌>>=◌, ◌>>◌}
use mempool_atlas.Model.Snapshot.{MempoolSnapshot}
use mempool_atlas.Model.Validation.{TransactionClassification}
use mempool_atlas.Model.Progress.{ClassificationState, classifying, complete, paused}
use mempool_atlas.Model.Observation.{
  Classifications, MempoolObservation, insert_classification, option_eq,
}
use mempool_atlas.Classification.Report.{ClassificationGenerationStart, ClassificationRevisionDelta}
use mempool_atlas.Runtime.State.{
  RuntimeError, snapshot_source_mismatch, classification_generation_overflow,
  classification_report_generation_mismatch, classification_revision_mismatch,
  classification_revision_sequence, classifications_exceed_membership,
  classification_state_without_snapshot, CurrentStatePublisher, CurrentState,
  SourceSnapshotResponse, next_u64, summary_from_parts, replace_cached_response,
  prepare_observation, encode_response,
}

-- What a round comes to: `superseded` is `Ok(false)`, `again` another round, `unchanged` an
-- `Ok(true)` without a commit, and `committed` an `Ok(true)` with the state that is left.
pub data Attempt : Type 0 where
  superseded again unchanged : Attempt
  committed : CurrentState → Attempt

abbrev pub nat_option_eq : Option ℕ → Option ℕ → Bool
nat_option_eq = option_eq (◌==◌)

abbrev pub same_classification_state : ClassificationState → ClassificationState → Bool
same_classification_state classifying classifying = true
same_classification_state complete complete = true
same_classification_state paused paused = true
same_classification_state _ _ = false

abbrev pub or_error : {A : Type 0} → Option A → RuntimeError → Result RuntimeError A
or_error none e = err e
or_error (some a) e = ok a

unfoldable pub record_poll_started : ℕ → CurrentState → CurrentState
record_poll_started started_at_ms state = record state {
  last_poll_started_at_ms = some started_at_ms;
  status_revision = next_u64 state.status_revision;
}

abbrev pub is_current_or_newer : Option ℕ → ℕ → Bool
is_current_or_newer none generation = false
is_current_or_newer (some current) generation = leb generation current

abbrev pub initial_classification_state : Bool → ClassificationState
initial_classification_state true = classifying
initial_classification_state false = complete

unfoldable pub check_membership :
    CurrentStatePublisher → ClassificationGenerationStart → Result RuntimeError Unit
check_membership publisher p = do
  reject (not (str_eq p.membership.source_id publisher.source_id))
      (snapshot_source_mismatch publisher.source_id p.membership.source_id)
  reject (not (p.revision == 0)) (classification_revision_mismatch p.revision 0)
  reject (ltb (length p.membership.transactions) (length p.classifications)) (
      classifications_exceed_membership (length p.classifications)
        (length p.membership.transactions))

-- The assignments of a commit, before the response is replaced.
unfoldable pub with_membership :
    ClassificationGenerationStart → MempoolObservation → CurrentState → CurrentState
with_membership p observation state = record state {
  membership = some p.membership;
  latest = some observation.snapshot;
  classifications = observation.classifications;
  last_error = none;
  classification_generation = some p.generation;
  classification_revision = p.revision;
  classification_state = some (initial_classification_state p.has_eligible_work);
  status_revision = next_u64 state.status_revision;
}

unfoldable pub with_classification :
    ClassificationRevisionDelta
    → MempoolObservation
    → ClassificationState
    → CurrentState
    → CurrentState
with_classification delta observation classification_state state = record state {
  latest = some observation.snapshot;
  classifications = observation.classifications;
  classification_revision = delta.revision;
  classification_state = some classification_state;
  status_revision =
      if option_eq same_classification_state state.classification_state (some classification_state)
      then state.status_revision
      else next_u64 state.status_revision;
}

unfoldable pub with_lifecycle : ClassificationState → CurrentState → CurrentState
with_lifecycle classification_state state = record state {
  classification_state = some classification_state;
  status_revision = next_u64 state.status_revision;
}

unfoldable pub with_failure : String → CurrentState → CurrentState
with_failure error state = record state {
  last_error = some error;
  status_revision = next_u64 state.status_revision;
}

-- `MempoolSnapshot` with the classifications of a revision in preparation.
pub record Preparation : Type 0 where
  pub current_revision : ℕ
  pub membership : MempoolSnapshot
  pub observation : MempoolObservation

-- What an update reads again before each round.
pub record StatusRead : Type 0 where
  pub status_revision : ℕ
  pub last_poll_started_at_ms : Option ℕ
  pub last_error : Option String

abbrev pub status_read : CurrentState → StatusRead
status_read state = record {
  status_revision = state.status_revision;
  last_poll_started_at_ms = state.last_poll_started_at_ms;
  last_error = state.last_error;
}

abbrev pub insert_changed : List TransactionClassification → Classifications → Classifications
insert_changed [] classifications = classifications
insert_changed (c ∷ changed) classifications =
    insert_changed changed (insert_classification (c.txid, c) classifications)

-- `continue` where the round says so, else `return`.
abbrev pub or_again : Result RuntimeError Attempt → Attempt → Result RuntimeError Attempt
or_again rest superseded = ok superseded
or_again rest again = rest
or_again rest unchanged = ok unchanged
or_again rest (committed state) = ok (committed state)

module _ (atlas_version : String) (to_vec : SourceSnapshotResponse → Result String Bytes)
    (publisher : CurrentStatePublisher) where
  unfoldable pub membership_attempt :
      ClassificationGenerationStart
      → MempoolObservation
      → (seen current : CurrentState) → Result RuntimeError Attempt
  unfolding encode_response summary_from_parts replace_cached_response with_membership
  membership_attempt p observation seen current =
      if is_current_or_newer seen.classification_generation p.generation then ok superseded else do
        body ← encode_response to_vec (record {
          source =
              summary_from_parts publisher seen.last_poll_started_at_ms (some observation.snapshot)
                (some (initial_classification_state p.has_eligible_work)) none;
          snapshot = some observation.snapshot;
        })
        ok (
            if is_current_or_newer current.classification_generation p.generation
            then superseded
            else if not (current.status_revision == seen.status_revision)
                || not
                    (nat_option_eq current.classification_generation seen.classification_generation)
            then again
            else committed
                (replace_cached_response publisher (with_membership p observation current) body))

  unfoldable pub membership_rounds :
      List (CurrentState × CurrentState)
      → ClassificationGenerationStart
      → MempoolObservation
      → Result RuntimeError Attempt
  unfolding membership_attempt
  membership_rounds [] p observation = ok again
  membership_rounds (round ∷ rounds) p observation =
      let rest = membership_rounds rounds p observation in
      membership_attempt p observation round.0 round.1 >>= or_again rest

  unfoldable pub publish_membership :
      ClassificationGenerationStart
      → (first : CurrentState) → (rounds : List (CurrentState × CurrentState))
      → Result RuntimeError Attempt
  unfolding check_membership prepare_observation membership_rounds
  publish_membership p first rounds = do
    check_membership publisher p
    if is_current_or_newer first.classification_generation p.generation then ok superseded else do
      observation ← prepare_observation atlas_version p.membership p.revision p.classifications
      membership_rounds rounds p observation

  -- `None` where the update is superseded already.
  unfoldable pub prepare_update :
      (generation : ℕ)
      → ClassificationRevisionDelta
      → (first : CurrentState) → Result RuntimeError (Option Preparation)
  unfolding prepare_observation
  prepare_update generation delta first =
      if not (nat_option_eq first.classification_generation (some generation))
        || leb delta.revision first.classification_revision
      then ok none
      else do
        reject (leb (2 ^ 64) (first.classification_revision + 1)) classification_generation_overflow
        reject (not (delta.revision == first.classification_revision + 1))
            (classification_revision_sequence first.classification_revision delta.revision)
        membership ← or_error first.membership classification_state_without_snapshot
        let classifications = insert_changed delta.changed first.classifications
        reject (ltb (length membership.transactions) (length classifications)) (
            classifications_exceed_membership (length classifications)
              (length membership.transactions))
        observation ← prepare_observation atlas_version membership delta.revision classifications
        ok (
            some (record {
              current_revision = first.classification_revision;
              membership = membership;
              observation = observation;
            }))

  unfoldable pub update_attempt :
      (generation : ℕ)
      → ClassificationRevisionDelta
      → ClassificationState
      → Preparation
      → (status : StatusRead) → (current : CurrentState) → Result RuntimeError Attempt
  unfolding encode_response summary_from_parts replace_cached_response with_classification
  update_attempt generation delta classification_state prep status current = do
    body ← encode_response to_vec (record {
      source =
          summary_from_parts publisher status.last_poll_started_at_ms
            (some prep.observation.snapshot) (some classification_state) status.last_error;
      snapshot = some prep.observation.snapshot;
    })
    ok (
        if not (nat_option_eq current.classification_generation (some generation))
          || not (current.classification_revision == prep.current_revision)
        then superseded
        else if not (current.status_revision == status.status_revision)
        then again
        else committed (
            replace_cached_response publisher
              (with_classification delta prep.observation classification_state current) body))

  unfoldable pub update_rounds :
      List CurrentState
      → (generation : ℕ) → ClassificationRevisionDelta
      → ClassificationState
      → Preparation
      → StatusRead
      → Result RuntimeError Attempt
  unfolding update_attempt
  update_rounds [] generation delta classification_state prep status = ok again
  update_rounds (current ∷ rounds) generation delta classification_state prep status =
      let rest =
        update_rounds rounds generation delta classification_state prep (status_read current) in
      update_attempt generation delta classification_state prep status current >>= or_again rest

  unfoldable pub lifecycle_attempt :
      (generation : ℕ)
      → ClassificationState
      → (seen current : CurrentState) → Result RuntimeError Attempt
  unfolding encode_response summary_from_parts replace_cached_response with_lifecycle
  lifecycle_attempt generation classification_state seen current =
      if not (nat_option_eq seen.classification_generation (some generation))
      then ok superseded
      else do
        latest ← or_error seen.latest classification_state_without_snapshot
        if option_eq same_classification_state seen.classification_state (some classification_state)
            then ok unchanged
            else do
              body ← encode_response to_vec (record {
                source =
                    summary_from_parts publisher seen.last_poll_started_at_ms (some latest)
                      (some classification_state) seen.last_error;
                snapshot = some latest;
              })
              ok (
                  if not (nat_option_eq current.classification_generation (some generation))
                  then superseded
                  else if not (current.status_revision == seen.status_revision)
                      || not (current.classification_revision == seen.classification_revision)
                  then again
                  else committed (
                      replace_cached_response publisher
                        (with_lifecycle classification_state current) body))

  unfoldable pub publish_lifecycle :
      List (CurrentState × CurrentState)
      → (generation : ℕ) → ClassificationState
      → Result RuntimeError Attempt
  unfolding lifecycle_attempt
  publish_lifecycle [] generation classification_state = ok again
  publish_lifecycle (round ∷ rounds) generation classification_state =
      let rest = publish_lifecycle rounds generation classification_state in
      lifecycle_attempt generation classification_state round.0 round.1 >>= or_again rest

  -- `rounds` are those of the lifecycle without a delta, and the states at the commits with one.
  unfoldable pub publish_classification_update :
      (generation : ℕ)
      → Option ClassificationRevisionDelta
      → ClassificationState
      → (first : CurrentState) → (rounds : List (CurrentState × CurrentState))
      → Result RuntimeError Attempt
  unfolding prepare_update update_rounds publish_lifecycle
  publish_classification_update generation none classification_state first rounds =
      publish_lifecycle rounds generation classification_state
  publish_classification_update generation (some delta) classification_state first rounds = do
    reject (not (delta.generation == generation))
        (classification_report_generation_mismatch generation delta.generation)
    prepared ← prepare_update generation delta first
    elim prepared [
      | none ↦ ok superseded
      | some prep ↦
          update_rounds (map (λ round. round.1) rounds) generation delta classification_state prep
            (status_read first)
    ]

  unfoldable pub failure_attempt :
      (error : String) → (seen current : CurrentState) → Result RuntimeError Attempt
  unfolding encode_response summary_from_parts replace_cached_response with_failure
  failure_attempt error seen current = do
    body ← encode_response to_vec (record {
      source =
          summary_from_parts publisher seen.last_poll_started_at_ms seen.latest
            seen.classification_state (some error);
      snapshot = seen.latest;
    })
    ok (
        if not (current.status_revision == seen.status_revision)
          || (not (nat_option_eq current.classification_generation seen.classification_generation)
              || not (current.classification_revision == seen.classification_revision))
        then again
        else committed (replace_cached_response publisher (with_failure error current) body))

  unfoldable pub publish_failure :
      List (CurrentState × CurrentState) → (error : String) → Result RuntimeError Attempt
  unfolding failure_attempt
  publish_failure [] error = ok again
  publish_failure (round ∷ rounds) error =
      let rest = publish_failure rounds error in
      failure_attempt error round.0 round.1 >>= or_again rest
