-- ===== src/Runtime/Calls.antt =====
-- Whole calls of src/runtime/publisher.rs: that they end, and that what they commit is one round's.
use Prim.Native.String.{String}
use mempool_atlas.Prelude.{
  ℕ, map, ◌⊎◌, ◌≡◌, ◌≢◌, refl, ap, Bool, not, ◌==◌, if◌then◌else◌, inl, inr, true, false, Option,
  none, some, List, [], ◌∷◌, ◌++◌, Bytes, Contains, arith,
}
use mempool_atlas.Results.{Result, ok, err, panic, reject, ◌>>=◌, ◌>>◌}
use mempool_atlas.Model.Progress.{ClassificationState}
use mempool_atlas.Model.Observation.{MempoolObservation}
use mempool_atlas.Runtime.State.{
  RuntimeError, classification_report_generation_mismatch, CurrentStatePublisher, CurrentState,
  SourceSnapshotResponse, prepare_observation,
}
use mempool_atlas.Runtime.History.{Change, membership_published}
use mempool_atlas.Classification.Report.{ClassificationGenerationStart, ClassificationRevisionDelta}
use mempool_atlas.Runtime.Publish.{
  Preparation, StatusRead, status_read, prepare_update, is_current_or_newer, update_attempt,
  update_rounds, publish_classification_update, nat_option_eq, Attempt, superseded, again,
  committed, or_again, check_membership, membership_attempt, membership_rounds, publish_membership,
  lifecycle_attempt, publish_lifecycle, failure_attempt, publish_failure,
}

or_again-committed :
    (m rest : Result RuntimeError Attempt) {t : CurrentState}
    → (m >>= or_again rest) ≡ ok (committed t)
    → (m ≡ ok (committed t)) ⊎ ((m ≡ ok again) × (rest ≡ ok (committed t)))
or_again-committed m rest h = ground arith

or_again-ends :
    (m rest : Result RuntimeError Attempt) → rest ≢ ok again → (m >>= or_again rest) ≢ ok again
or_again-ends m rest h = ground arith

or_again-ends_now :
    (m rest : Result RuntimeError Attempt) → m ≢ ok again → (m >>= or_again rest) ≢ ok again
or_again-ends_now m rest h = ground arith

nat_option_eq_refl : (o : Option ℕ) → nat_option_eq o o ≡ true
nat_option_eq_refl none = refl
nat_option_eq_refl (some n) = ground arith

module _ (v : String) (to_vec : SourceSnapshotResponse → Result String Bytes)
    (publisher : CurrentStatePublisher) where
  membership_attempt-ends :
      (p : ClassificationGenerationStart) (o : MempoolObservation) (s : CurrentState)
      → membership_attempt v to_vec publisher p o s s ≢ ok again
  unfolding membership_attempt
  membership_attempt-ends p o s = ground (arith, nat_option_eq_refl s.classification_generation)

  lifecycle_attempt-ends :
      (generation : ℕ) (state : ClassificationState) (s : CurrentState)
      → lifecycle_attempt v to_vec publisher generation state s s ≢ ok again
  unfolding lifecycle_attempt
  lifecycle_attempt-ends generation state s =
      ground (arith, nat_option_eq_refl s.classification_generation)

  failure_attempt-ends :
      (error : String) (s : CurrentState) → failure_attempt v to_vec publisher error s s ≢ ok again
  unfolding failure_attempt
  failure_attempt-ends error s = ground (arith, nat_option_eq_refl s.classification_generation)

  update_attempt-ends :
      (generation : ℕ) (delta : ClassificationRevisionDelta) (state : ClassificationState)
      (prep : Preparation) (s : CurrentState)
      → update_attempt v to_vec publisher generation delta state prep (status_read s) s ≢ ok again
  unfolding update_attempt
  update_attempt-ends generation delta state prep s = ground arith

  membership_rounds-ends :
      (earlier later : List (CurrentState × CurrentState)) (s : CurrentState)
      (p : ClassificationGenerationStart) (o : MempoolObservation)
      → membership_rounds v to_vec publisher (earlier ++ (s, s) ∷ later) p o ≢ ok again
  unfolding membership_rounds
  membership_rounds-ends [] later s p o =
      or_again-ends_now (membership_attempt v to_vec publisher p o s s) _
        (membership_attempt-ends p o s)
  membership_rounds-ends ((a, b) ∷ earlier) later s p o =
      or_again-ends (membership_attempt v to_vec publisher p o a b) _
        (membership_rounds-ends earlier later s p o)

  publish_lifecycle-ends :
      (earlier later : List (CurrentState × CurrentState)) (s : CurrentState) (generation : ℕ)
      (state : ClassificationState)
      → publish_lifecycle v to_vec publisher (earlier ++ (s, s) ∷ later) generation state ≢ ok again
  unfolding publish_lifecycle
  publish_lifecycle-ends [] later s generation state =
      or_again-ends_now (lifecycle_attempt v to_vec publisher generation state s s) _
        (lifecycle_attempt-ends generation state s)
  publish_lifecycle-ends ((a, b) ∷ earlier) later s generation state =
      or_again-ends (lifecycle_attempt v to_vec publisher generation state a b) _
        (publish_lifecycle-ends earlier later s generation state)

  publish_failure-ends :
      (earlier later : List (CurrentState × CurrentState)) (s : CurrentState) (error : String)
      → publish_failure v to_vec publisher (earlier ++ (s, s) ∷ later) error ≢ ok again
  unfolding publish_failure
  publish_failure-ends [] later s error =
      or_again-ends_now (failure_attempt v to_vec publisher error s s) _
        (failure_attempt-ends error s)
  publish_failure-ends ((a, b) ∷ earlier) later s error =
      or_again-ends (failure_attempt v to_vec publisher error a b) _
        (publish_failure-ends earlier later s error)

  update_rounds-ends :
      (earlier later : List CurrentState) (s : CurrentState) (generation : ℕ)
      (delta : ClassificationRevisionDelta) (state : ClassificationState) (prep : Preparation)
      (status : StatusRead)
      → update_rounds v to_vec publisher
          (earlier ++ s ∷ s ∷ later)
          generation
          delta
          state
          prep
          status
        ≢ ok again
  unfolding update_rounds
  update_rounds-ends [] later s generation delta state prep status =
      or_again-ends (update_attempt v to_vec publisher generation delta state prep status s) _ (
        or_again-ends_now
          (update_attempt v to_vec publisher generation delta state prep (status_read s) s) _
          (update_attempt-ends generation delta state prep s))
  update_rounds-ends (a ∷ earlier) later s generation delta state prep status =
      or_again-ends (update_attempt v to_vec publisher generation delta state prep status a) _
        (update_rounds-ends earlier later s generation delta state prep (status_read a))

  prepared_ends :
      (m : Result RuntimeError (Option Preparation)) (f : Preparation → Result RuntimeError Attempt)
      → ((prep : Preparation) → f prep ≢ ok again)
      → (m >>= λ prepared. elim prepared [ none ↦ ok superseded | some prep ↦ f prep ]) ≢ ok again
  prepared_ends (err e) f h = λ q. cc
  prepared_ends (ok none) f h = λ q. cc
  prepared_ends (ok (some prep)) f h = h prep
  prepared_ends panic f h = λ q. cc

  observed_ends :
      (c : Result RuntimeError Unit) (b : Bool) (m : Result RuntimeError MempoolObservation)
      (f : MempoolObservation → Result RuntimeError Attempt)
      → ((o : MempoolObservation) → f o ≢ ok again)
      → (c >> (if b then ok superseded else m >>= f)) ≢ ok again
  observed_ends (err e) b m f h = λ q. cc
  observed_ends panic b m f h = λ q. cc
  observed_ends (ok u) true m f h = λ q. cc
  observed_ends (ok u) false (err e) f h = λ q. cc
  observed_ends (ok u) false (ok o) f h = h o
  observed_ends (ok u) false panic f h = λ q. cc

  publish_membership-ends :
      (p : ClassificationGenerationStart) (first : CurrentState)
      (rounds : List (CurrentState × CurrentState))
      → ((o : MempoolObservation) → membership_rounds v to_vec publisher rounds p o ≢ ok again)
      → publish_membership v to_vec publisher p first rounds ≢ ok again
  unfolding publish_membership
  publish_membership-ends p first rounds h =
      observed_ends (check_membership publisher p)
        (is_current_or_newer first.classification_generation p.generation)
        (prepare_observation v p.membership p.revision p.classifications)
        (membership_rounds v to_vec publisher rounds p) h

  map-rounds :
      (earlier later : List (CurrentState × CurrentState)) (x s : CurrentState)
      → map (λ r. r.1) (earlier ++ (x, s) ∷ (s, s) ∷ later)
        ≡ map (λ r. r.1) earlier ++ s ∷ s ∷ map (λ r. r.1) later
  map-rounds [] later x s = refl
  map-rounds (r ∷ earlier) later x s = ap (◌∷◌ r.1) (map-rounds earlier later x s)

  append-round :
      (earlier later : List (CurrentState × CurrentState)) (a b : CurrentState × CurrentState)
      → earlier ++ a ∷ b ∷ later ≡ (earlier ++ a ∷ []) ++ b ∷ later
  append-round [] later a b = refl
  append-round (r ∷ earlier) later a b = ap (◌∷◌ r) (append-round earlier later a b)

  reject-ends :
      (c : Result RuntimeError Unit) (m : Result RuntimeError Attempt)
      → m ≢ ok again
      → (c >> m) ≢ ok again
  reject-ends c m h = ground arith

  publish_classification_update-ends :
      (earlier later : List (CurrentState × CurrentState)) (x s first : CurrentState)
      (generation : ℕ) (delta : Option ClassificationRevisionDelta) (state : ClassificationState)
      → publish_classification_update v to_vec publisher generation delta state first
          (earlier ++ (x, s) ∷ (s, s) ∷ later)
        ≢ ok again
  unfolding publish_classification_update
  publish_classification_update-ends earlier later x s first generation none state =
      rw (append-round earlier later (x, s) (s, s))
        (publish_lifecycle-ends (earlier ++ (x, s) ∷ []) later s generation state)
  publish_classification_update-ends earlier later x s first generation (some delta) state =
      reject-ends
        (reject (not (delta.generation == generation))
          (classification_report_generation_mismatch generation delta.generation))
        _
        (prepared_ends (prepare_update v to_vec publisher generation delta first) _ (λ prep.
          rw (map-rounds earlier later x s) (
            update_rounds-ends (map (λ r. r.1) earlier) (map (λ r. r.1) later) s generation delta
              state prep (status_read first))))

  -- No call to publish runs on once it is undisturbed: whatever the rounds before found and
  -- whatever comes later, the call returns, with a result or an error, by the round that commits on
  -- the state it read. For classifications this is the second round in a row that finds the state.
  pub publish-ends :
      (earlier later : List (CurrentState × CurrentState)) (x s first : CurrentState)
      (p : ClassificationGenerationStart) (error : String) (generation : ℕ)
      (delta : Option ClassificationRevisionDelta) (state : ClassificationState)
      → (publish_membership v to_vec publisher p first (earlier ++ (s, s) ∷ later) ≢ ok again)
        × (publish_classification_update v to_vec publisher generation delta state first
              (earlier ++ (x, s) ∷ (s, s) ∷ later)
            ≢ ok again)
        × (publish_failure v to_vec publisher (earlier ++ (s, s) ∷ later) error ≢ ok again)
  publish-ends earlier later x s first p error generation delta state = (
    publish_membership-ends p first (earlier ++ (s, s) ∷ later)
        (membership_rounds-ends earlier later s p),
    publish_classification_update-ends earlier later x s first generation delta state,
    publish_failure-ends earlier later s error,
  )

  membership_rounds-committed :
      (rounds : List (CurrentState × CurrentState)) (p : ClassificationGenerationStart)
      (o : MempoolObservation) {t : CurrentState}
      → membership_rounds v to_vec publisher rounds p o ≡ ok (committed t)
      → (round : CurrentState × CurrentState) × Contains round rounds
        × (membership_attempt v to_vec publisher p o round.0 round.1 ≡ ok (committed t))
  unfolding membership_rounds
  membership_rounds-committed [] p o h = cc
  membership_rounds-committed (round ∷ rounds) p o h =
      elim (or_again-committed (membership_attempt v to_vec publisher p o round.0 round.1)
        (membership_rounds v to_vec publisher rounds p o) h) [
          | inl now ↦ (round, inl refl, now)
          | inr (_, next) ↦
              let (r, inside, found) = membership_rounds-committed rounds p o next in
              (r, inr inside, found)
        ]

  observed_committed :
      (c : Result RuntimeError Unit) (b : Bool) (m : Result RuntimeError MempoolObservation)
      (f : MempoolObservation → Result RuntimeError Attempt) {t : CurrentState}
      → (c >> (if b then ok superseded else m >>= f)) ≡ ok (committed t)
      → (c ≡ ok tt) × ((o : MempoolObservation) × (m ≡ ok o) × (f o ≡ ok (committed t)))
  observed_committed c b m f h = ground arith

  -- When a call to publish a membership commits a state, one of its rounds replaced the state that
  -- it found at the commit by this one, as a change of any history in which it read its state.
  pub publish_membership-Change :
      (p : ClassificationGenerationStart) (first : CurrentState)
      (rounds : List (CurrentState × CurrentState)) {t : CurrentState}
      → publish_membership v to_vec publisher p first rounds ≡ ok (committed t)
      → (round : CurrentState × CurrentState) × Contains round rounds
        × ((past : List CurrentState)
            → Contains round.0 (round.1 ∷ past)
            → Change v to_vec publisher past round.1 t)
  unfolding publish_membership
  publish_membership-Change p first rounds h =
      let (checked, (o, prepared, found)) =
        observed_committed (check_membership publisher p)
          (is_current_or_newer first.classification_generation p.generation)
          (prepare_observation v p.membership p.revision p.classifications)
          (membership_rounds v to_vec publisher rounds p) h in
      let (round, inside, commits) = membership_rounds-committed rounds p o found in
      (round, inside, λ past seen. membership_published p o round.0 seen checked prepared commits)
