-- ===== src/Runtime/Coherence.antt =====
-- The published state of src/runtime/publisher.rs is of one piece, however calls are interleaved.
use Prim.Native.String.{String}
use text.Mathlib.TextEquality.{eq_iff}
use mempool_atlas.Prelude.{
  ℕ, ◌≤◌, ◌≡◌, refl, sym, ◌∙◌, ◌⊎◌, inl, inr, Option, none, some, Bytes, length, map_option, arith,
}
use mempool_atlas.Results.{Result, ok}
use mempool_atlas.Model.Snapshot.{MempoolSnapshot}
use mempool_atlas.Model.Progress.{ClassificationState}
use mempool_atlas.Model.Observation.{
  Classifications, MempoolObservation, materialize_retained, new_observation,
}
use mempool_atlas.Runtime.State.{
  CurrentStatePublisher, CurrentState, SourceSnapshotResponse, etag_of, replace_cached_response,
  prepare_observation,
}
use mempool_atlas.Classification.Report.{ClassificationGenerationStart, ClassificationRevisionDelta}
use mempool_atlas.Runtime.Publish.{
  initial_classification_state, check_membership, record_poll_started, with_membership,
  with_classification, with_lifecycle, with_failure,
}
use mempool_atlas.Runtime.Commits.{Encodes}

pub new_observation-ok :
    (s : MempoolSnapshot) (c : Classifications) {o : MempoolObservation}
    → new_observation s c ≡ ok o
    → o ≡ record { snapshot = s; classifications = c }
unfolding new_observation
new_observation-ok s c h = ground arith

pub materialize_retained-classifications :
    (v : String) (m : MempoolSnapshot) (revision : ℕ) (c : Classifications) {o : MempoolObservation}
    → materialize_retained v m revision c ≡ ok o
    → o.classifications ≡ c
unfolding materialize_retained new_observation
materialize_retained-classifications v m revision c h = ground arith

prepare_observation-ok :
    (v : String) (m : MempoolSnapshot) (revision : ℕ) (c : Classifications) {o : MempoolObservation}
    → prepare_observation v m revision c ≡ ok o
    → materialize_retained v m revision c ≡ ok o
unfolding prepare_observation
prepare_observation-ok v m revision c h = ground arith

pub prepare_observation-classifications :
    (v : String) (m : MempoolSnapshot) (revision : ℕ) (c : Classifications) {o : MempoolObservation}
    → prepare_observation v m revision c ≡ ok o
    → o.classifications ≡ c
prepare_observation-classifications v m revision c h =
    materialize_retained-classifications v m revision c (prepare_observation-ok v m revision c h)

check_membership-ok :
    (publisher : CurrentStatePublisher) (p : ClassificationGenerationStart)
    → check_membership publisher p ≡ ok tt
    → (p.membership.source_id ≡ publisher.source_id)
      × (length p.classifications ≤ length p.membership.transactions)
unfolding check_membership
check_membership-ok publisher p h =
    ground (arith, (eq_iff p.membership.source_id publisher.source_id).0)

-- The observation of the membership with the classifications, under one generation and revision.
pub record Observed (v : String) (publisher : CurrentStatePublisher) (s : CurrentState)
    : Type 0 where
  pub member : MempoolSnapshot
  pub shown : MempoolSnapshot
  pub generation : ℕ
  pub state : ClassificationState
  pub has_membership : s.membership ≡ some member
  pub has_latest : s.latest ≡ some shown
  pub has_generation : s.classification_generation ≡ some generation
  pub has_state : s.classification_state ≡ some state
  pub of_source : member.source_id ≡ publisher.source_id
  pub fits : length s.classifications ≤ length member.transactions
  pub made :
      materialize_retained v member s.classification_revision s.classifications
      ≡ ok (record { snapshot = shown; classifications = s.classifications })

-- Nothing was published yet.
pub record IsUnobserved (s : CurrentState) : Type 0 where
  pub no_membership : s.membership ≡ none
  pub no_latest : s.latest ≡ none
  pub no_generation : s.classification_generation ≡ none
  pub no_state : s.classification_state ≡ none

-- The cached response encodes the state, but for a poll that has started since.
abbrev pub IsCurrent :
    (SourceSnapshotResponse → Result String Bytes) → CurrentStatePublisher → CurrentState → Type 0
IsCurrent to_vec publisher s =
    (s.cached_response ≡ none)
    ⊎ ((poll : Option ℕ) × (body : Bytes) × Encodes to_vec publisher poll s.latest
          s.classification_state s.last_error body
        × (s.cached_response
            ≡ some (record {
              body = body;
              etag =
                  map_option
                    (λ snapshot.
                      etag_of publisher.source_id snapshot.observed_at_ms s.response_revision)
                    s.latest;
            })))

abbrev pub IsCoherent :
    String
    → (SourceSnapshotResponse → Result String Bytes)
    → CurrentStatePublisher
    → CurrentState
    → Type 0
IsCoherent v to_vec publisher s =
    (IsUnobserved s ⊎ Observed v publisher s) × IsCurrent to_vec publisher s

pub some-ne-none : {A : Type 0} {a : A} → some a ≡ none → ⊥
some-ne-none h = cc

module _ (v : String) (to_vec : SourceSnapshotResponse → Result String Bytes)
    (publisher : CurrentStatePublisher) where
  replaced-IsCurrent :
      (s : CurrentState) (poll : Option ℕ) (body : Bytes)
      → Encodes to_vec publisher poll s.latest s.classification_state s.last_error body
      → IsCurrent to_vec publisher (replace_cached_response publisher s body)
  unfolding replace_cached_response
  replaced-IsCurrent s poll body e = inr (poll, body, e, refl)

  pub membership-IsCoherent :
      (p : ClassificationGenerationStart) (o : MempoolObservation) (s : CurrentState)
      (poll : Option ℕ) (body : Bytes)
      → check_membership publisher p ≡ ok tt
      → prepare_observation v p.membership p.revision p.classifications ≡ ok o
      → Encodes to_vec publisher poll
          (some o.snapshot)
          (some (initial_classification_state p.has_eligible_work))
          none
          body
      → IsCoherent v to_vec publisher
          (replace_cached_response publisher (with_membership p o s) body)
  unfolding replace_cached_response with_membership
  membership-IsCoherent p o s poll body checked prepared e =
      let made = prepare_observation-ok v p.membership p.revision p.classifications prepared in
      let same =
        materialize_retained-classifications v p.membership p.revision p.classifications made in
      let (source, few) = check_membership-ok publisher p checked in
      (
        inr (record {
          member = p.membership;
          shown = o.snapshot;
          generation = p.generation;
          state = initial_classification_state p.has_eligible_work;
          has_membership = refl;
          has_latest = refl;
          has_generation = refl;
          has_state = refl;
          of_source = source;
          fits = rw same few;
          made = rw same (rw same at made);
        }),
        inr (poll, body, e, refl),
      )

  pub update-IsCoherent :
      (generation : ℕ) (delta : ClassificationRevisionDelta) (state : ClassificationState)
      (o : MempoolObservation) (s : CurrentState) (poll : Option ℕ) (body : Bytes)
      (m : MempoolSnapshot) (c : Classifications)
      → s.membership ≡ some m
      → m.source_id ≡ publisher.source_id
      → s.classification_generation ≡ some generation
      → length c ≤ length m.transactions
      → prepare_observation v m delta.revision c ≡ ok o
      → Encodes to_vec publisher poll (some o.snapshot) (some state) s.last_error body
      → IsCoherent v to_vec publisher
          (replace_cached_response publisher (with_classification delta o state s) body)
  unfolding replace_cached_response with_classification
  update-IsCoherent generation delta state o s poll body m c member source gen few prepared e =
      let made = prepare_observation-ok v m delta.revision c prepared in
      let same = materialize_retained-classifications v m delta.revision c made in
      (
        inr (record {
          member = m;
          shown = o.snapshot;
          generation = generation;
          state = state;
          has_membership = member;
          has_latest = refl;
          has_generation = gen;
          has_state = refl;
          of_source = source;
          fits = rw same few;
          made = rw same (rw same at made);
        }),
        inr (poll, body, e, refl),
      )

  pub lifecycle-IsCoherent :
      (generation : ℕ) (state : ClassificationState) (s : CurrentState) (poll : Option ℕ)
      (body : Bytes)
      → s.classification_generation ≡ some generation
      → Encodes to_vec publisher poll s.latest (some state) s.last_error body
      → IsUnobserved s ⊎ Observed v publisher s
      → IsCoherent v to_vec publisher
          (replace_cached_response publisher (with_lifecycle state s) body)
  unfolding replace_cached_response with_lifecycle
  lifecycle-IsCoherent generation state s poll body gen e (inl u) =
      let none_now = u.no_generation in absurd (some-ne-none (sym gen ∙ none_now))
  lifecycle-IsCoherent generation state s poll body gen e (inr w) = (
    inr (record {
      member = w.member;
      shown = w.shown;
      generation = w.generation;
      state = state;
      has_membership = w.has_membership;
      has_latest = w.has_latest;
      has_generation = w.has_generation;
      has_state = refl;
      of_source = w.of_source;
      fits = w.fits;
      made = w.made;
    }),
    inr (poll, body, e, refl),
  )

  same_content :
      (s t : CurrentState)
      → t.membership ≡ s.membership
      → t.latest ≡ s.latest
      → t.classifications ≡ s.classifications
      → t.classification_generation ≡ s.classification_generation
      → t.classification_revision ≡ s.classification_revision
      → t.classification_state ≡ s.classification_state
      → IsUnobserved s ⊎ Observed v publisher s
      → IsUnobserved t ⊎ Observed v publisher t
  same_content s t a b c d e f (inl u) = inl (record {
    no_membership = a ∙ u.no_membership;
    no_latest = b ∙ u.no_latest;
    no_generation = d ∙ u.no_generation;
    no_state = f ∙ u.no_state;
  })
  same_content s t a b c d e f (inr w) = inr (record {
    member = w.member;
    shown = w.shown;
    generation = w.generation;
    state = w.state;
    has_membership = a ∙ w.has_membership;
    has_latest = b ∙ w.has_latest;
    has_generation = d ∙ w.has_generation;
    has_state = f ∙ w.has_state;
    of_source = w.of_source;
    fits = rw c w.fits;
    made = rw (c, e) w.made;
  })

  pub failure-IsCoherent :
      (error : String) (s : CurrentState) (poll : Option ℕ) (body : Bytes)
      → Encodes to_vec publisher poll s.latest s.classification_state (some error) body
      → IsUnobserved s ⊎ Observed v publisher s
      → IsCoherent v to_vec publisher
          (replace_cached_response publisher (with_failure error s) body)
  unfolding replace_cached_response with_failure
  failure-IsCoherent error s poll body e w = (
    same_content s (replace_cached_response publisher (with_failure error s) body) refl refl refl
        refl refl refl w,
    inr (poll, body, e, refl),
  )

  pub poll-IsCoherent :
      (started : ℕ) (s : CurrentState)
      → IsCoherent v to_vec publisher s
      → IsCoherent v to_vec publisher (record_poll_started started s)
  unfolding record_poll_started
  poll-IsCoherent started s (w, current) =
      (same_content s (record_poll_started started s) refl refl refl refl refl refl w, current)
