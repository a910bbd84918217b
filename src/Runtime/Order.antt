-- ===== src/Runtime/Order.antt =====
-- In the order of its commits, what readers see of a source never goes back, and a state with the
-- marks of an earlier one shows the same.
use Prim.Native.String.{String}
use mempool_atlas.Prelude.{
  ℕ, ◌+◌, ◌^◌, ◌≤◌, ◌<◌, ◌≡◌, refl, sym, subst, ◌∙◌, ◌⊎◌, inl, inr, false, Option, none, some, List,
  [], ◌∷◌, Bytes, All, length, arith,
}
use mempool_atlas.Results.{Result}
use mempool_atlas.Model.Progress.{ClassificationState}
use mempool_atlas.Model.Observation.{MempoolObservation}
use mempool_atlas.Runtime.State.{
  CurrentStatePublisher, CurrentState, SourceSnapshotResponse, replace_cached_response, next_u64,
}
use mempool_atlas.Classification.Report.{ClassificationGenerationStart, ClassificationRevisionDelta}
use mempool_atlas.Runtime.Publish.{
  is_current_or_newer, record_poll_started, with_membership, with_classification, with_lifecycle,
  with_failure,
}
use mempool_atlas.Runtime.Commits.{
  membership_attempt-committed, update_attempt-committed, lifecycle_attempt-committed,
  failure_attempt-committed, prepare_update-some,
}
use mempool_atlas.Runtime.History.{
  Change, poll_started, membership_published, classification_published, lifecycle_published,
  failure_published, History, start, change,
}

abbrev pub generation_key : CurrentState → ℕ
generation_key s = elim s.classification_generation [ none ↦ 0 | some g ↦ g + 1 ]

-- The later state `t` has a newer generation, or the same with no older revision.
abbrev pub IsNewer : CurrentState → CurrentState → Type 0
IsNewer s t =
    (generation_key s < generation_key t)
    ⊎ ((generation_key s ≡ generation_key t)
        × (s.classification_revision ≤ t.classification_revision))

pub record SameContent (s t : CurrentState) : Type 0 where
  pub membership : s.membership ≡ t.membership
  pub latest : s.latest ≡ t.latest
  pub classifications : s.classifications ≡ t.classifications

pub record SameStatus (s t : CurrentState) : Type 0 where
  pub last_poll : s.last_poll_started_at_ms ≡ t.last_poll_started_at_ms
  pub last_error : s.last_error ≡ t.last_error
  pub state : s.classification_state ≡ t.classification_state

pub record Before (s t : CurrentState) : Type 0 where
  pub newer : IsNewer s t
  pub status : s.status_revision ≤ t.status_revision
  pub content :
      generation_key s ≡ generation_key t
      → s.classification_revision ≡ t.classification_revision
      → SameContent s t
  pub shown :
      generation_key s ≡ generation_key t
      → s.classification_revision ≡ t.classification_revision
      → s.status_revision ≡ t.status_revision
      → SameStatus s t

SameContent-refl : (s : CurrentState) → SameContent s s
SameContent-refl s = record { membership = refl; latest = refl; classifications = refl }

SameContent-trans : {s t u : CurrentState} → SameContent s t → SameContent t u → SameContent s u
SameContent-trans a b = record {
  membership = a.membership ∙ b.membership;
  latest = a.latest ∙ b.latest;
  classifications = a.classifications ∙ b.classifications;
}

SameStatus-trans : {s t u : CurrentState} → SameStatus s t → SameStatus t u → SameStatus s u
SameStatus-trans a b = record {
  last_poll = a.last_poll ∙ b.last_poll;
  last_error = a.last_error ∙ b.last_error;
  state = a.state ∙ b.state;
}

pub Before-refl : (s : CurrentState) → Before s s
Before-refl s = record {
  newer = inr (refl, omega arith);
  status = omega arith;
  content = λ a b. SameContent-refl s;
  shown = λ a b c. record { last_poll = refl; last_error = refl; state = refl };
}

pub Before-trans : {s t u : CurrentState} → Before s t → Before t u → Before s u
Before-trans {s} {t} {u} a b = record {
  newer = omega (arith, a.newer, b.newer);
  status = omega (arith, a.status, b.status);
  content = λ g r.
      SameContent-trans
        (a.content (omega (arith, a.newer, b.newer, g, r)) (omega (arith, a.newer, b.newer, g, r)))
        (b.content (omega (arith, a.newer, b.newer, g, r)) (omega (arith, a.newer, b.newer, g, r)));
  shown = λ g r q.
      SameStatus-trans
        (a.shown (omega (arith, a.newer, b.newer, g, r)) (omega (arith, a.newer, b.newer, g, r))
          (omega (arith, a.status, b.status, q)))
        (b.shown (omega (arith, a.newer, b.newer, g, r)) (omega (arith, a.newer, b.newer, g, r))
          (omega (arith, a.status, b.status, q)));
}

-- No wrap-around of the revision.
abbrev pub HasRoom : CurrentState → Type 0
HasRoom s = s.status_revision + 1 < 2 ^ 64

next_u64-lt : (n : ℕ) → n + 1 < 2 ^ 64 → next_u64 n ≡ n + 1
next_u64-lt n h = omega arith

-- The content stays, and the status moves on.
Before-touched :
    (s t : CurrentState)
    → t.classification_generation ≡ s.classification_generation
    → t.classification_revision ≡ s.classification_revision
    → t.status_revision ≡ s.status_revision + 1
    → SameContent s t
    → Before s t
Before-touched s t g r n c = record {
  newer = inr (rw g refl, omega (arith, r));
  status = omega (arith, n);
  content = λ a b. c;
  shown = λ a b q. absurd (omega (arith, n, q));
}

-- A newer mark replaces all.
Before-replaced :
    (s t : CurrentState)
    → (generation_key s < generation_key t)
      ⊎ ((generation_key s ≡ generation_key t)
          × (s.classification_revision < t.classification_revision))
    → s.status_revision ≤ t.status_revision
    → Before s t
Before-replaced s t k n = record {
  newer = omega (arith, k);
  status = n;
  content = λ a b. absurd (omega (arith, k, a, b));
  shown = λ a b q. absurd (omega (arith, k, a, b));
}

-- One commit on, the status revision moves by one at most.
abbrev pub Advances : CurrentState → CurrentState → Type 0
Advances s t = Before s t × (t.status_revision ≤ s.status_revision + 1)

All-later :
    {s t : CurrentState}
    → Before s t
    → (rs : List CurrentState) → All (λ r. Before r s) rs
    → All (λ r. Before r t) rs
All-later b [] a = tt
All-later b (r ∷ rs) (a, rest) = (Before-trans a b, All-later b rs rest)

generation_key-older :
    (o : Option ℕ) (g : ℕ)
    → is_current_or_newer o g ≡ false
    → elim o [ none ↦ 0 | some c ↦ c + 1 ] < g + 1
generation_key-older none g h = omega arith
generation_key-older (some c) g h = ground arith

Advances-membership :
    (publisher : CurrentStatePublisher) (p : ClassificationGenerationStart) (o : MempoolObservation)
    (s : CurrentState) (body : Bytes)
    → HasRoom s
    → is_current_or_newer s.classification_generation p.generation ≡ false
    → Advances s (replace_cached_response publisher (with_membership p o s) body)
unfolding replace_cached_response with_membership
Advances-membership publisher p o s body room h =
    let one = next_u64-lt s.status_revision room in
    (
      Before-replaced s (replace_cached_response publisher (with_membership p o s) body)
          (inl (generation_key-older s.classification_generation p.generation h))
          (omega (arith, one)),
      omega (arith, one),
    )

Advances-classification :
    (publisher : CurrentStatePublisher) (delta : ClassificationRevisionDelta)
    (o : MempoolObservation) (state : ClassificationState) (s : CurrentState) (body : Bytes)
    → HasRoom s
    → delta.revision ≡ s.classification_revision + 1
    → Advances s (replace_cached_response publisher (with_classification delta o state s) body)
unfolding replace_cached_response with_classification
Advances-classification publisher delta o state s body room h =
    let one = next_u64-lt s.status_revision room in
    (
      Before-replaced s
          (replace_cached_response publisher (with_classification delta o state s) body)
          (inr (refl, omega (arith, h))) (ground (arith, one)),
      ground (arith, one),
    )

Advances-lifecycle :
    (publisher : CurrentStatePublisher) (state : ClassificationState) (s : CurrentState)
    (body : Bytes)
    → HasRoom s
    → Advances s (replace_cached_response publisher (with_lifecycle state s) body)
unfolding replace_cached_response with_lifecycle
Advances-lifecycle publisher state s body room =
    let one = next_u64-lt s.status_revision room in
    (
      Before-touched s (replace_cached_response publisher (with_lifecycle state s) body) refl refl
          one (record { membership = refl; latest = refl; classifications = refl }),
      omega (arith, one),
    )

Advances-failure :
    (publisher : CurrentStatePublisher) (error : String) (s : CurrentState) (body : Bytes)
    → HasRoom s
    → Advances s (replace_cached_response publisher (with_failure error s) body)
unfolding replace_cached_response with_failure
Advances-failure publisher error s body room =
    let one = next_u64-lt s.status_revision room in
    (
      Before-touched s (replace_cached_response publisher (with_failure error s) body) refl refl one
          (record { membership = refl; latest = refl; classifications = refl }),
      omega (arith, one),
    )

Advances-poll :
    (started : ℕ) (s : CurrentState) → HasRoom s → Advances s (record_poll_started started s)
unfolding record_poll_started
Advances-poll started s room =
    let one = next_u64-lt s.status_revision room in
    (
      Before-touched s (record_poll_started started s) refl refl one
          (record { membership = refl; latest = refl; classifications = refl }),
      omega (arith, one),
    )

module _ (atlas_version : String) (to_vec : SourceSnapshotResponse → Result String Bytes)
    (publisher : CurrentStatePublisher) where
  pub Change-Advances :
      {past : List CurrentState} {s t : CurrentState}
      → HasRoom s
      → Change atlas_version to_vec publisher past s t
      → Advances s t
  Change-Advances {s = s} room (poll_started ms e) =
      subst (Advances s) (sym e) (Advances-poll ms s room)
  Change-Advances {s = s} room (membership_published p o seen _ _ _ h) =
      let (fresh, _, _, (body, _, e)) =
        membership_attempt-committed atlas_version to_vec publisher p o seen s h in
      subst (Advances s) (sym e) (Advances-membership publisher p o s body room fresh)
  Change-Advances {s = s} room
        (classification_published generation delta state first seen prep _ _ made _ _ h) =
      let (_, revision, _, (body, _, e)) =
        update_attempt-committed atlas_version to_vec publisher generation delta state prep _ s h in
      let (_, current, next, _, _, _) =
        prepare_update-some atlas_version to_vec publisher generation delta first made in
      subst (Advances s) (sym e) (
        Advances-classification publisher delta prep.observation state s body room
          (omega (arith, revision, current, next)))
  Change-Advances {s = s} room (lifecycle_published generation state seen _ h) =
      let (_, _, _, _, (latest, _, (body, _, e))) =
        lifecycle_attempt-committed atlas_version to_vec publisher generation state seen s h in
      subst (Advances s) (sym e) (Advances-lifecycle publisher state s body room)
  Change-Advances {s = s} room (failure_published error seen _ h) =
      let (_, _, _, (body, _, e)) =
        failure_attempt-committed atlas_version to_vec publisher error seen s h in
      subst (Advances s) (sym e) (Advances-failure publisher error s body room)

  -- In a history short enough for the revision, every state is before the last.
  pub History-Before :
      {s : CurrentState} {past : List CurrentState}
      → length past < 2 ^ 64
      → History atlas_version to_vec publisher s past
      → (s.status_revision ≤ length past) × All (λ r. Before r s) (s ∷ past)
  History-Before {s = s} short start = (omega arith, (Before-refl s, tt))
  History-Before {s = t} short (change {s} {past = past} h c) =
      let (bound, all) = History-Before (omega (arith, short)) h in
      let (b, one) = Change-Advances (omega (arith, bound, short)) c in
      (omega (arith, bound, one), (Before-refl t, All-later b (s ∷ past) all))
