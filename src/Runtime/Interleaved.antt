-- ===== src/Runtime/Interleaved.antt =====
-- Every state that interleaved calls of src/runtime/publisher.rs reach is coherent.
use Prim.Native.String.{String}
use mempool_atlas.Prelude.{
  ℕ, ◌+◌, ◌^◌, ◌<◌, ◌≡◌, refl, sym, subst, ◌∙◌, ap, ◌⊎◌, inl, inr, some, List, [], ◌∷◌, Bytes, All,
  Contains, length, arith, eq_of_some,
}
use mempool_atlas.Results.{Result, ok}
use mempool_atlas.Model.Snapshot.{MempoolSnapshot}
use mempool_atlas.Model.Progress.{ClassificationState}
use mempool_atlas.Model.Observation.{MempoolObservation}
use mempool_atlas.Runtime.State.{
  CurrentStatePublisher, CurrentState, SourceSnapshotResponse, initial_state,
  replace_cached_response,
}
use mempool_atlas.Classification.Report.{ClassificationRevisionDelta}
use mempool_atlas.Runtime.Publish.{
  Preparation, StatusRead, insert_changed, committed, update_attempt, status_read, prepare_update,
  with_classification,
}
use mempool_atlas.Runtime.Commits.{
  Encodes, membership_attempt-committed, update_attempt-committed, lifecycle_attempt-committed,
  failure_attempt-committed, prepare_update-some,
}
use mempool_atlas.Runtime.History.{
  Change, poll_started, membership_published, classification_published, lifecycle_published,
  failure_published, History, start, change,
}
use mempool_atlas.Runtime.Order.{Before, SameContent, SameStatus, generation_key, History-Before}
use mempool_atlas.Runtime.Coherence.{
  IsUnobserved, Observed, IsCoherent, membership-IsCoherent, update-IsCoherent,
  prepare_observation-classifications, lifecycle-IsCoherent, failure-IsCoherent, poll-IsCoherent,
  some-ne-none,
}

All-Contains :
    (P : CurrentState → Type 0) (r : CurrentState) (rs : List CurrentState)
    → All P rs
    → Contains r rs
    → P r
All-Contains P r [] a c = absurd c
All-Contains P r (x ∷ rs) (p, rest) (inl e) = subst P e p
All-Contains P r (x ∷ rs) (p, rest) (inr c) = All-Contains P r rs rest c

key_of :
    (s t : CurrentState)
    → s.classification_generation ≡ t.classification_generation
    → generation_key s ≡ generation_key t
key_of s t e = rw e refl

content_of :
    {seen s : CurrentState}
    → Before seen s
    → s.classification_generation ≡ seen.classification_generation
    → s.classification_revision ≡ seen.classification_revision
    → SameContent seen s
content_of {seen} {s} b g r = b.content (key_of seen s (sym g)) (sym r)

status_shown :
    {seen s : CurrentState}
    → Before seen s
    → s.classification_generation ≡ seen.classification_generation
    → s.classification_revision ≡ seen.classification_revision
    → s.status_revision ≡ seen.status_revision
    → SameStatus seen s
status_shown {seen} {s} b g r n = b.shown (key_of seen s (sym g)) (sym r) (sym n)

module _ (v : String) (to_vec : SourceSnapshotResponse → Result String Bytes)
    (publisher : CurrentStatePublisher) where
  committed_fields :
      (delta : ClassificationRevisionDelta) (o : MempoolObservation) (state : ClassificationState)
      (s : CurrentState) (body : Bytes)
      → let t = replace_cached_response publisher (with_classification delta o state s) body in
        (t.classifications ≡ o.classifications)
        × (t.membership ≡ s.membership)
        × (t.classification_generation ≡ s.classification_generation)
        × (t.classification_revision ≡ delta.revision)
  unfolding replace_cached_response with_classification
  committed_fields delta o state s body = (refl, refl, refl, refl)

  -- The parts of an update are those of the state that it replaces.
  update_parts :
      (generation : ℕ) (delta : ClassificationRevisionDelta) (first s : CurrentState)
      (prep : Preparation)
      → Before first s
      → prepare_update v to_vec publisher generation delta first ≡ ok (some prep)
      → s.classification_generation ≡ some generation
      → s.classification_revision ≡ prep.current_revision
      → SameContent first s
  update_parts generation delta first s prep b made gen rev =
      let (g, current, _, _, _, _) =
        prepare_update-some v to_vec publisher generation delta first made in
      content_of b (gen ∙ sym g) (rev ∙ current)

  member_source :
      (s : CurrentState) (m : MempoolSnapshot)
      → s.membership ≡ some m
      → IsUnobserved s ⊎ Observed v publisher s
      → m.source_id ≡ publisher.source_id
  member_source s m e (inl u) = absurd (some-ne-none (sym e ∙ u.no_membership))
  member_source s m e (inr w) =
      subst (λ x. x.source_id ≡ publisher.source_id) (eq_of_some (sym w.has_membership ∙ e))
        w.of_source

  classification-IsCoherent :
      (generation : ℕ) (delta : ClassificationRevisionDelta) (state : ClassificationState)
      (first seen s t : CurrentState) (prep : Preparation)
      → Before first s
      → Before seen s
      → IsUnobserved s ⊎ Observed v publisher s
      → prepare_update v to_vec publisher generation delta first ≡ ok (some prep)
      → seen.classification_generation ≡ some generation
      → seen.classification_revision ≡ prep.current_revision
      → update_attempt v to_vec publisher generation delta state prep (status_read seen) s
        ≡ ok (committed t)
      → IsCoherent v to_vec publisher t
  classification-IsCoherent generation delta state first seen s t prep b b' w made sg sr h =
      let (g, rev, status, (body, encodes, e)) =
        update_attempt-committed v to_vec publisher generation delta state prep (status_read seen) s
          h in
      let (_, _, _, member, few, prepared) =
        prepare_update-some v to_vec publisher generation delta first made in
      let same = update_parts generation delta first s prep b made g rev in
      let shown = status_shown b' (g ∙ sym sg) (rev ∙ sym sr) status in
      let has = sym same.membership ∙ member in
      subst (IsCoherent v to_vec publisher) (sym e) (
        update-IsCoherent v to_vec publisher generation delta state prep.observation s
          seen.last_poll_started_at_ms body prep.membership
          (insert_changed delta.changed first.classifications) has
          (member_source s prep.membership has w) g few prepared
          (subst
            (λ x.
              Encodes to_vec publisher seen.last_poll_started_at_ms (some prep.observation.snapshot)
                (some state) x body)
            shown.last_error encodes))

  Change-IsCoherent :
      {past : List CurrentState} {s t : CurrentState}
      → All (λ r. Before r s) (s ∷ past)
      → IsCoherent v to_vec publisher s
      → Change v to_vec publisher past s t
      → IsCoherent v to_vec publisher t
  Change-IsCoherent {s = s} before w (poll_started ms e) =
      subst (IsCoherent v to_vec publisher) (sym e) (poll-IsCoherent v to_vec publisher ms s w)
  Change-IsCoherent {s = s} before w (membership_published p o seen inside checked prepared h) =
      let (_, _, _, (body, encodes, e)) =
        membership_attempt-committed v to_vec publisher p o seen s h in
      subst (IsCoherent v to_vec publisher) (sym e)
        (membership-IsCoherent v to_vec publisher p o s _ body checked prepared encodes)
  Change-IsCoherent {past} {s = s} before w
        (classification_published generation delta state first seen prep i j made sg sr h) =
      classification-IsCoherent generation delta state first seen s _ prep
        (All-Contains (λ r. Before r s) first (s ∷ past) before i)
        (All-Contains (λ r. Before r s) seen (s ∷ past) before j) w.0 made sg sr h
  Change-IsCoherent {past} {s = s} before w (lifecycle_published generation state seen inside h) =
      let (g, gen, rev, status, (latest, found, (body, encodes, e))) =
        lifecycle_attempt-committed v to_vec publisher generation state seen s h in
      let b = All-Contains (λ r. Before r s) seen (s ∷ past) before inside in
      let same = content_of b g rev in
      let shown = status_shown b g rev status in
      subst (IsCoherent v to_vec publisher) (sym e) (
        lifecycle-IsCoherent v to_vec publisher generation state s seen.last_poll_started_at_ms body
          gen
          (subst
            (λ l.
              Encodes to_vec publisher seen.last_poll_started_at_ms l (some state) s.last_error
                body)
            (sym found ∙ same.latest)
            (subst
              (λ x.
                Encodes to_vec publisher seen.last_poll_started_at_ms (some latest) (some state) x
                  body)
              shown.last_error encodes))
          w.0)
  Change-IsCoherent {past} {s = s} before w (failure_published error seen inside h) =
      let (status, g, rev, (body, encodes, e)) =
        failure_attempt-committed v to_vec publisher error seen s h in
      let b = All-Contains (λ r. Before r s) seen (s ∷ past) before inside in
      let same = content_of b g rev in
      let shown = status_shown b g rev status in
      subst (IsCoherent v to_vec publisher) (sym e) (
        failure-IsCoherent v to_vec publisher error s seen.last_poll_started_at_ms body
          (subst
            (λ l.
              Encodes to_vec publisher seen.last_poll_started_at_ms l s.classification_state
                (some error) body)
            same.latest
            (subst
              (λ x.
                Encodes to_vec publisher seen.last_poll_started_at_ms seen.latest x (some error)
                  body)
              shown.state encodes))
          w.0)

  initial-IsCoherent : IsCoherent v to_vec publisher initial_state
  initial-IsCoherent = (
    inl (record { no_membership = refl; no_latest = refl; no_generation = refl; no_state = refl }),
    inl refl,
  )

  -- Calls that poll, publish a membership, classifications, a lifecycle or a failure may be
  -- interleaved at their locks in any order, each on any state it read before. Of fewer than 2^64
  -- commits, each leaves a state that is of one piece: the snapshot that readers see is the one
  -- materialized from the membership of this source, with the classifications held, of which there
  -- are no more than transactions, at the revision held; or nothing was published yet. And the
  -- response that is served encodes that snapshot with the lifecycle and the last error held, but
  -- for the start of a later poll, under an etag of the current response revision.
  pub History-IsCoherent :
      {s : CurrentState} {past : List CurrentState}
      → length past < 2 ^ 64
      → History v to_vec publisher s past
      → IsCoherent v to_vec publisher s
  History-IsCoherent short start = initial-IsCoherent
  History-IsCoherent short (change {past = past} h c) =
      let shorter : length past < 2 ^ 64 = omega (arith, short) in
      Change-IsCoherent (History-Before v to_vec publisher shorter h).1
        (History-IsCoherent shorter h) c

  -- Of fewer than 2^64 interleaved commits, none is lost to a later one: an update that was prepared
  -- on an earlier state and is committed now replaces the classifications held now by these with
  -- its changes inserted, keeps the membership held now, and moves the revision held now on by one.
  pub update-keeps :
      {s t : CurrentState} {past : List CurrentState} (generation : ℕ)
      (delta : ClassificationRevisionDelta) (state : ClassificationState) (first : CurrentState)
      (status : StatusRead) (prep : Preparation)
      → length past < 2 ^ 64
      → History v to_vec publisher s past
      → Contains first (s ∷ past)
      → prepare_update v to_vec publisher generation delta first ≡ ok (some prep)
      → update_attempt v to_vec publisher generation delta state prep status s ≡ ok (committed t)
      → (t.classifications ≡ insert_changed delta.changed s.classifications)
        × (t.membership ≡ s.membership)
        × (t.classification_generation ≡ s.classification_generation)
        × (t.classification_revision ≡ s.classification_revision + 1)
  update-keeps {s} {t} {past} generation delta state first status prep short h inside made u =
      let (g, rev, _, (body, _, e)) =
        update_attempt-committed v to_vec publisher generation delta state prep status s u in
      let (_, current, next, _, _, prepared) =
        prepare_update-some v to_vec publisher generation delta first made in
      let b =
        All-Contains (λ r. Before r s) first (s ∷ past)
          (History-Before v to_vec publisher short h).1 inside in
      let same = update_parts generation delta first s prep b made g rev in
      let kept : prep.observation.classifications ≡ insert_changed delta.changed s.classifications =
        prepare_observation-classifications v prep.membership delta.revision
          (insert_changed delta.changed first.classifications) prepared
        ∙ ap (insert_changed delta.changed) same.classifications in
      let fields = committed_fields delta prep.observation state s body in
      (
        ap (λ x. x.classifications) e ∙ fields.0 ∙ kept,
        ap (λ x. x.membership) e ∙ fields.1,
        ap (λ x. x.classification_generation) e ∙ fields.2,
        ap (λ x. x.classification_revision) e ∙ fields.3 ∙ omega (arith, rev, current, next),
      )
