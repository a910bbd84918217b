-- ===== src/Examples/Runtime.antt =====
-- The theorems about the runtime at concrete inputs.
use Prim.Native.String.{String}
use mempool_atlas.Prelude.{
  ℕ, ◌≡◌, ◌≢◌, refl, inl, inr, true, false, none, some, [], ◌∷◌, Bytes, All, Contains, arith, any,
}
use text.Mathlib.Text.{◌==◌ as str_eq}
use mempool_atlas.Results.{Result, ok, err}
use mempool_atlas.Classification.Evidence.{assessment_of, details_of}
use mempool_atlas.Model.Progress.{complete, classifying}
use mempool_atlas.Model.Observation.{MempoolObservation, matching}
use mempool_atlas.Classification.Report.{ClassificationGenerationStart, ClassificationRevisionDelta}
use mempool_atlas.Runtime.State.{
  CurrentStatePublisher, CurrentState, SourceSnapshotResponse, initial_state, duplicate_source,
  poll_interval_mismatch, replace_cached_response, prepare_observation,
}
use mempool_atlas.Runtime.Publish.{
  Preparation, committed, again, check_membership, membership_attempt, record_poll_started,
  with_classification, prepare_update, update_attempt, status_read, publish_membership,
  publish_classification_update, publish_failure, insert_changed,
}
use mempool_atlas.Runtime.History.{History, start, change, poll_started, membership_published}
use mempool_atlas.Runtime.Coherence.{IsCoherent}
use mempool_atlas.Runtime.Interleaved.{History-IsCoherent, update-keeps}
use mempool_atlas.Runtime.Calls.{publish-ends}
use mempool_atlas.Runtime.Sources.{
  SourceRuntime, Registry, check_sources, new_registry, get_source, id_of,
}
use mempool_atlas.Runtime.Registry.{check_sources-err, new_registry-get}
use mempool_atlas.Runtime.Turns.{Turn, run_turns}
use mempool_atlas.Runtime.Fair.{run_turns-serves}
use mempool_atlas.Examples.Model.{membership, classification, classified}
use mempool_atlas.Model.Source.{validate_source_id, validate_source_label}
use mempool_atlas.Model.Validation.{validate_classification}
use mempool_atlas.Model.Rules.{rule_number}
use mempool_atlas.Model.Entry.{compact}
use mempool_atlas.Model.Materialize.{shown_observation}

abbrev publisher : CurrentStatePublisher
publisher = record {
  source_id = "local-1";
  source_label = "Local node";
  poll_interval = 30_000_000_000;
}

-- A response is encoded as its count of transactions.
abbrev to_vec : SourceSnapshotResponse → Result String Bytes
to_vec response = elim response.snapshot [
  | none ↦ ok []
  | some snapshot ↦ ok (snapshot.transaction_count ∷ [])
]

abbrev started : CurrentState
started = record initial_state { last_poll_started_at_ms = some 900; status_revision = 1 }

abbrev publication : ClassificationGenerationStart
publication = record {
  generation = 1;
  revision = 0;
  has_eligible_work = true;
  membership = membership;
  classifications = [];
}

abbrev observation : MempoolObservation
observation = record { snapshot = membership; classifications = [] }

abbrev published : CurrentState
published = record started {
  membership = some membership;
  latest = some membership;
  cached_response = some (record { body = 2 ∷ []; etag = some "W/\"local-1-1500-1\"" });
  classification_generation = some 1;
  classification_state = some classifying;
  status_revision = 2;
  response_revision = 1;
}

prepared : prepare_observation "0.1.0" membership 0 [] ≡ ok observation
unfolding prepare_observation validate_source_id validate_source_label
prepared = refl

polled_state : started ≡ record_poll_started 900 initial_state
unfolding record_poll_started
polled_state = refl

committed_state :
    membership_attempt "0.1.0" to_vec publisher publication observation started started
    ≡ ok (committed published)
unfolding membership_attempt
committed_state = refl

checked : check_membership publisher publication ≡ ok tt
unfolding check_membership
checked = refl

history : History "0.1.0" to_vec publisher published (started ∷ initial_state ∷ [])
history = change (change start (poll_started 900 polled_state)) (
    membership_published publication observation started (inl refl) checked prepared
      committed_state)

History-IsCoherent_example : IsCoherent "0.1.0" to_vec publisher published
History-IsCoherent_example =
    History-IsCoherent "0.1.0" to_vec publisher {s = published}
      {past = started ∷ initial_state ∷ []} (omega arith) history

abbrev delta : ClassificationRevisionDelta
delta = record { generation = 1; revision = 1; changed = classification ∷ [] }

abbrev prep : Preparation
prep = record {
  current_revision = 0;
  membership = membership;
  observation = shown_observation "0.1.0" membership 1 classified;
}

update_prepared : prepare_update "0.1.0" to_vec publisher 1 delta published ≡ ok (some prep)
unfolding prepare_update validate_source_id validate_source_label validate_classification
    rule_number compact matching assessment_of details_of
update_prepared = refl

abbrev updated : CurrentState
unfolding replace_cached_response with_classification
updated =
    replace_cached_response publisher
      (with_classification delta prep.observation complete published) (2 ∷ [])

update_committed :
    update_attempt "0.1.0" to_vec publisher 1 delta complete prep (status_read published) published
    ≡ ok (committed updated)
unfolding update_attempt
update_committed = refl

update-keeps_example :
    (updated.classifications ≡ insert_changed (classification ∷ []) [])
    × (updated.membership ≡ some membership)
    × (updated.classification_generation ≡ some 1)
    × (updated.classification_revision ≡ 1)
update-keeps_example =
    update-keeps "0.1.0" to_vec publisher {s = published} {t = updated}
      {past = started ∷ initial_state ∷ []} 1 delta complete published (status_read published) prep
      (omega arith) history (inl refl) update_prepared update_committed

publish-ends_example :
    (publish_membership "0.1.0" to_vec publisher publication started
        ((initial_state, started) ∷ (started, started) ∷ [])
      ≢ ok again)
    × (publish_classification_update "0.1.0" to_vec publisher 1
          (some delta)
          complete
          started
          ((initial_state, started) ∷ (started, started) ∷ (started, started) ∷ [])
        ≢ ok again)
    × (publish_failure "0.1.0" to_vec publisher
          ((initial_state, started) ∷ (started, started) ∷ [])
          "Bitcoin node RPC is unavailable"
        ≢ ok again)
publish-ends_example =
    publish-ends "0.1.0" to_vec publisher ((initial_state, started) ∷ []) [] started started started
      publication "Bitcoin node RPC is unavailable" 1 (some delta) complete

abbrev turn : Turn
turn = record { pending = 0 ∷ []; continues = true }

run_turns-serves_example : Contains 2 (run_turns (turn ∷ turn ∷ turn ∷ []) 3 1 (1 ∷ 2 ∷ []))
run_turns-serves_example =
    run_turns-serves (turn ∷ turn ∷ turn ∷ []) 3 1 2 (1 ∷ 2 ∷ []) (omega arith)
      ((omega arith, tt), (tt, tt)) (omega arith, (omega arith, tt))
      ((omega arith, tt), ((omega arith, tt), ((omega arith, tt), tt))) (inr (inl refl))
      (omega arith)

abbrev source : String → ℕ → SourceRuntime
source id interval = record {
  publisher = record { source_id = id; source_label = "Node"; poll_interval = interval };
  state = initial_state;
}

check_sources-err_example :
    (true ≡ true
      → check_sources (source "a" 30 ∷ source "a" 30 ∷ []) 30 [] ≡ err (duplicate_source "a"))
    × (true ≡ false
        → (source "a" 30).publisher.poll_interval ≢ 30
        → check_sources (source "a" 30 ∷ source "a" 30 ∷ []) 30 []
          ≡ err (poll_interval_mismatch "a" 0 0))
check_sources-err_example =
    check_sources-err (source "a" 30 ∷ []) (source "a" 30) [] 30 (tt, tt) (refl, tt)

abbrev registry : Registry
registry = ("a", source "a" 30) ∷ ("b", source "b" 30) ∷ []

registered : new_registry (source "b" 30 ∷ source "a" 30 ∷ []) ≡ ok registry
unfolding new_registry
registered = refl

new_registry-get_example :
    All (λ s. get_source registry (id_of s) ≡ some s) (source "b" 30 ∷ source "a" 30 ∷ [])
    × ((id : String)
        → any (λ s. str_eq (id_of s) id) (source "b" 30 ∷ source "a" 30 ∷ []) ≡ false
        → get_source registry id ≡ none)
new_registry-get_example = new_registry-get (source "b" 30 ∷ source "a" 30 ∷ []) registry registered
