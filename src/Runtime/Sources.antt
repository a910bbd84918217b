-- ===== src/Runtime/Sources.antt =====
-- src/runtime.rs: which sources are accepted, and the registry that readers look them up in.
use Prim.Native.String.{String, compare}
use Prim.Native.Nat.{Ordering}
use text.Mathlib.Text.{◌==◌ as str_eq}
use mempool_atlas.Prelude.{
  ℕ, Bool, not, Option, none, some, List, [], ◌∷◌, any, map, length, is_empty, is_some, ltb, ◌==◌,
  if◌then◌else◌,
}
use mempool_atlas.Results.{Result, ok, err, panic, reject, ◌>>=◌, ◌>>◌}
use mempool_atlas.Model.Error.{ModelError}
use mempool_atlas.Model.Source.{validate_source_id, validate_source_label}
use mempool_atlas.Runtime.State.{
  RuntimeError, model, zero_poll_interval, no_sources, too_many_sources, duplicate_source,
  poll_interval_mismatch, CurrentStatePublisher, CurrentState, SourceSummary, initial_state,
  as_secs, summary_from_state,
}

abbrev pub max_configured_sources : ℕ
max_configured_sources = 4

-- A source is its publisher with the state published, behind its lock.
pub record SourceRuntime : Type 0 where
  pub publisher : CurrentStatePublisher
  pub state : CurrentState

abbrev pub model_error : {A : Type 0} → Result ModelError A → Result RuntimeError A
model_error (err e) = err (model e)
model_error (ok a) = ok a
model_error panic = panic

unfoldable pub new_source :
    (source_id source_label : String) → ℕ → Result RuntimeError SourceRuntime
unfolding validate_source_id validate_source_label
new_source source_id source_label poll_interval = do
  model_error (validate_source_id source_id)
  model_error (validate_source_label source_label)
  reject (poll_interval == 0) zero_poll_interval
  ok (record {
    publisher = record {
      source_id = source_id;
      source_label = source_label;
      poll_interval = poll_interval;
    };
    state = initial_state;
  })

abbrev pub id_of : SourceRuntime → String
id_of source = source.publisher.source_id

-- The loop over the sources, with the ids that were inserted before.
unfoldable pub check_sources : List SourceRuntime → ℕ → List String → Result RuntimeError Unit
check_sources [] poll_interval source_ids = ok tt
check_sources (source ∷ sources) poll_interval source_ids = do
  reject (any (str_eq (id_of source)) source_ids) (duplicate_source (id_of source))
  reject (not (source.publisher.poll_interval == poll_interval)) (
      poll_interval_mismatch (id_of source) (as_secs poll_interval)
        (as_secs source.publisher.poll_interval))
  check_sources sources poll_interval (id_of source ∷ source_ids)

-- `AtlasRuntime::new`: the sources that are polled, in the order given.
unfoldable pub new_atlas : List SourceRuntime → ℕ → Result RuntimeError (List SourceRuntime)
unfolding check_sources
new_atlas sources poll_interval = do
  reject (is_empty sources) no_sources
  reject (ltb max_configured_sources (length sources))
      (too_many_sources (length sources) max_configured_sources)
  reject (poll_interval == 0) zero_poll_interval
  check_sources sources poll_interval []
  ok sources

-- `BTreeMap<String, Arc<SourceRuntime>>`, in the order of its keys.
abbrev pub Registry : Type 0
Registry = List (String × SourceRuntime)

abbrev pub get_source : Registry → String → Option SourceRuntime
get_source [] source_id = none
get_source (pair ∷ pairs) source_id =
    let rest = get_source pairs source_id in if str_eq pair.0 source_id then some pair.1 else rest

abbrev pub insert_source : String → SourceRuntime → Registry → Registry
insert_source source_id source [] = (source_id, source) ∷ []
insert_source source_id source (pair ∷ pairs) =
    let rest = insert_source source_id source pairs in
    elim (compare source_id pair.0) [
      | Ordering.lt ↦ (source_id, source) ∷ pair ∷ pairs
      | Ordering.eq ↦ (source_id, source) ∷ pairs
      | Ordering.gt ↦ pair ∷ rest
    ]

unfoldable pub index_sources : List SourceRuntime → Registry → Result RuntimeError Registry
index_sources [] indexed = ok indexed
index_sources (source ∷ sources) indexed = do
  reject (is_some (get_source indexed (id_of source))) (duplicate_source (id_of source))
  index_sources sources (insert_source (id_of source) source indexed)

-- `SourceRegistry::new`
unfoldable pub new_registry : List SourceRuntime → Result RuntimeError Registry
unfolding index_sources
new_registry sources = do
  reject (ltb max_configured_sources (length sources))
      (too_many_sources (length sources) max_configured_sources)
  indexed ← index_sources sources []
  reject (is_empty indexed) no_sources
  ok indexed

unfoldable pub sources_response : Registry → List SourceSummary
unfolding summary_from_state
sources_response = map (λ pair. summary_from_state pair.1.publisher pair.1.state)

unfoldable pub is_ready : Registry → Bool
unfolding summary_from_state
is_ready =
    any (λ pair. is_some (summary_from_state pair.1.publisher pair.1.state).snapshot_observed_at_ms)
