-- ===== src/Model/Snapshot.antt =====
-- src/model.rs: summaries over the entries, and the snapshot that is made of them.
use Prim.Native.String.{String, compare}
use Prim.Native.Nat.{Ordering}
use text.Mathlib.Text.{◌==◌ as str_eq}
use mempool_atlas.Prelude.{
  ℕ, ◌+◌, ◌-◌, ◌^◌, Bool, true, false, ◌||◌, not, Option, none, some, List, [], ◌∷◌, map,
  map_option, length, find?, ltb, ◌==◌, if◌then◌else◌,
}
use mempool_atlas.Results.{Result, err, ok, reject, ◌>>=◌, ◌>>◌}
use mempool_atlas.Model.Error.{
  ModelError, unsafe_json_integer, invalid_collection_window, collection_duration_mismatch,
  transactions_not_strictly_sorted, snapshot_too_large, total_vsize_overflow,
}
use mempool_atlas.Model.Source.{validate_source_id, validate_source_label}
use mempool_atlas.Model.Catalog.{ClassifierDescriptor, classifier_catalog}
use mempool_atlas.Model.Rules.{Bip110Status, max_safe_json_integer}
use mempool_atlas.Model.Entry.{
  MempoolEntry, ClassificationResult, ClassificationResultState, check_safe,
}

pub data Bip110Scope : Type 0 where
  knots_mempool_policy : Bip110Scope

pub record Bip110Summary : Type 0 where
  pub evaluator_id : String
  pub evaluator_version : String
  pub scope : Bip110Scope
  pub compatible_count : ℕ
  pub violating_count : ℕ
  pub indeterminate_count : ℕ
  pub unclassified_count : ℕ

abbrev pub count_status : Option Bip110Status → Bip110Summary → Bip110Summary
count_status (some Bip110Status.compatible) s = record s {
  compatible_count = s.compatible_count + 1;
}
count_status (some Bip110Status.violating) s = record s { violating_count = s.violating_count + 1 }
count_status (some Bip110Status.indeterminate) s = record s {
  indeterminate_count = s.indeterminate_count + 1;
}
count_status none s = record s { unclassified_count = s.unclassified_count + 1 }

unfoldable pub count_statuses : List MempoolEntry → Bip110Summary → Bip110Summary
count_statuses [] summary = summary
count_statuses (entry ∷ entries) summary =
    count_statuses entries
      (count_status (map_option (λ assessment. assessment.status) entry.bip110) summary)

-- The version is the build's.
unfoldable pub summary_of : String → List MempoolEntry → Bip110Summary
unfolding count_statuses
summary_of evaluator_version entries = count_statuses entries (record {
  evaluator_id = "rdts-rules";
  evaluator_version = evaluator_version;
  scope = knots_mempool_policy;
  compatible_count = 0;
  violating_count = 0;
  indeterminate_count = 0;
  unclassified_count = 0;
})

-- `label_counts` is the map as a list of its pairs.
pub record ClassifierSummary : Type 0 where
  pub classifier_id : String
  pub complete_count : ℕ
  pub partial_count : ℕ
  pub unclassified_count : ℕ
  pub label_counts : List (String × ℕ)

-- `if let Some(count) = label_counts.get_mut(label) { *count += 1; }`
unfoldable pub count_label : String → List (String × ℕ) → List (String × ℕ)
count_label label [] = []
count_label label (pair ∷ pairs) =
    let rest = count_label label pairs in
    if str_eq pair.0 label then (pair.0, pair.1 + 1) ∷ pairs else pair ∷ rest

unfoldable pub count_labels : List String → List (String × ℕ) → List (String × ℕ)
unfolding count_label
count_labels [] counts = counts
count_labels (label ∷ labels) counts = count_labels labels (count_label label counts)

unfoldable pub count_result : Option ClassificationResult → ClassifierSummary → ClassifierSummary
unfolding count_labels
count_result none s = record s { unclassified_count = s.unclassified_count + 1 }
count_result (some result) s = elim result.state [
  | ClassificationResultState.complete ↦ record s {
    complete_count = s.complete_count + 1;
    label_counts = count_labels result.labels s.label_counts;
  }
  | ClassificationResultState.partial ↦ record s {
    partial_count = s.partial_count + 1;
    label_counts = count_labels result.labels s.label_counts;
  }
]

unfoldable pub result_for : String → MempoolEntry → Option ClassificationResult
result_for id entry = find? (λ result. str_eq result.classifier_id id) entry.classifications

unfoldable pub count_entries : List MempoolEntry → String → ClassifierSummary → ClassifierSummary
unfolding count_result result_for
count_entries [] id summary = summary
count_entries (entry ∷ entries) id summary =
    count_entries entries id (count_result (result_for id entry) summary)

unfoldable pub classifier_summary : List MempoolEntry → ClassifierDescriptor → ClassifierSummary
unfolding count_entries
classifier_summary entries descriptor = count_entries entries descriptor.id (record {
  classifier_id = descriptor.id;
  complete_count = 0;
  partial_count = 0;
  unclassified_count = 0;
  label_counts = map (λ label. (label.key, 0)) descriptor.labels;
})

unfoldable pub classifier_summaries : List MempoolEntry → List ClassifierSummary
unfolding classifier_summary
classifier_summaries entries = map (classifier_summary entries) classifier_catalog

pub record ChainTip : Type 0 where
  pub height : ℕ
  pub hash : String

pub record MempoolSnapshot : Type 0 where
  pub source_id : String
  pub source_label : String
  pub collection_started_at_ms : ℕ
  pub collection_completed_at_ms : ℕ
  pub collection_duration_ms : ℕ
  pub observed_at_ms : ℕ
  pub classification_revision : ℕ
  pub chain_tip : ChainTip
  pub transaction_count : ℕ
  pub total_vsize : ℕ
  pub classifier_catalog : List ClassifierDescriptor
  pub classification_summaries : List ClassifierSummary
  pub bip110_summary : Bip110Summary
  pub transactions : List MempoolEntry

-- `a < b` on strings
abbrev pub str_lt : String → String → Bool
str_lt a b = elim (compare a b) [ Ordering.lt ↦ true | _ ↦ false ]

-- `windows(2).any(|pair| pair[0].txid >= pair[1].txid)`
unfoldable pub any_unsorted : List MempoolEntry → Bool
any_unsorted (a ∷ b ∷ rest) = not (str_lt a.txid b.txid) || any_unsorted (b ∷ rest)
any_unsorted _ = false

-- `try_fold` with `checked_add`
unfoldable pub add_vsizes : List MempoolEntry → ℕ → Result ModelError ℕ
add_vsizes [] total = ok total
add_vsizes (entry ∷ entries) total = do
  reject (ltb (2 ^ 64 - 1) (total + entry.vsize)) total_vsize_overflow
  add_vsizes entries (total + entry.vsize)

-- `completed.checked_sub(started).ok_or(…)`
abbrev pub checked_window : (started completed : ℕ) → Result ModelError ℕ
checked_window started completed =
    if ltb completed started
    then err (invalid_collection_window started completed)
    else ok (completed - started)

-- The snapshot that passes the tests; the version is the build's.
abbrev pub snapshot_of :
    (atlas_version source_id source_label : String) (started completed duration : ℕ)
    → ChainTip
    → List MempoolEntry
    → ℕ
    → MempoolSnapshot
snapshot_of atlas_version source_id source_label started completed duration chain_tip entries
      total =
    record {
      source_id = source_id;
      source_label = source_label;
      collection_started_at_ms = started;
      collection_completed_at_ms = completed;
      collection_duration_ms = duration;
      observed_at_ms = completed;
      classification_revision = 0;
      chain_tip = chain_tip;
      transaction_count = length entries;
      total_vsize = total;
      classifier_catalog = classifier_catalog;
      classification_summaries = classifier_summaries entries;
      bip110_summary = summary_of atlas_version entries;
      transactions = entries;
    }

unfoldable pub new_with_collection_window :
    (atlas_version source_id source_label : String) (started completed duration : ℕ)
    → ChainTip
    → List MempoolEntry
    → Result ModelError MempoolSnapshot
unfolding check_safe any_unsorted add_vsizes
new_with_collection_window atlas_version source_id source_label started completed duration chain_tip
      entries =
    do
      validate_source_id source_id
      validate_source_label source_label
      check_safe (
          ("collection_started_at_ms", started)
          ∷ ("collection_completed_at_ms", completed)
          ∷ ("collection_duration_ms", duration)
          ∷ [])
      expected ← checked_window started completed
      reject (not (duration == expected)) (collection_duration_mismatch started completed duration)
      reject (ltb max_safe_json_integer chain_tip.height)
          (unsafe_json_integer "chain_tip.height" chain_tip.height)
      reject (any_unsorted entries) transactions_not_strictly_sorted
      reject (ltb max_safe_json_integer (length entries)) snapshot_too_large
      total ← add_vsizes entries 0
      reject (ltb max_safe_json_integer total) (unsafe_json_integer "total_vsize" total)
      ok (
          snapshot_of atlas_version source_id source_label started completed duration chain_tip
            entries total)

-- `MempoolSnapshot::new`
unfoldable pub new_snapshot :
    (atlas_version source_id source_label : String) (observed_at_ms : ℕ)
    → ChainTip
    → List MempoolEntry
    → Result ModelError MempoolSnapshot
unfolding new_with_collection_window
new_snapshot atlas_version source_id source_label observed_at_ms chain_tip entries =
    new_with_collection_window atlas_version source_id source_label observed_at_ms observed_at_ms 0
      chain_tip entries

unfoldable pub with_classification_revision :
    MempoolSnapshot → ℕ → Result ModelError MempoolSnapshot
with_classification_revision snapshot revision = do
  reject (ltb max_safe_json_integer revision)
      (unsafe_json_integer "classification_revision" revision)
  ok (record snapshot { classification_revision = revision })
