-- ===== src/Model/Observation.antt =====
-- src/model.rs: the observation that readers see: membership with the classifications that match.
use Prim.Native.String.{String, compare}
use Prim.Native.Nat.{Ordering}
use text.Mathlib.Text.{◌==◌ as str_eq}
use mempool_atlas.Prelude.{
  ℕ, Bool, true, false, not, ◌&&◌, ◌||◌, Option, none, some, List, [], ◌∷◌, map, map_option,
  is_empty, is_some, find?, filter_map, ltb, ◌==◌, if◌then◌else◌,
}
use mempool_atlas.Results.{Result, ok, err, reject, ◌>>=◌, ◌>>◌}
use mempool_atlas.Json.{value_eq}
use mempool_atlas.Model.Error.{
  ModelError, unsafe_json_integer, classification_key_mismatch, classification_not_in_snapshot,
  classification_variant_mismatch, classification_detail_missing,
}
use mempool_atlas.Model.Rules.{
  rule_id_eq, rule_ids_eq, status_eq, Bip110Assessment, max_safe_json_integer,
}
use mempool_atlas.Model.Entry.{ClassificationResult, TransactionStructure, MempoolEntry, compact}
use mempool_atlas.Model.Validation.{
  TransactionClassification, strings_eq, same_state, validate_classification,
}
use mempool_atlas.Model.Snapshot.{
  MempoolSnapshot, new_with_collection_window, with_classification_revision,
}

-- `BTreeMap<String, Arc<TransactionClassification>>`, in the order of its keys.
abbrev pub Classifications : Type 0
Classifications = List (String × TransactionClassification)

abbrev pub get_classification : Classifications → String → Option TransactionClassification
get_classification [] txid = none
get_classification (pair ∷ pairs) txid =
    let rest = get_classification pairs txid in if str_eq pair.0 txid then some pair.1 else rest

-- `BTreeMap::insert`
abbrev pub insert_classification :
    String × TransactionClassification → Classifications → Classifications
insert_classification new [] = new ∷ []
insert_classification new (pair ∷ pairs) =
    let rest = insert_classification new pairs in
    elim (compare new.0 pair.0) [
      | Ordering.lt ↦ new ∷ pair ∷ pairs
      | Ordering.eq ↦ new ∷ pairs
      | Ordering.gt ↦ pair ∷ rest
    ]

abbrev pub collect : Classifications → Classifications → Classifications
collect sofar [] = sofar
collect sofar (pair ∷ pairs) = collect (insert_classification pair sofar) pairs

-- The derived equalities.
abbrev pub option_eq : {A : Type 0} → (A → A → Bool) → Option A → Option A → Bool
option_eq eq none none = true
option_eq eq (some a) (some b) = eq a b
option_eq eq _ _ = false

abbrev pub result_eq : ClassificationResult → ClassificationResult → Bool
result_eq a b =
    str_eq a.classifier_id b.classifier_id
    && (same_state a.state b.state
        && (option_eq str_eq a.primary_label b.primary_label
            && (strings_eq a.labels b.labels
                && (strings_eq a.missing_facts b.missing_facts
                    && option_eq value_eq a.evidence b.evidence))))

abbrev pub results_eq : List ClassificationResult → List ClassificationResult → Bool
results_eq [] [] = true
results_eq (a ∷ xs) (b ∷ ys) = result_eq a b && results_eq xs ys
results_eq _ _ = false

abbrev pub assessment_eq : Bip110Assessment → Bip110Assessment → Bool
assessment_eq a b =
    status_eq a.status b.status
    && (option_eq rule_id_eq a.primary_rule b.primary_rule
        && (rule_ids_eq a.violated_rules b.violated_rules
            && rule_ids_eq a.unknown_rules b.unknown_rules))

abbrev pub structure_eq : TransactionStructure → TransactionStructure → Bool
structure_eq a b =
    a.input_count == b.input_count
    && (a.output_count == b.output_count
        && (a.op_return_bytes == b.op_return_bytes
            && (a.output_sats == b.output_sats && a.witness_bytes == b.witness_bytes)))

pub record MempoolObservation : Type 0 where
  pub snapshot : MempoolSnapshot
  pub classifications : Classifications

-- The entry with the txid. The code searches by bisection, over entries in the order of their ids.
abbrev pub entry_with : String → List MempoolEntry → Option MempoolEntry
entry_with txid = find? (λ entry. str_eq entry.txid txid)

abbrev pub differs : MempoolEntry → TransactionClassification → Bool
differs entry c =
    not (str_eq entry.wtxid c.wtxid)
    || (not (results_eq entry.classifications (map compact c.results))
        || (not (option_eq assessment_eq entry.bip110 (some c.assessment))
            || not (option_eq structure_eq entry.structure (some c.structure))))

unfoldable pub check_entry :
    String → Option MempoolEntry → TransactionClassification → Result ModelError Unit
check_entry txid none c = err (classification_not_in_snapshot txid)
check_entry txid (some entry) c = reject (differs entry c) (classification_variant_mismatch txid)

unfoldable pub check_classifications : List MempoolEntry → Classifications → Result ModelError Unit
unfolding check_entry
check_classifications entries [] = ok tt
check_classifications entries ((txid, c) ∷ rest) = do
  validate_classification c
  reject (not (str_eq txid c.txid)) (classification_key_mismatch txid c.txid)
  check_entry txid (entry_with txid entries) c
  check_classifications entries rest

abbrev pub is_classified : MempoolEntry → Bool
is_classified entry =
    not (is_empty entry.classifications) || is_some entry.bip110 || is_some entry.structure

unfoldable pub check_detailed : List MempoolEntry → Classifications → Result ModelError Unit
check_detailed [] classifications = ok tt
check_detailed (entry ∷ entries) classifications = do
  reject (is_classified entry && not (is_some (get_classification classifications entry.txid)))
      (classification_detail_missing entry.txid)
  check_detailed entries classifications

-- `MempoolObservation::new`
unfoldable pub new_observation :
    MempoolSnapshot → Classifications → Result ModelError MempoolObservation
unfolding check_classifications check_detailed
new_observation snapshot classifications = do
  reject (ltb max_safe_json_integer snapshot.classification_revision)
      (unsafe_json_integer "classification_revision" snapshot.classification_revision)
  check_classifications snapshot.transactions classifications
  check_detailed snapshot.transactions classifications
  ok (record { snapshot = snapshot; classifications = classifications })

abbrev pub attached : MempoolEntry → Option TransactionClassification → MempoolEntry
attached entry (some c) = record entry {
  classifications = map compact c.results;
  bip110 = some c.assessment;
  structure = some c.structure;
}
attached entry none = record entry { classifications = []; bip110 = none; structure = none }

unfoldable pub attach : Classifications → MempoolEntry → MempoolEntry
attach classifications entry = attached entry (get_classification classifications entry.txid)

unfoldable pub materialize_retained :
    String → MempoolSnapshot → ℕ → Classifications → Result ModelError MempoolObservation
unfolding attach new_with_collection_window with_classification_revision new_observation
materialize_retained atlas_version membership revision classifications = do
  fresh ←
      new_with_collection_window atlas_version membership.source_id membership.source_label
        membership.collection_started_at_ms membership.collection_completed_at_ms
        membership.collection_duration_ms membership.chain_tip
        (map (attach classifications) membership.transactions)
  snapshot ← with_classification_revision fresh revision
  new_observation snapshot classifications

abbrev pub if_matches :
    MempoolEntry → Option TransactionClassification → Option TransactionClassification
if_matches entry none = none
if_matches entry (some c) =
    if str_eq c.txid entry.txid && str_eq c.wtxid entry.wtxid then some c else none

-- The classification that still matches the entry, under the entry's id.
unfoldable pub matching :
    Classifications → MempoolEntry → Option (String × TransactionClassification)
matching classifications entry =
    map_option (λ c. (entry.txid, c))
      (if_matches entry (get_classification classifications entry.txid))

unfoldable pub materialize :
    String → MempoolSnapshot → ℕ → Classifications → Result ModelError MempoolObservation
unfolding matching materialize_retained
materialize atlas_version membership revision classifications =
    materialize_retained atlas_version membership revision
      (collect [] (filter_map (matching classifications) membership.transactions))
