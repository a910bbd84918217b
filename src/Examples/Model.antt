-- ===== src/Examples/Model.antt =====
-- The theorems about the data model at concrete inputs.
use Prim.Native.String.{String}
use mempool_atlas.Prelude.{
  ℕ, ◌+◌, ◌≤◌, ◌≡◌, refl, ◌≢◌, ◌↔◌, pos, true, false, none, some, List, [], ◌∷◌, length, arith,
}
use mempool_atlas.Bip110.Verdict.{
  EvaluationMode, RuleId, RuleOutcome, TxEvidence, Violation, witness_item_too_large, number, pass,
  violate,
}
use mempool_atlas.Results.{ok, panic}
use mempool_atlas.Json.{Value}
use mempool_atlas.Bip110.Rules.{mempool_policy}
use mempool_atlas.Bip110.Rules.Spec.{spec_evidence}
use mempool_atlas.Bip110.Rules.Refines.{evaluate_applied-spec_evidence}
use mempool_atlas.Bip110.Rules.{evaluate_mempool_policy}
use mempool_atlas.Classification.Evidence.{assessment_of, details_of}
use mempool_atlas.Classification.Valid.{validate_rules-assessment_of}
use mempool_atlas.Model.Catalog.{
  transaction_properties_classifier_id, transaction_shape_classifier_id,
  data_protocols_classifier_id, knots_bip110_classifier_id,
}
use mempool_atlas.Model.Rules.{rule_number, compatible, violating, indeterminate, validate_rules}
use mempool_atlas.Model.Source.{validate_source_id, validate_source_label}
use mempool_atlas.Model.Entry.{
  ClassificationResult, complete, MembershipFacts, MempoolEntry, TransactionStructure, entry_of,
  new_variant, new_structure, solitary,
}
use mempool_atlas.Model.EntryBounds.{IsSafe, AreConsistent, new_variant_iff, new_structure_iff}
use mempool_atlas.Model.Snapshot.{
  ChainTip, MempoolSnapshot, snapshot_of, new_with_collection_window, summary_of,
}
use mempool_atlas.Model.Window.{HasWindow, IsSorted, sum_vsize, new_with_collection_window_iff}
use mempool_atlas.Model.Progress.{classifying, from_snapshot, from_snapshot-counts}
use mempool_atlas.Model.Counts.{count_of, summary_of-counts}
use mempool_atlas.Model.Validation.{TransactionClassification, validate_classification}
use mempool_atlas.Model.NoPanic.{validate_classification-ne-panic}
use mempool_atlas.Model.Observation.{Classifications, materialize}
use mempool_atlas.Model.Materialize.{
  IsMembership, AllValid, shown_observation, materialize-shown_observation,
}
use mempool_atlas.Examples.{sample, sample_tx, prevouts_at}

evaluated :
    evaluate_mempool_policy sample sample_tx (prevouts_at 90)
    ≡ some (spec_evidence sample mempool_policy (prevouts_at 90) sample_tx)
unfolding evaluate_mempool_policy
evaluated = evaluate_applied-spec_evidence sample mempool_policy (prevouts_at 90) sample_tx

validate_rules-assessment_of_example :
    validate_rules "ab"
      (assessment_of (spec_evidence sample mempool_policy (prevouts_at 90) sample_tx))
      (details_of (spec_evidence sample mempool_policy (prevouts_at 90) sample_tx))
    ≡ ok tt
validate_rules-assessment_of_example =
    validate_rules-assessment_of sample sample_tx (prevouts_at 90) "ab"
      (spec_evidence sample mempool_policy (prevouts_at 90) sample_tx) evaluated

abbrev facts : MembershipFacts
facts = record {
  weight = 561;
  ancestor_count = 2;
  ancestor_vsize = 300;
  ancestor_fee_sats = pos 700;
  descendant_count = 1;
  descendant_vsize = 141;
  replaceable = true;
}

new_variant_iff_example :
    (new_variant "aa" "ab" 141 500 1000 facts ≡ ok (entry_of "aa" "ab" 141 500 1000 facts)) ↔ (
      (entry_of "aa" "ab" 141 500 1000 facts ≡ entry_of "aa" "ab" 141 500 1000 facts)
      × AreConsistent 141 500 1000 facts)
new_variant_iff_example =
    new_variant_iff "aa" "ab" 141 500 1000 facts (entry_of "aa" "ab" 141 500 1000 facts)

abbrev solitary_entry : String → ℕ → MempoolEntry
solitary_entry txid vsize = entry_of txid txid vsize 500 1000 (solitary vsize 500)

abbrev structure : TransactionStructure
structure = record {
  input_count = 1;
  output_count = 2;
  op_return_bytes = 0;
  output_sats = 900;
  witness_bytes = 36;
}

new_structure_iff_example : (new_structure 1 2 0 900 36 ≡ ok structure) ↔ (
    (structure ≡ record {
      input_count = 1;
      output_count = 2;
      op_return_bytes = 0;
      output_sats = 900;
      witness_bytes = 36;
    })
    × (1 ≤ 1)
    × (1 ≤ 2)
    × IsSafe 1
    × IsSafe 2
    × IsSafe 0
    × IsSafe 900
    × IsSafe 36)
new_structure_iff_example = new_structure_iff 1 2 0 900 36 structure

abbrev pub tip : ChainTip
tip = record { height = 900_000; hash = "00" }

abbrev pub entries : List MempoolEntry
entries = solitary_entry "aa" 141 ∷ solitary_entry "ab" 200 ∷ []

abbrev pub membership : MempoolSnapshot
membership = snapshot_of "0.1.0" "local-1" "Local node" 1000 1500 500 tip entries 341

new_with_collection_window_iff_example :
    (new_with_collection_window "0.1.0" "local-1" "Local node" 1000 1500 500 tip entries
      ≡ ok membership)
    ↔ ((validate_source_id "local-1" ≡ ok tt)
        × (validate_source_label "Local node" ≡ ok tt)
        × HasWindow 1000 1500 500
        × IsSafe 900_000
        × IsSorted entries
        × IsSafe (length entries)
        × IsSafe (sum_vsize entries)
        × (membership
            ≡ snapshot_of "0.1.0" "local-1" "Local node" 1000 1500 500 tip entries
                (sum_vsize entries)))
new_with_collection_window_iff_example =
    new_with_collection_window_iff "0.1.0" "local-1" "Local node" 1000 1500 500 tip entries
      membership

membership-ok :
    new_with_collection_window "0.1.0" "local-1" "Local node" 1000 1500 500 tip entries
    ≡ ok membership
unfolding new_with_collection_window validate_source_id validate_source_label
membership-ok = refl

membership-made : IsMembership "0.1.0" membership
membership-made = (membership, membership-ok)

summary_of-counts_example :
    ((summary_of "0.1.0" entries).compatible_count ≡ count_of (some compatible) entries)
    × ((summary_of "0.1.0" entries).violating_count ≡ count_of (some violating) entries)
    × ((summary_of "0.1.0" entries).indeterminate_count ≡ count_of (some indeterminate) entries)
    × ((summary_of "0.1.0" entries).unclassified_count ≡ count_of none entries)
    × ((summary_of "0.1.0" entries).compatible_count
          + (summary_of "0.1.0" entries).violating_count
          + (summary_of "0.1.0" entries).indeterminate_count
          + (summary_of "0.1.0" entries).unclassified_count
        ≡ length entries)
summary_of-counts_example = summary_of-counts "0.1.0" entries

abbrev result_of : String → String → ClassificationResult
result_of id label = record {
  classifier_id = id;
  state = complete;
  primary_label = some label;
  labels = label ∷ [];
  missing_facts = [];
  evidence = some Value.null;
}

abbrev passed : RuleId → RuleOutcome
passed rule = record { rule = rule; number = number rule; verdict = pass }

-- Rule 2 is broken by the second input, and the other rules are not.
abbrev too_long : Violation
too_long = witness_item_too_large 1 0 300 256

abbrev violation : TxEvidence
violation = record {
  evaluation_mode = EvaluationMode.mempool_policy;
  rules_applied = true;
  is_coinbase = false;
  primary_violation = some (record { rule = RuleId.element_size; evidence = too_long });
  rules =
      passed RuleId.output_size
      ∷ record { rule = RuleId.element_size; number = 2; verdict = violate (too_long ∷ []) [] }
      ∷ passed RuleId.undefined_version
      ∷ passed RuleId.taproot_annex
      ∷ passed RuleId.control_block_size
      ∷ passed RuleId.op_success
      ∷ passed RuleId.tapscript_op_if
      ∷ [];
}

-- A transaction that would violate a rule.
abbrev pub classification : TransactionClassification
classification = record {
  txid = "ab";
  wtxid = "ab";
  structure = structure;
  results =
      result_of transaction_properties_classifier_id "version_2"
      ∷ result_of transaction_shape_classifier_id "other_shape"
      ∷ result_of data_protocols_classifier_id "no_detected_protocol"
      ∷ result_of knots_bip110_classifier_id "violating"
      ∷ [];
  assessment = assessment_of violation;
  rules = details_of violation;
}

validate_classification-ne-panic_example : validate_classification classification ≢ panic
validate_classification-ne-panic_example = validate_classification-ne-panic classification

abbrev pub classified : Classifications
classified = ("ab", classification) ∷ []

classified-valid : AllValid classified
unfolding validate_classification rule_number assessment_of details_of
classified-valid = (refl, tt)

materialize-shown_observation_example :
    materialize "0.1.0" membership 7 classified
    ≡ ok (shown_observation "0.1.0" membership 7 classified)
materialize-shown_observation_example =
    materialize-shown_observation "0.1.0" membership 7 classified membership-made (omega arith)
      classified-valid

from_snapshot-counts_example :
    ((from_snapshot classifying membership).classified_count
        + (from_snapshot classifying membership).unclassified_count
      ≡ 2)
    × ((from_snapshot classifying membership).unclassified_count ≡ count_of none entries)
from_snapshot-counts_example =
    from_snapshot-counts classifying "0.1.0" "local-1" "Local node" 1000 1500 500 tip entries
      membership membership-ok
