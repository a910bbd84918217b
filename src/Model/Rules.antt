-- ===== src/Model/Rules.antt =====
-- src/model.rs: the published form of a BIP-110 evaluation, and the validation of its rules.
use Prim.Native.String.{String}
use mempool_atlas.Prelude.{
  ℕ, Bool, true, false, not, ◌&&◌, ◌||◌, Option, none, some, List, [], ◌∷◌, ◌++◌, length, is_empty,
  any, ltb, leb, ◌==◌, ◌-◌, ◌^◌, if◌then◌else◌,
}
use mempool_atlas.Results.{Result, ok, reject, ◌>>=◌, ◌>>◌}
use mempool_atlas.Json.{bool_eq}
use mempool_atlas.Bip110.Verdict.{Violation, Missing}
use mempool_atlas.Model.Error.{ModelError, invalid_classification_detail}

abbrev pub max_safe_json_integer : ℕ
max_safe_json_integer = 9_007_199_254_740_991

abbrev pub max_bip110_detail_exemplars_per_rule : ℕ
max_bip110_detail_exemplars_per_rule = 1

-- `u64::try_from(n).unwrap_or(u64::MAX)`
abbrev pub to_u64 : ℕ → ℕ
to_u64 n = if leb n (2 ^ 64 - 1) then n else 2 ^ 64 - 1

pub data Bip110RuleId : Type 0 where
  output_size element_size undefined_version taproot_annex : Bip110RuleId
  control_block_size op_success tapscript_op_if : Bip110RuleId

-- `Bip110RuleId::ALL`
abbrev pub all_rule_ids : List Bip110RuleId
all_rule_ids =
    output_size ∷ element_size ∷ undefined_version ∷ taproot_annex ∷ control_block_size ∷ op_success
    ∷ tapscript_op_if ∷ []

unfoldable pub rule_number : Bip110RuleId → ℕ
rule_number output_size = 1
rule_number element_size = 2
rule_number undefined_version = 3
rule_number taproot_annex = 4
rule_number control_block_size = 5
rule_number op_success = 6
rule_number tapscript_op_if = 7

-- the derived `==`
abbrev pub rule_id_eq : Bip110RuleId → Bip110RuleId → Bool
rule_id_eq output_size output_size = true
rule_id_eq element_size element_size = true
rule_id_eq undefined_version undefined_version = true
rule_id_eq taproot_annex taproot_annex = true
rule_id_eq control_block_size control_block_size = true
rule_id_eq op_success op_success = true
rule_id_eq tapscript_op_if tapscript_op_if = true
rule_id_eq _ _ = false

abbrev pub rule_ids_eq : List Bip110RuleId → List Bip110RuleId → Bool
rule_ids_eq [] [] = true
rule_ids_eq (a ∷ xs) (b ∷ ys) = rule_id_eq a b && rule_ids_eq xs ys
rule_ids_eq _ _ = false

pub data Bip110Status : Type 0 where
  compatible violating indeterminate : Bip110Status

abbrev pub status_eq : Bip110Status → Bip110Status → Bool
status_eq compatible compatible = true
status_eq violating violating = true
status_eq indeterminate indeterminate = true
status_eq _ _ = false

pub record Bip110Assessment : Type 0 where
  pub status : Bip110Status
  pub primary_rule : Option Bip110RuleId
  pub violated_rules : List Bip110RuleId
  pub unknown_rules : List Bip110RuleId

pub data Bip110RuleVerdict : Type 0 where
  pass violate unknown : Bip110RuleVerdict

pub record Bip110RuleDetail : Type 0 where
  pub rule : Bip110RuleId
  pub number : ℕ
  pub verdict : Bip110RuleVerdict
  pub evidence_count : ℕ
  pub evidence : List Violation
  pub missing_count : ℕ
  pub missing : List Missing

-- The status that the lists of violated and of unknown rules stand for.
unfoldable pub status_of : List Bip110RuleId → List Bip110RuleId → Bip110Status
status_of [] [] = compatible
status_of [] (r ∷ rs) = indeterminate
status_of (r ∷ rs) _ = violating

-- `(count == 0) != list.is_empty()`
abbrev pub disagrees : {A : Type 0} → ℕ → List A → Bool
disagrees count xs = not (bool_eq (count == 0) (is_empty xs))

-- The tests on the verdict of a detail.
unfoldable pub check_verdict : String → Bip110RuleDetail → Result ModelError Unit
check_verdict txid detail = elim detail.verdict [
  | pass ↦
      reject (not (detail.evidence_count == 0) || not (detail.missing_count == 0)) (
        invalid_classification_detail txid
          "a passing rule cannot contain evidence or missing facts")
  | violate ↦
      reject (detail.evidence_count == 0)
        (invalid_classification_detail txid "a violating rule must contain evidence")
  | unknown ↦
      reject (not (detail.evidence_count == 0) || detail.missing_count == 0)
        (invalid_classification_detail txid "an unknown rule must contain only missing facts")
]

-- One round of the loop over the details, without its pushes.
unfoldable pub check_detail : String → Bip110RuleDetail → Bip110RuleId → Result ModelError Unit
unfolding check_verdict
check_detail txid detail expected_rule = do
  reject
      (not (rule_id_eq detail.rule expected_rule)
        || not (detail.number == rule_number expected_rule))
      (invalid_classification_detail txid "rules must use canonical order and numbering")
  reject
      (ltb max_bip110_detail_exemplars_per_rule (length detail.evidence)
        || ltb max_bip110_detail_exemplars_per_rule (length detail.missing))
      (invalid_classification_detail txid "retained rule exemplars exceed the configured bound")
  reject
      (ltb detail.evidence_count (to_u64 (length detail.evidence))
        || (ltb detail.missing_count (to_u64 (length detail.missing))
            || (disagrees detail.evidence_count detail.evidence
                || disagrees detail.missing_count detail.missing)))
      (invalid_classification_detail txid "rule exemplar counts do not match retained detail")
  check_verdict txid detail

-- `violated_rules.push(…)` and `unknown_rules.push(…)`
unfoldable pub push_violated : Bip110RuleDetail → List Bip110RuleId → List Bip110RuleId
push_violated detail rules = elim detail.verdict [
  | pass ↦ rules
  | violate ↦ rules ++ detail.rule ∷ []
  | unknown ↦ rules
]

unfoldable pub push_unknown : Bip110RuleDetail → List Bip110RuleId → List Bip110RuleId
push_unknown detail rules = elim detail.verdict [
  | pass ↦ rules
  | violate ↦ if ltb 0 detail.missing_count then rules ++ detail.rule ∷ [] else rules
  | unknown ↦ rules ++ detail.rule ∷ []
]

-- The loop over the details, zipped with the expected rules.
unfoldable pub check_details :
    String
    → List Bip110RuleDetail
    → List Bip110RuleId
    → List Bip110RuleId
    → List Bip110RuleId
    → Result ModelError (List Bip110RuleId × List Bip110RuleId)
unfolding check_detail push_violated push_unknown
check_details txid (detail ∷ details) (expected ∷ rest) violated unknown_rules = do
  check_detail txid detail expected
  check_details txid details rest (push_violated detail violated)
      (push_unknown detail unknown_rules)
check_details txid details expected violated unknown_rules = ok (violated, unknown_rules)

-- `is_some_and(|rule| !violated_rules.contains(&rule))`
abbrev pub not_violated : Option Bip110RuleId → List Bip110RuleId → Bool
not_violated none violated = false
not_violated (some rule) violated = not (any (λ r. rule_id_eq r rule) violated)

-- The part of `validate_classification` behind the classifier results.
unfoldable pub validate_rules :
    String → Bip110Assessment → List Bip110RuleDetail → Result ModelError Unit
unfolding check_details status_of
validate_rules txid assessment rules = do
  reject (not (length rules == length all_rule_ids))
      (invalid_classification_detail txid "must contain all seven rules")
  lists ← check_details txid rules all_rule_ids [] []
  reject
      (not (status_eq assessment.status (status_of lists.0 lists.1))
        || (not (rule_ids_eq assessment.violated_rules lists.0)
            || (not (rule_ids_eq assessment.unknown_rules lists.1)
                || not_violated assessment.primary_rule lists.0)))
      (invalid_classification_detail txid "compact assessment does not match rule detail")
