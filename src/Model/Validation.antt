-- ===== src/Model/Validation.antt =====
-- src/model.rs: the validation of a transaction's classification.
use Prim.Native.String.{String}
use text.Mathlib.Text.{◌==◌ as str_eq}
use mempool_atlas.Prelude.{
  Bool, true, false, not, ◌&&◌, ◌||◌, Option, none, some, List, [], ◌∷◌, map, length, is_empty,
  is_none, any, all, find?, ◌==◌, if◌then◌else◌,
}
use mempool_atlas.Results.{Result, ok, panic, reject, ◌>>◌}
use mempool_atlas.Model.Error.{ModelError, invalid_classification_detail}
use mempool_atlas.Model.Catalog.{
  ClassifierDescriptor, classifier_catalog, knots_bip110_classifier_id,
}
use mempool_atlas.Model.Rules.{
  Bip110Status, compatible, violating, indeterminate, Bip110Assessment, Bip110RuleDetail,
  validate_rules,
}
use mempool_atlas.Model.Entry.{
  ClassificationResult, ClassificationResultState, complete, partial, TransactionStructure,
}

pub record TransactionClassification : Type 0 where
  pub txid : String
  pub wtxid : String
  pub structure : TransactionStructure
  pub results : List ClassificationResult
  pub assessment : Bip110Assessment
  pub rules : List Bip110RuleDetail

abbrev pub contains : String → List String → Bool
contains s xs = any (str_eq s) xs

-- `collect::<BTreeSet<_>>()`, in the order of the first occurrences
unfoldable pub to_set : List String → List String
to_set [] = []
to_set (x ∷ xs) = let rest = to_set xs in if contains x rest then rest else x ∷ rest

abbrev pub strings_eq : List String → List String → Bool
strings_eq [] [] = true
strings_eq (x ∷ xs) (y ∷ ys) = str_eq x y && strings_eq xs ys
strings_eq _ _ = false

abbrev pub is_partial : ClassificationResultState → Bool
is_partial complete = false
is_partial partial = true

-- `primary_label.as_ref().is_some_and(|primary| !labels.contains(primary))`
abbrev pub primary_outside : Option String → List String → Bool
primary_outside none labels = false
primary_outside (some primary) labels = not (contains primary labels)

unfoldable pub is_inconsistent : ClassificationResult → Bool
is_inconsistent result =
    (is_empty result.labels && not (is_partial result.state))
    || (is_none result.evidence
        || ((not (is_partial result.state) && not (is_empty result.missing_facts))
            || ((is_partial result.state && is_empty result.missing_facts)
                || primary_outside result.primary_label result.labels)))

-- One round of the loop over the results.
unfoldable pub check_result :
    String → ClassificationResult → ClassifierDescriptor → Result ModelError Unit
unfolding is_inconsistent to_set
check_result txid result descriptor = do
  reject (not (str_eq result.classifier_id descriptor.id))
      (invalid_classification_detail txid "classifier results must use canonical order")
  reject (is_inconsistent result) (
      invalid_classification_detail txid
        "classifier result state, labels, or evidence is inconsistent")
  reject
      (not (length (to_set result.labels) == length result.labels)
        || not (
            all (λ label. contains label (map (λ d. d.key) descriptor.labels))
              (to_set result.labels)))
      (invalid_classification_detail txid
        "classifier result contains duplicate or undeclared labels")
  reject (not (length (to_set result.missing_facts) == length result.missing_facts))
      (invalid_classification_detail txid "classifier result contains duplicate missing facts")

unfoldable pub check_results :
    String → List ClassificationResult → List ClassifierDescriptor → Result ModelError Unit
unfolding check_result
check_results txid (result ∷ results) (descriptor ∷ catalog) = do
  check_result txid result descriptor
  check_results txid results catalog
check_results txid results catalog = ok tt

unfoldable pub validate_classifier_results :
    String → List ClassificationResult → Result ModelError Unit
unfolding check_results
validate_classifier_results txid results = do
  reject (not (length results == length classifier_catalog))
      (invalid_classification_detail txid "must contain every classifier result")
  check_results txid results classifier_catalog

unfoldable pub policy_label : Bip110Status → String
policy_label compatible = "compatible"
policy_label violating = "violating"
policy_label indeterminate = "indeterminate"

abbrev pub option_is : Option String → String → Bool
option_is none label = false
option_is (some l) label = str_eq l label

abbrev pub partial_state : Bool → ClassificationResultState
partial_state true = partial
partial_state false = complete

abbrev pub same_state : ClassificationResultState → ClassificationResultState → Bool
same_state complete complete = true
same_state partial partial = true
same_state _ _ = false

-- The test of the BIP-110 result against the assessment.
unfoldable pub policy_mismatch : Bip110Assessment → ClassificationResult → Bool
unfolding policy_label
policy_mismatch assessment policy =
    let expected = policy_label assessment.status in
    let policy_is_partial = not (is_empty assessment.unknown_rules) in
    not (option_is policy.primary_label expected)
    || (not (strings_eq policy.labels (expected ∷ []))
        || (not (same_state policy.state (partial_state policy_is_partial))
            || not (
                strings_eq policy.missing_facts
                  (if policy_is_partial then "policy_facts" ∷ [] else []))))

abbrev pub policy_result : List ClassificationResult → Option ClassificationResult
policy_result = find? (λ result. str_eq result.classifier_id knots_bip110_classifier_id)

unfoldable pub validate_policy :
    TransactionClassification → Option ClassificationResult → Result ModelError Unit
unfolding policy_mismatch
validate_policy c none = panic
validate_policy c (some policy) = reject (policy_mismatch c.assessment policy) (
    invalid_classification_detail c.txid
      "BIP-110 classifier result does not match its policy assessment")

unfoldable pub validate_classification : TransactionClassification → Result ModelError Unit
unfolding validate_classifier_results validate_policy validate_rules
validate_classification c = do
  validate_classifier_results c.txid c.results
  validate_policy c (policy_result c.results)
  validate_rules c.txid c.assessment c.rules
