-- ===== src/Model/Reflexive.antt =====
-- The derived equalities hold of equal values.
use Prim.Native.String.{String}
use text.Mathlib.Text.{◌==◌ as str_eq}
use text.Mathlib.TextPositions.{eq_refl}
use mempool_atlas.Prelude.{◌≡◌, refl, Bool, true, Option, none, some, List, [], ◌∷◌, ==_iff}
use mempool_atlas.Json.{value_eq, value_eq_refl}
use mempool_atlas.Model.Rules.{
  Bip110RuleId, rule_id_eq, rule_ids_eq, Bip110Status, status_eq, Bip110Assessment,
}
use mempool_atlas.Model.Entry.{
  ClassificationResult, ClassificationResultState, complete, partial, TransactionStructure,
}
use mempool_atlas.Model.Validation.{strings_eq, same_state}
use mempool_atlas.Model.Observation.{option_eq, result_eq, results_eq, assessment_eq, structure_eq}

pub rule_id_eq_refl : (r : Bip110RuleId) → rule_id_eq r r ≡ true
rule_id_eq_refl Bip110RuleId.output_size = refl
rule_id_eq_refl Bip110RuleId.element_size = refl
rule_id_eq_refl Bip110RuleId.undefined_version = refl
rule_id_eq_refl Bip110RuleId.taproot_annex = refl
rule_id_eq_refl Bip110RuleId.control_block_size = refl
rule_id_eq_refl Bip110RuleId.op_success = refl
rule_id_eq_refl Bip110RuleId.tapscript_op_if = refl

pub rule_ids_eq_refl : (rs : List Bip110RuleId) → rule_ids_eq rs rs ≡ true
rule_ids_eq_refl [] = refl
rule_ids_eq_refl (r ∷ rs) = rw (rule_id_eq_refl r) (rule_ids_eq_refl rs)

pub status_eq_refl : (s : Bip110Status) → status_eq s s ≡ true
status_eq_refl Bip110Status.compatible = refl
status_eq_refl Bip110Status.violating = refl
status_eq_refl Bip110Status.indeterminate = refl

option_eq_refl :
    {A : Type 0} (eq : A → A → Bool)
    → ((a : A) → eq a a ≡ true)
    → (o : Option A) → option_eq eq o o ≡ true
option_eq_refl eq r none = refl
option_eq_refl eq r (some a) = r a

strings_eq_refl : (xs : List String) → strings_eq xs xs ≡ true
strings_eq_refl [] = refl
strings_eq_refl (x ∷ xs) = rw (eq_refl x) (strings_eq_refl xs)

same_state_refl : (s : ClassificationResultState) → same_state s s ≡ true
same_state_refl complete = refl
same_state_refl partial = refl

result_eq_refl : (r : ClassificationResult) → result_eq r r ≡ true
result_eq_refl r =
    rw
      (
        eq_refl r.classifier_id,
        same_state_refl r.state,
        option_eq_refl str_eq eq_refl r.primary_label,
        strings_eq_refl r.labels,
        strings_eq_refl r.missing_facts,
        option_eq_refl value_eq value_eq_refl r.evidence,
      )
      refl

pub results_eq_refl : (rs : List ClassificationResult) → results_eq rs rs ≡ true
results_eq_refl [] = refl
results_eq_refl (r ∷ rs) = rw (result_eq_refl r) (results_eq_refl rs)

pub assessment_eq_refl : (a : Bip110Assessment) → assessment_eq a a ≡ true
assessment_eq_refl a =
    rw
      (
        status_eq_refl a.status,
        option_eq_refl rule_id_eq rule_id_eq_refl a.primary_rule,
        rule_ids_eq_refl a.violated_rules,
        rule_ids_eq_refl a.unknown_rules,
      )
      refl

pub structure_eq_refl : (s : TransactionStructure) → structure_eq s s ≡ true
structure_eq_refl s =
    rw
      (
        (==_iff s.input_count s.input_count).1 refl,
        (==_iff s.output_count s.output_count).1 refl,
        (==_iff s.op_return_bytes s.op_return_bytes).1 refl,
        (==_iff s.output_sats s.output_sats).1 refl,
        (==_iff s.witness_bytes s.witness_bytes).1 refl,
      )
      refl
