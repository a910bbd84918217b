-- ===== src/Model/NoPanic.antt =====
-- The `expect` of the validation holds: the BIP-110 result is among the validated results.
use Prim.Native.String.{String}
use text.Mathlib.Text.{◌==◌ as str_eq}
use mempool_atlas.Prelude.{
  ℕ, ◌≡◌, refl, ◌≢◌, Bool, true, false, not, Option, none, some, List, [], ◌∷◌, length, is_some,
  arith, ◌==◌,
}
use mempool_atlas.Results.{Result, ok, err, panic, reject, ◌>>◌, >>-ok, reject-ok}
use mempool_atlas.Model.Error.{invalid_classification_detail}
use mempool_atlas.Model.Catalog.{
  ClassifierDescriptor, classifier_catalog, knots_bip110_classifier_id,
  transaction_properties_descriptor, transaction_shape_descriptor, data_protocols_descriptor,
  knots_bip110_descriptor,
}
use mempool_atlas.Model.Rules.{
  Bip110Assessment, Bip110RuleDetail, Bip110RuleId, validate_rules, check_details, check_detail,
  check_verdict, push_violated, push_unknown, all_rule_ids,
}
use mempool_atlas.Model.Entry.{ClassificationResult}
use mempool_atlas.Model.Validation.{
  TransactionClassification, check_result, check_results, validate_classifier_results,
  policy_result, validate_policy, validate_classification,
}

module _ {E : Type 0} where
  -- A chain of tests that does not panic.
  >>-no-panic :
      {A : Type 0} (m : Result E Unit) (n : Result E A)
      → m ≢ panic
      → (m ≡ ok tt → n ≢ panic)
      → (m >> n) ≢ panic
  >>-no-panic (err e) n hm hn p = cc
  >>-no-panic (ok tt) n hm hn p = hn refl p
  >>-no-panic panic n hm hn p = hm refl

  reject-no-panic : (b : Bool) (e : E) → reject b e ≢ panic
  reject-no-panic true e p = cc
  reject-no-panic false e p = cc

check_result-id :
    (txid : String) (r : ClassificationResult) (d : ClassifierDescriptor)
    → check_result txid r d ≡ ok tt
    → str_eq r.classifier_id d.id ≡ true
unfolding check_result
check_result-id txid r d h = ground arith

check_results-last :
    (txid : String) (a b c d : ClassificationResult)
    → check_results txid (a ∷ b ∷ c ∷ d ∷ []) classifier_catalog ≡ ok tt
    → str_eq d.classifier_id knots_bip110_classifier_id ≡ true
unfolding check_results
check_results-last txid a b c d h =
    let after_a = >>-ok (check_result txid a transaction_properties_descriptor) _ h in
    let after_b = >>-ok (check_result txid b transaction_shape_descriptor) _ after_a.1 in
    let after_c = >>-ok (check_result txid c data_protocols_descriptor) _ after_b.1 in
    check_result-id txid d knots_bip110_descriptor
      (>>-ok (check_result txid d knots_bip110_descriptor) _ after_c.1).0

not-eq : (n : ℕ) → not (n == 4) ≡ false → n ≡ 4
not-eq n h = ground arith

has_four :
    (txid : String) (results : List ClassificationResult)
    → validate_classifier_results txid results ≡ ok tt
    → length results ≡ 4
unfolding validate_classifier_results
has_four txid results h =
    not-eq (length results)
      (reject-ok (not (length results == 4)) _ (>>-ok (reject (not (length results == 4)) _) _ h).0)

found-last :
    (a b c d : ClassificationResult)
    → str_eq d.classifier_id knots_bip110_classifier_id ≡ true
    → is_some (policy_result (a ∷ b ∷ c ∷ d ∷ [])) ≡ true
found-last a b c d h = rw h (ground arith)

policy_result-found :
    (txid : String) (results : List ClassificationResult)
    → validate_classifier_results txid results ≡ ok tt
    → is_some (policy_result results) ≡ true
unfolding validate_classifier_results
policy_result-found txid [] h = cc
policy_result-found txid (a ∷ []) h = cc
policy_result-found txid (a ∷ b ∷ []) h = cc
policy_result-found txid (a ∷ b ∷ c ∷ []) h = cc
policy_result-found txid (a ∷ b ∷ c ∷ d ∷ []) h = found-last a b c d (
    check_results-last txid a b c d
      (>>-ok
        (reject false (invalid_classification_detail txid "must contain every classifier result")) _
        h).1)
policy_result-found txid (a ∷ b ∷ c ∷ d ∷ e ∷ rest) h =
    absurd (omega (arith, has_four txid (a ∷ b ∷ c ∷ d ∷ e ∷ rest) h))

check_result-no-panic :
    (txid : String) (r : ClassificationResult) (d : ClassifierDescriptor)
    → check_result txid r d ≢ panic
unfolding check_result
check_result-no-panic txid r d p = ground arith

check_results-no-panic :
    (txid : String) (rs : List ClassificationResult) (ds : List ClassifierDescriptor)
    → check_results txid rs ds ≢ panic
unfolding check_results
check_results-no-panic txid [] [] p = cc
check_results-no-panic txid [] (d ∷ ds) p = cc
check_results-no-panic txid (r ∷ rs) [] p = cc
check_results-no-panic txid (r ∷ rs) (d ∷ ds) p =
    >>-no-panic _ _ (check_result-no-panic txid r d) (λ _. check_results-no-panic txid rs ds) p

check_verdict-no-panic :
    (txid : String) (detail : Bip110RuleDetail) → check_verdict txid detail ≢ panic
unfolding check_verdict
check_verdict-no-panic txid detail p = ground arith

check_detail-no-panic :
    (txid : String) (detail : Bip110RuleDetail) (r : Bip110RuleId)
    → check_detail txid detail r ≢ panic
unfolding check_detail
check_detail-no-panic txid detail r p = ground (arith, check_verdict-no-panic txid detail)

check_details-no-panic :
    (txid : String) (details : List Bip110RuleDetail) (expected v u : List Bip110RuleId)
    → check_details txid details expected v u ≢ panic
unfolding check_details
check_details-no-panic txid [] expected v u p = cc
check_details-no-panic txid (d ∷ ds) [] v u p = cc
check_details-no-panic txid (d ∷ ds) (r ∷ rs) v u p =
    >>-no-panic (check_detail txid d r) _ (check_detail-no-panic txid d r)
      (λ _. check_details-no-panic txid ds rs (push_violated d v) (push_unknown d u)) p

validate_rules-no-panic :
    (txid : String) (assessment : Bip110Assessment) (rules : List Bip110RuleDetail)
    → validate_rules txid assessment rules ≢ panic
unfolding validate_rules
validate_rules-no-panic txid assessment rules p =
    ground (arith, check_details-no-panic txid rules all_rule_ids [] [])

validate_policy-no-panic :
    (c : TransactionClassification) (o : Option ClassificationResult)
    → is_some o ≡ true
    → validate_policy c o ≢ panic
unfolding validate_policy
validate_policy-no-panic c none h p = cc
validate_policy-no-panic c (some policy) h p = reject-no-panic _ _ p

validate_classifier_results-no-panic :
    (txid : String) (results : List ClassificationResult)
    → validate_classifier_results txid results ≢ panic
unfolding validate_classifier_results
validate_classifier_results-no-panic txid results p =
    ground (arith, check_results-no-panic txid results classifier_catalog)

-- The validation of a classification never panics: where it looks for the BIP-110 result, the
-- tests before it have made sure that there is one.
pub validate_classification-ne-panic :
    (c : TransactionClassification) → validate_classification c ≢ panic
unfolding validate_classification
validate_classification-ne-panic c =
    >>-no-panic (validate_classifier_results c.txid c.results) _
      (validate_classifier_results-no-panic c.txid c.results)
      (λ valid.
        >>-no-panic (validate_policy c (policy_result c.results)) _
          (validate_policy-no-panic c _ (policy_result-found c.txid c.results valid))
          (λ _. validate_rules-no-panic c.txid c.assessment c.rules))
