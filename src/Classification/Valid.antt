-- ===== src/Classification/Valid.antt =====
-- Evidence is published in a form that the data model accepts.
use Prim.Native.String.{String}
use mempool_atlas.Prelude.{
  ℕ, suc, ◌≡◌, refl, ap, sym, ◌∙◌, subst, inl, inr, Bool, true, false, some, List, [], ◌∷◌, ◌++◌,
  map, length, any, arith, eq_of_some, Option-cases,
}
use mempool_atlas.Results.{ok}
use mempool_atlas.Bitcoin.{Bitcoin, Transaction}
use mempool_atlas.Bip110.Prevout.{PrevoutSet}
use mempool_atlas.Bip110.Verdict.{
  RuleId, RuleVerdict, RuleOutcome, Violation, Missing, PrimaryViolation, TxEvidence,
}
use mempool_atlas.Bip110.Rules.{
  evaluate_mempool_policy, mempool_policy, input_scoped, outcome, rule1, verdict_of,
  output_size_violations,
}
use mempool_atlas.Bip110.Rules.Spec.{spec_evidence, all_evidence, all_missing, spec_inputs}
use mempool_atlas.Bip110.Rules.Reports.{ReportsIn, Evidences}
use mempool_atlas.Bip110.Rules.Refines.{evaluate_applied-spec_evidence}
use mempool_atlas.Bip110.Rules.Primary.{primary_violation-ReportsIn}
use mempool_atlas.Model.Rules.{
  Bip110RuleId, all_rule_ids, rule_id_eq, check_detail, check_details, push_violated, push_unknown,
  not_violated, validate_rules,
}
use mempool_atlas.Model.Reflexive.{rule_id_eq_refl, rule_ids_eq_refl, status_eq_refl}
use mempool_atlas.Classification.Evidence.{
  public_rule_id, detail_of, details_of, assessment_of, violated_after, unknown_after,
  violated_from, unknown_from,
}

-- A violation has evidence, and an unknown rule has missing facts.
abbrev pub IsGrounded : RuleVerdict → Type 0
IsGrounded RuleVerdict.pass = Unit
IsGrounded (RuleVerdict.violate [] missing) = ⊥
IsGrounded (RuleVerdict.violate (v ∷ vs) missing) = Unit
IsGrounded (RuleVerdict.unknown []) = ⊥
IsGrounded (RuleVerdict.unknown (m ∷ ms)) = Unit

-- The outcomes are of these rules, in order, and each is grounded.
abbrev pub AreGrounded : List RuleOutcome → List RuleId → Type 0
AreGrounded [] [] = Unit
AreGrounded [] (r ∷ rs) = ⊥
AreGrounded (o ∷ os) [] = ⊥
AreGrounded (o ∷ os) (r ∷ rs) = (o.rule ≡ r) × IsGrounded o.verdict × AreGrounded os rs

check_detail_lem :
    (txid : String) (r : RuleId) (n : ℕ) (verdict : RuleVerdict)
    → IsGrounded verdict
    → check_detail txid
        (detail_of (record { rule = r; number = n; verdict = verdict }))
        (public_rule_id r)
      ≡ ok tt
unfolding check_detail detail_of
check_detail_lem txid r n RuleVerdict.pass g =
    rw (rule_id_eq_refl (public_rule_id r)) (ground arith)
check_detail_lem txid r n (RuleVerdict.violate [] missing) g = absurd g
check_detail_lem txid r n (RuleVerdict.violate (v ∷ vs) []) g =
    rw (rule_id_eq_refl (public_rule_id r)) (ground arith)
check_detail_lem txid r n (RuleVerdict.violate (v ∷ vs) (m ∷ ms)) g =
    rw (rule_id_eq_refl (public_rule_id r)) (ground arith)
check_detail_lem txid r n (RuleVerdict.unknown []) g = absurd g
check_detail_lem txid r n (RuleVerdict.unknown (m ∷ ms)) g =
    rw (rule_id_eq_refl (public_rule_id r)) (ground arith)

abbrev outcome_of : RuleId → ℕ → RuleVerdict → RuleOutcome
outcome_of r n verdict = record { rule = r; number = n; verdict = verdict }

push_violated-detail_of :
    (r : RuleId) (n : ℕ) (verdict : RuleVerdict) (rs : List Bip110RuleId)
    → push_violated (detail_of (outcome_of r n verdict)) rs
      ≡ violated_after (outcome_of r n verdict) rs
unfolding push_violated detail_of violated_after
push_violated-detail_of r n RuleVerdict.pass rs = refl
push_violated-detail_of r n (RuleVerdict.violate vs ms) rs = refl
push_violated-detail_of r n (RuleVerdict.unknown ms) rs = refl

push_unknown-detail_of :
    (r : RuleId) (n : ℕ) (verdict : RuleVerdict) (rs : List Bip110RuleId)
    → push_unknown (detail_of (outcome_of r n verdict)) rs
      ≡ unknown_after (outcome_of r n verdict) rs
unfolding push_unknown detail_of unknown_after
push_unknown-detail_of r n RuleVerdict.pass rs = refl
push_unknown-detail_of r n (RuleVerdict.violate vs []) rs = refl
push_unknown-detail_of r n (RuleVerdict.violate vs (m ∷ ms)) rs = ground arith
push_unknown-detail_of r n (RuleVerdict.unknown ms) rs = refl

check_details_lem :
    (txid : String) (os : List RuleOutcome) (rs : List RuleId) (v u : List Bip110RuleId)
    → AreGrounded os rs
    → check_details txid (map detail_of os) (map public_rule_id rs) v u
      ≡ ok (violated_from os v, unknown_from os u)
unfolding check_details violated_from unknown_from
check_details_lem txid [] [] v u g = refl
check_details_lem txid [] (r ∷ rs) v u g = absurd g
check_details_lem txid (o ∷ os) [] v u g = absurd g
check_details_lem txid (o ∷ os) (r ∷ rs) v u (e, g, gs) =
    rw
      (
        sym e,
        check_detail_lem txid o.rule o.number o.verdict g,
        push_violated-detail_of o.rule o.number o.verdict v,
        push_unknown-detail_of o.rule o.number o.verdict u,
      )
      (check_details_lem txid os rs (violated_after o v) (unknown_after o u) gs)

module _ (p : Bip110RuleId → Bool) where
  any-append_left : (xs ys : List Bip110RuleId) → any p xs ≡ true → any p (xs ++ ys) ≡ true
  any-append_left [] ys h = cc
  any-append_left (x ∷ xs) ys h = ground (arith, any-append_left xs ys)

  any-append_last :
      (xs : List Bip110RuleId) (x : Bip110RuleId) → p x ≡ true → any p (xs ++ x ∷ []) ≡ true
  any-append_last [] x h = rw h refl
  any-append_last (y ∷ ys) x h = ground (arith, any-append_last ys x h)

  any-violated_after :
      (r : RuleId) (n : ℕ) (verdict : RuleVerdict) (rs : List Bip110RuleId)
      → any p rs ≡ true
      → any p (violated_after (outcome_of r n verdict) rs) ≡ true
  unfolding violated_after
  any-violated_after r n RuleVerdict.pass rs h = h
  any-violated_after r n (RuleVerdict.violate vs ms) rs h = any-append_left rs _ h
  any-violated_after r n (RuleVerdict.unknown ms) rs h = h

  any-violated_from :
      (os : List RuleOutcome) (rs : List Bip110RuleId)
      → any p rs ≡ true
      → any p (violated_from os rs) ≡ true
  unfolding violated_from
  any-violated_from [] rs h = h
  any-violated_from (o ∷ os) rs h =
      any-violated_from os _ (any-violated_after o.rule o.number o.verdict rs h)

-- A rule that evidence is reported for is among the violated ones.
pushed :
    (rule : RuleId) (v : Violation) (n : ℕ) (verdict : RuleVerdict) (rs : List Bip110RuleId)
    → Evidences v verdict
    → any (λ r. rule_id_eq r (public_rule_id rule)) (violated_after (outcome_of rule n verdict) rs)
      ≡ true
unfolding violated_after
pushed rule v n RuleVerdict.pass rs h = absurd h
pushed rule v n (RuleVerdict.violate vs ms) rs h =
    any-append_last _ rs (public_rule_id rule) (rule_id_eq_refl (public_rule_id rule))
pushed rule v n (RuleVerdict.unknown ms) rs h = absurd h

ReportsIn-violated_from :
    (rule : RuleId) (v : Violation) (os : List RuleOutcome) (rs : List Bip110RuleId)
    → ReportsIn rule v os
    → any (λ r. rule_id_eq r (public_rule_id rule)) (violated_from os rs) ≡ true
unfolding violated_from
ReportsIn-violated_from rule v [] rs h = absurd h
ReportsIn-violated_from rule v (o ∷ os) rs (inl (e, h)) =
    any-violated_from _ os _ (rw (sym e) (pushed o.rule v o.number o.verdict rs h))
ReportsIn-violated_from rule v (o ∷ os) rs (inr h) = ReportsIn-violated_from rule v os _ h

abbrev HasReported : TxEvidence → Type 0
HasReported e =
    (pv : PrimaryViolation) → e.primary_violation ≡ some pv → ReportsIn pv.rule pv.evidence e.rules

abbrev all_rules : List RuleId
all_rules = RuleId.output_size ∷ input_scoped

length-AreGrounded :
    (os : List RuleOutcome) (rs : List RuleId)
    → AreGrounded os rs
    → length (map detail_of os) ≡ length rs
length-AreGrounded [] [] g = refl
length-AreGrounded [] (r ∷ rs) g = absurd g
length-AreGrounded (o ∷ os) [] g = absurd g
length-AreGrounded (o ∷ os) (r ∷ rs) (e, g, gs) = ap suc (length-AreGrounded os rs gs)

primary-violated :
    (e : TxEvidence)
    → HasReported e
    → not_violated (assessment_of e).primary_rule (violated_from e.rules []) ≡ false
unfolding assessment_of
primary-violated e h = elim (Option-cases e.primary_violation) [
  | inl n ↦ rw n refl
  | inr (pv, s) ↦ rw s (rw (ReportsIn-violated_from pv.rule pv.evidence e.rules [] (h pv s)) refl)
]

all_rules-public : map public_rule_id all_rules ≡ all_rule_ids
unfolding public_rule_id
all_rules-public = refl

pub validate_rules_lem :
    (txid : String) (e : TxEvidence)
    → AreGrounded e.rules all_rules
    → HasReported e
    → validate_rules txid (assessment_of e) (details_of e) ≡ ok tt
unfolding validate_rules details_of assessment_of
validate_rules_lem txid e g h =
    rw
      (
        length-AreGrounded e.rules all_rules g,
        subst
            (λ ids.
              check_details txid (map detail_of e.rules) ids [] []
              ≡ ok (violated_from e.rules [], unknown_from e.rules []))
            all_rules-public (check_details_lem txid e.rules all_rules [] [] g),
        status_eq_refl _,
        rule_ids_eq_refl (violated_from e.rules []),
        rule_ids_eq_refl (unknown_from e.rules []),
        primary-violated e h,
      )
      refl

verdict_of-IsGrounded : (vs : List Violation) (ms : List Missing) → IsGrounded (verdict_of vs ms)
unfolding verdict_of
verdict_of-IsGrounded [] [] = tt
verdict_of-IsGrounded [] (m ∷ ms) = tt
verdict_of-IsGrounded (v ∷ vs) ms = tt

rule1-IsGrounded : (vs : List Violation) → IsGrounded (rule1 vs)
unfolding rule1
rule1-IsGrounded [] = tt
rule1-IsGrounded (v ∷ vs) = tt

module _ (bitcoin : Bitcoin) (tx : Transaction) (prevouts : PrevoutSet) where
  abbrev evidence : TxEvidence
  evidence = spec_evidence bitcoin mempool_policy prevouts tx

  spec-AreGrounded :
      (rules : List RuleId)
      → AreGrounded
          (map
            (λ r. outcome r (
              verdict_of
                (all_evidence bitcoin mempool_policy prevouts r 0 (spec_inputs bitcoin tx))
                (all_missing bitcoin mempool_policy prevouts r 0 (spec_inputs bitcoin tx))))
            rules)
          rules
  spec-AreGrounded [] = tt
  spec-AreGrounded (r ∷ rs) = (refl, verdict_of-IsGrounded _ _, spec-AreGrounded rs)

  -- Whatever is known of the prevouts, the evidence of a mempool-policy evaluation is published as
  -- an assessment and rule details that the data model's validation of the rules accepts: seven
  -- rules in order with their numbers, counts that match the exemplars kept, lists of violated
  -- and unknown rules and a status that agree with the details, and a violated primary rule.
  pub validate_rules-assessment_of :
      (txid : String) (e : TxEvidence)
      → evaluate_mempool_policy bitcoin tx prevouts ≡ some e
      → validate_rules txid (assessment_of e) (details_of e) ≡ ok tt
  unfolding evaluate_mempool_policy
  validate_rules-assessment_of txid e h =
      let p =
        eq_of_some (sym (evaluate_applied-spec_evidence bitcoin mempool_policy prevouts tx) ∙ h) in
      subst (λ x. validate_rules txid (assessment_of x) (details_of x) ≡ ok tt) p
        (validate_rules_lem txid evidence
          (refl, rule1-IsGrounded (output_size_violations tx), spec-AreGrounded input_scoped)
          (λ pv s.
            primary_violation-ReportsIn bitcoin mempool_policy prevouts tx evidence pv
              (evaluate_applied-spec_evidence bitcoin mempool_policy prevouts tx) s))
