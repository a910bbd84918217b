-- ===== src/Bip110/Rules/Primary.antt =====
-- The primary violation is one of the reported ones.
use mempool_atlas.Prelude.{
  ℕ, ◌+◌, ◌≡◌, refl, sym, ap, subst, ◌∙◌, ◌⊎◌, inl, inr, Bool, true, false, Option, none, some,
  eq_of_some, List, [], ◌∷◌, Contains, Contains-append_left, Contains-append_right, arith,
  Bool-cases, if◌then◌else◌,
}
use mempool_atlas.Bitcoin.{Bitcoin, TxIn, Transaction}
use mempool_atlas.Bip110.Prevout
use mempool_atlas.Bip110.Prevout.{PrevoutFacts, PrevoutSet}
use mempool_atlas.Bip110.Verdict.{RuleId, Violation, PrimaryViolation, TxEvidence, rule_eq}
use mempool_atlas.Bip110.ScriptRules.Sound.{ReturnsProven, proven, evaluate_input-ReturnsProven}
use mempool_atlas.Bip110.Rules.{
  Applicability, consensus, mempool_policy, is_exempt, first, input_scoped, output_size_violations,
  evaluate_applied,
}
use mempool_atlas.Bip110.Rules.Spec.{
  known, or_nil, contribution, contribution_at, evidence_of, all_evidence, all_missing,
  first_rejection, or_else, spec_inputs, spec_evidence,
}
use mempool_atlas.Bip110.Rules.Slots.{IsInputScoped, AllInputScoped, AllProven-AllInputScoped}
use mempool_atlas.Bip110.Rules.Reports.{ReportsIn, ReportsIn-outcome, rule1-Evidences}
use mempool_atlas.Bip110.Rules.Refines.{evaluate_applied-spec_evidence}

rule_eq_refl : (rule : RuleId) → rule_eq rule rule ≡ true
rule_eq_refl rule = ground arith

IsInputScoped-Contains : (rule : RuleId) → IsInputScoped rule → Contains rule input_scoped
IsInputScoped-Contains RuleId.output_size h = absurd h
IsInputScoped-Contains RuleId.element_size h = inl refl
IsInputScoped-Contains RuleId.undefined_version h = inr (inl refl)
IsInputScoped-Contains RuleId.taproot_annex h = inr (inr (inl refl))
IsInputScoped-Contains RuleId.control_block_size h = inr (inr (inr (inl refl)))
IsInputScoped-Contains RuleId.op_success h = inr (inr (inr (inr (inl refl))))
IsInputScoped-Contains RuleId.tapscript_op_if h = inr (inr (inr (inr (inr (inl refl)))))

-- The first match is evidence for its rule.
first-evidence :
    (pv : PrimaryViolation) (ms : List PrimaryViolation)
    → first ms ≡ some pv
    → AllInputScoped ms
    → IsInputScoped pv.rule × Contains pv.evidence (evidence_of pv.rule ms)
first-evidence pv [] e h = cc
first-evidence pv (m ∷ ms) e h =
    let p : m ≡ pv = ground arith in
    subst (λ x. IsInputScoped x.rule × Contains x.evidence (evidence_of x.rule (m ∷ ms))) p
      (h.0, rw (rule_eq_refl m.rule) (inl refl))

unblocked :
    (pv : PrimaryViolation) (b : Bool) (now later : Option PrimaryViolation)
    → (if b then none else or_else now later) ≡ some pv
    → (now ≡ some pv) ⊎ (later ≡ some pv)
unblocked pv true now later e = cc
unblocked pv false none later e = inr e
unblocked pv false (some v) later e = inl e

module _ (bitcoin : Bitcoin) (applicability : Applicability) (prevouts : PrevoutSet) where
  known-AllInputScoped :
      (applicability : Applicability) (i : ℕ) (height : Option ℕ) (ms : List PrimaryViolation)
      → AllInputScoped ms
      → AllInputScoped (known applicability i height ms).found
  known-AllInputScoped mempool_policy i height ms h = h
  known-AllInputScoped (consensus ctx) i (some height) ms h = h
  known-AllInputScoped (consensus ctx) i none ms h = tt

  input-AllInputScoped :
      (i : ℕ) (r : Option (List PrimaryViolation)) → ReturnsProven i r → AllInputScoped (or_nil r)
  input-AllInputScoped i r (proven ms e h) = rw e (AllProven-AllInputScoped i ms h)

  found-AllInputScoped :
      (i : ℕ) (txin : TxIn) (facts : Option PrevoutFacts)
      → AllInputScoped (contribution_at bitcoin applicability prevouts i txin facts).found
  found-AllInputScoped i txin none = tt
  found-AllInputScoped i txin (some facts) =
      elim (Bool-cases (is_exempt applicability facts.creation_height)) [
        | inl e ↦ rw e tt
        | inr e ↦ rw e (
            known-AllInputScoped applicability i facts.creation_height _ (
              input-AllInputScoped i _
                (evaluate_input-ReturnsProven bitcoin i txin facts.script_pubkey)))
      ]

  first_rejection-evidence :
      (pv : PrimaryViolation) (i : ℕ) (txins : List TxIn)
      → first_rejection bitcoin applicability prevouts i txins ≡ some pv
      → IsInputScoped pv.rule
        × Contains pv.evidence (all_evidence bitcoin applicability prevouts pv.rule i txins)
  first_rejection-evidence pv i [] e = cc
  first_rejection-evidence pv i (txin ∷ txins) e =
      let c = contribution bitcoin applicability prevouts i txin in
      elim (unblocked pv c.blocks (first c.found) _ e) [
        | inl now ↦
            let (s, h) =
              first-evidence pv c.found now
                (found-AllInputScoped i txin (Prevout.get prevouts i)) in
            (s, Contains-append_left pv.evidence (evidence_of pv.rule c.found) _ h)
        | inr later ↦
            let (s, h) = first_rejection-evidence pv (i + 1) txins later in
            (s, Contains-append_right pv.evidence (evidence_of pv.rule c.found) _ h)
      ]

  spec-ReportsIn :
      (tx : Transaction) (pv : PrimaryViolation) (outs : List Violation)
      → output_size_violations tx ≡ outs
      → (spec_evidence bitcoin applicability prevouts tx).primary_violation ≡ some pv
      → ReportsIn pv.rule pv.evidence (spec_evidence bitcoin applicability prevouts tx).rules
  spec-ReportsIn tx pv [] o e =
      let (s, h) = first_rejection-evidence pv 0 (spec_inputs bitcoin tx) (rw o at e) in
      inr (
        ReportsIn-outcome pv.rule pv.evidence
          (λ r. all_evidence bitcoin applicability prevouts r 0 (spec_inputs bitcoin tx))
          (λ r. all_missing bitcoin applicability prevouts r 0 (spec_inputs bitcoin tx))
          input_scoped (IsInputScoped-Contains pv.rule s) h)
  spec-ReportsIn tx pv (v ∷ vs) o e =
      let p = eq_of_some (rw o at e) in
      rw o (
        inl
          (ap (λ x. x.rule) p, rule1-Evidences (v ∷ vs) pv.evidence (inl (ap (λ x. x.evidence) p))))

  -- The primary violation of an evaluation, in either mode, is one of the violations that the
  -- evaluation reports, under its rule.
  pub primary_violation-ReportsIn :
      (tx : Transaction) (e : TxEvidence) (pv : PrimaryViolation)
      → evaluate_applied bitcoin tx prevouts applicability ≡ some e
      → e.primary_violation ≡ some pv
      → ReportsIn pv.rule pv.evidence e.rules
  primary_violation-ReportsIn tx e pv h primary =
      let p =
        eq_of_some (sym (evaluate_applied-spec_evidence bitcoin applicability prevouts tx) ∙ h) in
      subst (λ x. x.primary_violation ≡ some pv → ReportsIn pv.rule pv.evidence x.rules) p
        (spec-ReportsIn tx pv (output_size_violations tx) refl) primary
