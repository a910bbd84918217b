-- ===== src/Bip110/Rules/Reports.antt =====
-- What the outcomes of an evaluation report: a violation as evidence for a rule.
use mempool_atlas.Prelude.{◌≡◌, sym, subst, ◌⊎◌, inl, inr, ◌↔◌, List, [], ◌∷◌, map, Contains}
use mempool_atlas.Bip110.Verdict.{
  RuleId, RuleVerdict, RuleOutcome, Violation, Missing, pass, violate, unknown,
}
use mempool_atlas.Bip110.Rules.{outcome, rule1, verdict_of}

-- A verdict has the violation among its evidence.
abbrev pub Evidences : Violation → RuleVerdict → Type 0
Evidences v pass = ⊥
Evidences v (violate evidence missing) = Contains v evidence
Evidences v (unknown missing) = ⊥

abbrev pub ReportsIn : RuleId → Violation → List RuleOutcome → Type 0
ReportsIn rule v [] = ⊥
ReportsIn rule v (o ∷ os) = ((o.rule ≡ rule) × Evidences v o.verdict) ⊎ ReportsIn rule v os

pub Evidences-verdict_of :
    (v : Violation) (vs : List Violation) (ms : List Missing)
    → Contains v vs ↔ Evidences v (verdict_of vs ms)
unfolding verdict_of
Evidences-verdict_of v [] [] = (λ h. h, λ h. h)
Evidences-verdict_of v [] (m ∷ ms) = (λ h. h, λ h. h)
Evidences-verdict_of v (x ∷ vs) ms = (λ h. h, λ h. h)

-- Outcomes of the same rules: where each keeps the evidence, the report is kept.
pub ReportsIn-map :
    (rule : RuleId) (v : Violation) (vs ws : RuleId → List Violation)
    (ms ns : RuleId → List Missing) (rules : List RuleId)
    → (Contains v (vs rule) → Contains v (ws rule))
    → ReportsIn rule v (map (λ r. outcome r (verdict_of (vs r) (ms r))) rules)
    → ReportsIn rule v (map (λ r. outcome r (verdict_of (ws r) (ns r))) rules)
ReportsIn-map rule v vs ws ms ns [] keep h = h
ReportsIn-map rule v vs ws ms ns (r ∷ rules) keep (inr h) =
    inr (ReportsIn-map rule v vs ws ms ns rules keep h)
ReportsIn-map rule v vs ws ms ns (r ∷ rules) keep (inl (e, h)) = inl (
  e,
  (Evidences-verdict_of v (ws r) (ns r)).0 (
      subst (λ x. Contains v (ws x)) (sym e)
        (keep (subst (λ x. Contains v (vs x)) e ((Evidences-verdict_of v (vs r) (ms r)).1 h)))),
)

-- A rule among the reported ones reports each of its violations.
pub ReportsIn-outcome :
    (rule : RuleId) (v : Violation) (vs : RuleId → List Violation) (ms : RuleId → List Missing)
    (rules : List RuleId)
    → Contains rule rules
    → Contains v (vs rule)
    → ReportsIn rule v (map (λ r. outcome r (verdict_of (vs r) (ms r))) rules)
ReportsIn-outcome rule v vs ms [] here h = absurd here
ReportsIn-outcome rule v vs ms (r ∷ rules) (inr there) h =
    inr (ReportsIn-outcome rule v vs ms rules there h)
ReportsIn-outcome rule v vs ms (r ∷ rules) (inl e) h =
    inl (e, (Evidences-verdict_of v (vs r) (ms r)).0 (subst (λ x. Contains v (vs x)) (sym e) h))

pub rule1-Evidences : (vs : List Violation) (v : Violation) → Contains v vs → Evidences v (rule1 vs)
unfolding rule1
rule1-Evidences [] v h = h
rule1-Evidences (x ∷ vs) v h = h
