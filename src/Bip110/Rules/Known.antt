-- ===== src/Bip110/Rules/Known.antt =====
-- What known prevouts change about a mempool-policy evaluation.
use mempool_atlas.Prelude.{
  ℕ, ◌+◌, ◌≡◌, refl, sym, subst, ◌∙◌, true, false, inl, inr, some, eq_of_some, List, [], ◌∷◌, map,
  All, Contains, Contains-append, Contains-append_left, Contains-append_right, Option-cases,
  if◌then◌else◌,
}
use mempool_atlas.Bitcoin.{Bitcoin, TxIn, Transaction}
use mempool_atlas.Bip110.Prevout
use mempool_atlas.Bip110.Prevout.{PrevoutFacts, PrevoutSet}
use mempool_atlas.Bip110.Verdict.{
  RuleId, RuleVerdict, Violation, Missing, TxEvidence, pass, violate, unknown,
}
use mempool_atlas.Bip110.Rules.{
  mempool_policy, is_exempt, output_size_violations, rule1, verdict_of, evaluate_mempool_policy,
  input_scoped,
}
use mempool_atlas.Bip110.Rules.Spec.{
  contribution, evidence_of, all_evidence, all_missing, spec_inputs, spec_outcome, spec_evidence,
}
use mempool_atlas.Bip110.Rules.Reports.{ReportsIn, ReportsIn-map}
use mempool_atlas.Bip110.Rules.Refines.{evaluate_applied-spec_evidence}

-- The prevouts of the inputs from `i` on are known.
abbrev pub AllKnown : PrevoutSet → ℕ → List TxIn → Type 0
AllKnown prevouts i [] = Unit
AllKnown prevouts i (txin ∷ txins) =
    ((facts : PrevoutFacts) × (Prevout.get prevouts i ≡ some facts))
    × AllKnown prevouts (i + 1) txins

-- A verdict that no missing fact qualifies.
abbrev pub IsDecided : RuleVerdict → Type 0
IsDecided pass = Unit
IsDecided (violate evidence missing) = missing ≡ []
IsDecided (unknown missing) = ⊥

-- What is known in the first set is known, as the same, in the second.
abbrev pub Learns : PrevoutSet → PrevoutSet → Type 0
Learns p q =
    (i : ℕ) (facts : PrevoutFacts) → Prevout.get p i ≡ some facts → Prevout.get q i ≡ some facts

decided : (vs : List Violation) (ms : List Missing) → ms ≡ [] → IsDecided (verdict_of vs ms)
unfolding verdict_of
decided [] [] e = tt
decided [] (m ∷ ms) e = cc
decided (v ∷ vs) ms e = e

rule1-IsDecided : (vs : List Violation) → IsDecided (rule1 vs)
unfolding rule1
rule1-IsDecided [] = tt
rule1-IsDecided (v ∷ vs) = refl

module _ (bitcoin : Bitcoin) where
  no_missing :
      (prevouts : PrevoutSet) (rule : RuleId) (i : ℕ) (txins : List TxIn)
      → AllKnown prevouts i txins
      → all_missing bitcoin mempool_policy prevouts rule i txins ≡ []
  unfolding is_exempt
  no_missing prevouts rule i [] k = refl
  no_missing prevouts rule i (txin ∷ txins) ((facts, e), k) =
      rw e (no_missing prevouts rule (i + 1) txins k)

  no_missing_inputs :
      (prevouts : PrevoutSet) (rule : RuleId) (tx : Transaction)
      → AllKnown prevouts 0 tx.input
      → all_missing bitcoin mempool_policy prevouts rule 0 (spec_inputs bitcoin tx) ≡ []
  no_missing_inputs prevouts rule tx k =
      elim (bitcoin.is_coinbase tx)
        as (λ b.
          all_missing bitcoin mempool_policy prevouts rule 0 (if b then [] else tx.input) ≡ []) [
            | true ↦ refl
            | false ↦ no_missing prevouts rule 0 tx.input k
          ]

  outcomes-IsDecided :
      (prevouts : PrevoutSet) (tx : Transaction) (rules : List RuleId)
      → AllKnown prevouts 0 tx.input
      → All (λ o. IsDecided o.verdict) (map (spec_outcome bitcoin mempool_policy prevouts tx) rules)
  outcomes-IsDecided prevouts tx [] k = tt
  outcomes-IsDecided prevouts tx (rule ∷ rules) k =
      (decided _ _ (no_missing_inputs prevouts rule tx k), outcomes-IsDecided prevouts tx rules k)

  -- When the prevout of every input is known, mempool-policy evaluation returns and decides every
  -- rule: none is unknown, and a violation comes with no missing fact.
  pub evaluate_mempool_policy-IsDecided :
      (tx : Transaction) (prevouts : PrevoutSet)
      → AllKnown prevouts 0 tx.input
      → (e : TxEvidence) × (evaluate_mempool_policy bitcoin tx prevouts ≡ some e)
        × All (λ o. IsDecided o.verdict) e.rules
  unfolding evaluate_mempool_policy
  evaluate_mempool_policy-IsDecided tx prevouts k = (
    spec_evidence bitcoin mempool_policy prevouts tx,
    evaluate_applied-spec_evidence bitcoin mempool_policy prevouts tx,
    (rule1-IsDecided (output_size_violations tx), outcomes-IsDecided prevouts tx input_scoped k),
  )

  policy-spec :
      (tx : Transaction) (prevouts : PrevoutSet)
      → evaluate_mempool_policy bitcoin tx prevouts
        ≡ some (spec_evidence bitcoin mempool_policy prevouts tx)
  unfolding evaluate_mempool_policy
  policy-spec tx prevouts = evaluate_applied-spec_evidence bitcoin mempool_policy prevouts tx

  module _ (p q : PrevoutSet) (learns : Learns p q) (rule : RuleId) (v : Violation) where
    found_later :
        (i : ℕ) (txin : TxIn)
        → Contains v (evidence_of rule (contribution bitcoin mempool_policy p i txin).found)
        → Contains v (evidence_of rule (contribution bitcoin mempool_policy q i txin).found)
    found_later i txin h = elim (Option-cases (Prevout.get p i)) [
      | inl e ↦ absurd (rw e at h)
      | inr f ↦ rw (learns i f.0 f.1) (rw f.1 at h)
    ]

    evidence_later :
        (i : ℕ) (txins : List TxIn)
        → Contains v (all_evidence bitcoin mempool_policy p rule i txins)
        → Contains v (all_evidence bitcoin mempool_policy q rule i txins)
    evidence_later i [] h = h
    evidence_later i (txin ∷ txins) h =
        elim (Contains-append v
          (evidence_of rule (contribution bitcoin mempool_policy p i txin).found) _ h) [
            | inl l ↦ Contains-append_left v _ _ (found_later i txin l)
            | inr r ↦ Contains-append_right v _ _ (evidence_later (i + 1) txins r)
          ]

    spec-ReportsIn :
        (tx : Transaction)
        → ReportsIn rule v (spec_evidence bitcoin mempool_policy p tx).rules
        → ReportsIn rule v (spec_evidence bitcoin mempool_policy q tx).rules
    spec-ReportsIn tx (inl h) = inl h
    spec-ReportsIn tx (inr h) = inr (
        ReportsIn-map rule v
          (λ r. all_evidence bitcoin mempool_policy p r 0 (spec_inputs bitcoin tx))
          (λ r. all_evidence bitcoin mempool_policy q r 0 (spec_inputs bitcoin tx))
          (λ r. all_missing bitcoin mempool_policy p r 0 (spec_inputs bitcoin tx))
          (λ r. all_missing bitcoin mempool_policy q r 0 (spec_inputs bitcoin tx)) input_scoped
          (evidence_later 0 (spec_inputs bitcoin tx)) h)

    -- Under mempool policy, a violation that is reported for a rule stays reported for it when
    -- more prevouts become known.
    pub evaluate_mempool_policy-ReportsIn :
        (tx : Transaction) (e e' : TxEvidence)
        → evaluate_mempool_policy bitcoin tx p ≡ some e
        → evaluate_mempool_policy bitcoin tx q ≡ some e'
        → ReportsIn rule v e.rules
        → ReportsIn rule v e'.rules
    evaluate_mempool_policy-ReportsIn tx e e' h h' r =
        subst (λ x. ReportsIn rule v x.rules) (eq_of_some (sym (policy-spec tx q) ∙ h'))
          (spec-ReportsIn tx
            (subst (λ x. ReportsIn rule v x.rules) (eq_of_some (sym h ∙ policy-spec tx p)) r))
