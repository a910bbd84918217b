-- ===== src/Bip110/Rules/Modes.antt =====
-- Mempool policy and consensus compared.
use mempool_atlas.Prelude.{
  ℕ, ◌+◌, ◌≡◌, refl, ap, ap₂, fun_ext, true, false, inl, inr, Option, none, some, List, [], ◌∷◌,
  map, map_option, Option-cases,
}
use mempool_atlas.Bitcoin.{Bitcoin, TxIn, Transaction}
use mempool_atlas.Bip110.Context.{EvaluationContext, rdts_active, is_grandfathered}
use mempool_atlas.Bip110.Prevout
use mempool_atlas.Bip110.Prevout.{PrevoutFacts, PrevoutSet}
use mempool_atlas.Bip110.Verdict.{EvaluationMode, RuleId, TxEvidence, PrimaryViolation, pass}
use mempool_atlas.Bip110.Rules.{
  Applicability, consensus, mempool_policy, is_exempt, mode_of, outcome, input_scoped,
  output_primary, output_size_violations, rule1, verdict_of, evaluate_mempool_policy,
  evaluate_consensus,
}
use mempool_atlas.Bip110.Rules.Spec.{
  contribution, contribution_at, exempt, or_else, all_evidence, all_missing, first_rejection,
  spec_evidence, spec_inputs,
}
use mempool_atlas.Bip110.Rules.Refines.{evaluate_applied-spec_evidence}

-- Every known prevout has a known height, at or above the activation height.
abbrev pub AllFresh : EvaluationContext → PrevoutSet → Type 0
AllFresh ctx prevouts =
    (i : ℕ) (facts : PrevoutFacts)
    → Prevout.get prevouts i ≡ some facts
    → (h : ℕ) × (facts.creation_height ≡ some h) × (is_grandfathered ctx h ≡ some false)

-- The prevouts of the inputs from `i` on are known, and were created below the activation height.
abbrev pub AllGrandfathered : EvaluationContext → PrevoutSet → ℕ → List TxIn → Type 0
AllGrandfathered ctx prevouts i [] = Unit
AllGrandfathered ctx prevouts i (txin ∷ txins) =
    ((facts : PrevoutFacts) × (h : ℕ) × (Prevout.get prevouts i ≡ some facts)
      × (facts.creation_height ≡ some h)
      × (is_grandfathered ctx h ≡ some true))
    × AllGrandfathered ctx prevouts (i + 1) txins

abbrev pub as_consensus : TxEvidence → TxEvidence
as_consensus e = record e { evaluation_mode = EvaluationMode.consensus }

or_else-none : (v : Option PrimaryViolation) → or_else v none ≡ v
or_else-none none = refl
or_else-none (some v) = refl

module _ (bitcoin : Bitcoin) where
  -- Two ways to evaluate whose contributions agree give the same evidence.
  module _ (a b : Applicability) (p q : PrevoutSet)
      (same : (i : ℕ) (txin : TxIn)
        → contribution bitcoin a p i txin ≡ contribution bitcoin b q i txin) where
    all_evidence-eq :
        (rule : RuleId) (i : ℕ) (txins : List TxIn)
        → all_evidence bitcoin a p rule i txins ≡ all_evidence bitcoin b q rule i txins
    all_evidence-eq rule i [] = refl
    all_evidence-eq rule i (txin ∷ txins) = cc (same i txin, all_evidence-eq rule (i + 1) txins)

    all_missing-eq :
        (rule : RuleId) (i : ℕ) (txins : List TxIn)
        → all_missing bitcoin a p rule i txins ≡ all_missing bitcoin b q rule i txins
    all_missing-eq rule i [] = refl
    all_missing-eq rule i (txin ∷ txins) = cc (same i txin, all_missing-eq rule (i + 1) txins)

    first_rejection-eq :
        (i : ℕ) (txins : List TxIn)
        → first_rejection bitcoin a p i txins ≡ first_rejection bitcoin b q i txins
    first_rejection-eq i [] = refl
    first_rejection-eq i (txin ∷ txins) = cc (same i txin, first_rejection-eq (i + 1) txins)

  known_fresh :
      (ctx : EvaluationContext) (prevouts : PrevoutSet) (i : ℕ) (txin : TxIn) (facts : PrevoutFacts)
      (h : ℕ)
      → facts.creation_height ≡ some h
      → is_grandfathered ctx h ≡ some false
      → contribution_at bitcoin (consensus ctx) prevouts i txin (some facts)
        ≡ contribution_at bitcoin mempool_policy prevouts i txin (some facts)
  unfolding is_exempt
  known_fresh ctx prevouts i txin facts h eh g = rw eh (rw (g, is_exempt) refl)

  known_grandfathered :
      (ctx : EvaluationContext) (prevouts : PrevoutSet) (i : ℕ) (txin : TxIn) (facts : PrevoutFacts)
      (h : ℕ)
      → facts.creation_height ≡ some h
      → is_grandfathered ctx h ≡ some true
      → contribution_at bitcoin (consensus ctx) prevouts i txin (some facts) ≡ exempt
  unfolding is_exempt
  known_grandfathered ctx prevouts i txin facts h eh g = rw eh (rw (g, is_exempt) refl)

  fresh-contribution :
      (ctx : EvaluationContext) (prevouts : PrevoutSet) (fresh : AllFresh ctx prevouts) (i : ℕ)
      (txin : TxIn)
      → contribution bitcoin (consensus ctx) prevouts i txin
        ≡ contribution bitcoin mempool_policy prevouts i txin
  fresh-contribution ctx prevouts fresh i txin = elim (Option-cases (Prevout.get prevouts i)) [
    | inl e ↦ rw e refl
    | inr f ↦
        let (h, eh, g) = fresh i f.0 f.1 in rw f.1 (known_fresh ctx prevouts i txin f.0 h eh g)
  ]

  policy-spec :
      (tx : Transaction) (prevouts : PrevoutSet)
      → evaluate_mempool_policy bitcoin tx prevouts
        ≡ some (spec_evidence bitcoin mempool_policy prevouts tx)
  unfolding evaluate_mempool_policy
  policy-spec tx prevouts = evaluate_applied-spec_evidence bitcoin mempool_policy prevouts tx

  pub active-spec :
      (tx : Transaction) (ctx : EvaluationContext) (prevouts : PrevoutSet)
      → rdts_active ctx ≡ true
      → evaluate_consensus bitcoin tx ctx prevouts
        ≡ some (spec_evidence bitcoin (consensus ctx) prevouts tx)
  unfolding evaluate_consensus
  active-spec tx ctx prevouts active =
      rw active (evaluate_applied-spec_evidence bitcoin (consensus ctx) prevouts tx)

  -- Inside the activation window, and with every known prevout created at a known height that is
  -- not below the activation height, consensus and mempool policy give the same evidence: they
  -- differ in the mode that is named in it and in nothing else.
  pub evaluate_consensus-eq-policy :
      (tx : Transaction) (ctx : EvaluationContext) (prevouts : PrevoutSet)
      → rdts_active ctx ≡ true
      → AllFresh ctx prevouts
      → evaluate_consensus bitcoin tx ctx prevouts
        ≡ map_option as_consensus (evaluate_mempool_policy bitcoin tx prevouts)
  unfolding mode_of
  evaluate_consensus-eq-policy tx ctx prevouts active fresh =
      let same = fresh-contribution ctx prevouts fresh in
      let txins = spec_inputs bitcoin tx in
      rw (active-spec tx ctx prevouts active, policy-spec tx prevouts)
        (cc (
          first_rejection-eq (consensus ctx) mempool_policy prevouts prevouts same 0 txins,
          ap (λ g. map g input_scoped)
              (fun_ext (λ rule.
                ap₂ (λ vs ms. outcome rule (verdict_of vs ms))
                  (all_evidence-eq (consensus ctx) mempool_policy prevouts prevouts same rule 0
                    txins)
                  (all_missing-eq (consensus ctx) mempool_policy prevouts prevouts same rule 0
                    txins))),
        ))

  grandfathered-contribution :
      (ctx : EvaluationContext) (prevouts : PrevoutSet) (i : ℕ) (txin : TxIn) (txins : List TxIn)
      → AllGrandfathered ctx prevouts i (txin ∷ txins)
      → contribution bitcoin (consensus ctx) prevouts i txin ≡ exempt
  grandfathered-contribution ctx prevouts i txin txins ((facts, h, e, eh, g), rest) =
      rw e (known_grandfathered ctx prevouts i txin facts h eh g)

  module _ (ctx : EvaluationContext) (prevouts : PrevoutSet) where
    no_evidence :
        (rule : RuleId) (i : ℕ) (txins : List TxIn)
        → AllGrandfathered ctx prevouts i txins
        → all_evidence bitcoin (consensus ctx) prevouts rule i txins ≡ []
    no_evidence rule i [] old = refl
    no_evidence rule i (txin ∷ txins) old =
        rw (grandfathered-contribution ctx prevouts i txin txins old)
          (no_evidence rule (i + 1) txins old.1)

    no_missing :
        (rule : RuleId) (i : ℕ) (txins : List TxIn)
        → AllGrandfathered ctx prevouts i txins
        → all_missing bitcoin (consensus ctx) prevouts rule i txins ≡ []
    no_missing rule i [] old = refl
    no_missing rule i (txin ∷ txins) old =
        rw (grandfathered-contribution ctx prevouts i txin txins old)
          (no_missing rule (i + 1) txins old.1)

    no_rejection :
        (i : ℕ) (txins : List TxIn)
        → AllGrandfathered ctx prevouts i txins
        → first_rejection bitcoin (consensus ctx) prevouts i txins ≡ none
    no_rejection i [] old = refl
    no_rejection i (txin ∷ txins) old =
        rw (grandfathered-contribution ctx prevouts i txin txins old)
          (no_rejection (i + 1) txins old.1)

    -- Inside the activation window, a transaction that is no coinbase and spends only outputs
    -- created below the activation height is exempt from rules 2 to 7: these pass, and only an
    -- output that is too large can reject it.
    pub evaluate_consensus-grandfathered :
        (tx : Transaction)
        → rdts_active ctx ≡ true
        → bitcoin.is_coinbase tx ≡ false
        → AllGrandfathered ctx prevouts 0 tx.input
        → evaluate_consensus bitcoin tx ctx prevouts
          ≡ some (record {
            evaluation_mode = EvaluationMode.consensus;
            rules_applied = true;
            is_coinbase = false;
            primary_violation = output_primary (output_size_violations tx);
            rules =
                outcome RuleId.output_size (rule1 (output_size_violations tx))
                ∷ map (λ rule. outcome rule pass) input_scoped;
          })
    unfolding mode_of verdict_of
    evaluate_consensus-grandfathered tx active spends old =
        rw (active-spec tx ctx prevouts active) (
          rw spends (
            cc (
              no_rejection 0 tx.input old,
              or_else-none (output_primary (output_size_violations tx)),
              ap (λ g. map g input_scoped)
                  (fun_ext (λ rule.
                    ap₂ (λ vs ms. outcome rule (verdict_of vs ms)) (no_evidence rule 0 tx.input old)
                      (no_missing rule 0 tx.input old))),
            )))
