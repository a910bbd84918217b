-- ===== src/Bip110/Rules/Refines.antt =====
-- The evaluation of a transaction is what its specification says.
use mempool_atlas.Prelude.{
  ℕ, ◌+◌, ◌≡◌, refl, sym, ◌∙◌, fun_ext, Bool, true, false, Option, none, some, List, [], ◌∷◌, ◌++◌,
  append_assoc, append-nil, inl, inr, Bool-cases, arith, if◌then◌else◌,
}
use mempool_atlas.Bitcoin.{Bitcoin, TxIn, Transaction}
use mempool_atlas.Bip110.Prevout
use mempool_atlas.Bip110.Prevout.{PrevoutFacts, PrevoutSet}
use mempool_atlas.Bip110.Verdict.{RuleId, Violation, PrimaryViolation, Missing}
use mempool_atlas.Bip110.Rules.{
  Applicability, consensus, mempool_policy, is_exempt, Progress, evaluate_inputs, evaluate_applied,
  rule_slot, first, output_primary, output_size_violations,
}
use mempool_atlas.Bip110.Rules.Spec.{
  Contribution, known, contribution_at, evidence_of, contribution, all_evidence, all_missing,
  first_rejection, or_else, spec_inputs, spec_evidence,
}
use mempool_atlas.Bip110.Rules.Steps.{state, next_primary, next_blocked, evaluate_at-add}

-- What the loop makes of the first rejection: settled, blocked, or still open.
abbrev settle : Option PrimaryViolation → Bool → Option PrimaryViolation → Option PrimaryViolation
settle primary blocked rest = or_else primary (if blocked then none else rest)

abbrev Disjoint : Contribution → Type 0
Disjoint c = c.blocks ≡ true → first c.found ≡ none

settle_next :
    (c : Contribution) (primary : Option PrimaryViolation) (blocked : Bool)
    (rest : Option PrimaryViolation)
    → Disjoint c
    → settle (next_primary c primary blocked) (next_blocked c primary blocked) rest
      ≡ settle primary blocked (if c.blocks then none else or_else (first c.found) rest)
settle_next c primary blocked rest h = elim (Bool-cases c.blocks) [
  | inl e ↦ let p = h e in ground arith
  | inr e ↦ ground arith
]

-- The loop ends, in the state that the contributions add up to.
data Ends (f : RuleId → List Violation) (g : RuleId → List Missing)
    (primary : Option PrimaryViolation) (r : Option Progress) : Type 0 where
  ends : (blocked : Bool) → r ≡ some (state f g primary blocked) → Ends f g primary r

Ends-cast :
    (f f' : RuleId → List Violation) (g g' : RuleId → List Missing)
    (primary primary' : Option PrimaryViolation) (r : Option Progress)
    → ((rule : RuleId) → f rule ≡ f' rule)
    → ((rule : RuleId) → g rule ≡ g' rule)
    → primary ≡ primary'
    → Ends f g primary r
    → Ends f' g' primary' r
Ends-cast f f' g g' primary primary' r pf pg pp (ends blocked e) =
    ends blocked (e ∙ (λ i. some (state (fun_ext pf i) (fun_ext pg i) (pp i) blocked)))

settle_end :
    (primary : Option PrimaryViolation) (blocked : Bool) → primary ≡ settle primary blocked none
settle_end none true = refl
settle_end none false = refl
settle_end (some v) blocked = refl

module _ (bitcoin : Bitcoin) (applicability : Applicability) (prevouts : PrevoutSet) where
  known-Disjoint :
      (applicability : Applicability) (i : ℕ) (height : Option ℕ) (ms : List PrimaryViolation)
      → Disjoint (known applicability i height ms)
  known-Disjoint mempool_policy i height ms = λ e. cc
  known-Disjoint (consensus ctx) i (some height) ms = λ e. cc
  known-Disjoint (consensus ctx) i none ms = λ e. refl

  contribution_at-Disjoint :
      (i : ℕ) (txin : TxIn) (facts : Option PrevoutFacts)
      → Disjoint (contribution_at bitcoin applicability prevouts i txin facts)
  contribution_at-Disjoint i txin none = λ e. refl
  contribution_at-Disjoint i txin (some facts) =
      elim (Bool-cases (is_exempt applicability facts.creation_height)) [
        | inl e ↦ rw e (λ q. refl)
        | inr e ↦ rw e (known-Disjoint applicability i facts.creation_height _)
      ]

  evaluate_inputs-Ends :
      (i : ℕ) (txins : List TxIn) (f : RuleId → List Violation) (g : RuleId → List Missing)
      (primary : Option PrimaryViolation) (blocked : Bool)
      → Ends
          (λ r. f r ++ all_evidence bitcoin applicability prevouts r i txins)
          (λ r. g r ++ all_missing bitcoin applicability prevouts r i txins)
          (settle primary blocked (first_rejection bitcoin applicability prevouts i txins))
          (evaluate_inputs bitcoin applicability prevouts i txins (state f g primary blocked))
  unfolding evaluate_inputs
  evaluate_inputs-Ends i [] f g primary blocked =
      Ends-cast _ _ _ _ _ _ _ (λ r. sym (append-nil (f r))) (λ r. sym (append-nil (g r)))
        (settle_end primary blocked) (ends blocked refl)
  evaluate_inputs-Ends i (txin ∷ txins) f g primary blocked =
      let c = contribution bitcoin applicability prevouts i txin in
      rw (evaluate_at-add f g primary blocked bitcoin applicability prevouts i txin) (
        Ends-cast _ _ _ _ _ _ _ (λ r. append_assoc (f r) (evidence_of r c.found) _)
          (λ r. append_assoc (g r) (c.missing r) _)
          (settle_next c primary blocked _
            (contribution_at-Disjoint i txin (Prevout.get prevouts i)))
          (evaluate_inputs-Ends (i + 1) txins (λ r. f r ++ evidence_of r c.found)
            (λ r. g r ++ c.missing r) (next_primary c primary blocked)
            (next_blocked c primary blocked)))

  applied-Ends :
      (tx : Transaction)
      → Ends
          (λ r. all_evidence bitcoin applicability prevouts r 0 (spec_inputs bitcoin tx))
          (λ r. all_missing bitcoin applicability prevouts r 0 (spec_inputs bitcoin tx))
          (or_else
            (output_primary (output_size_violations tx))
            (first_rejection bitcoin applicability prevouts 0 (spec_inputs bitcoin tx)))
          (evaluate_inputs bitcoin applicability prevouts 0
            (spec_inputs bitcoin tx)
            (state (λ _. []) (λ _. []) (output_primary (output_size_violations tx)) false))
      → evaluate_applied bitcoin tx prevouts applicability
        ≡ some (spec_evidence bitcoin applicability prevouts tx)
  unfolding evaluate_applied rule_slot
  applied-Ends tx (ends blocked e) = rw e refl

  -- The evaluation never panics and returns what the specification says. Each input-scoped rule is
  -- reported, in order, with the evidence of the matches of all inputs for it and with the facts
  -- that were missing, and is passed, violated or unknown accordingly. Rule 1 is reported from the
  -- outputs alone. The primary violation is the first output that is too large, or else the first
  -- match of the first input with a match, unless an input before it could not be decided.
  pub evaluate_applied-spec_evidence :
      (tx : Transaction)
      → evaluate_applied bitcoin tx prevouts applicability
        ≡ some (spec_evidence bitcoin applicability prevouts tx)
  evaluate_applied-spec_evidence tx =
      applied-Ends tx (evaluate_inputs-Ends 0 _ (λ _. []) (λ _. []) _ false)
