-- ===== src/Bip110/Rules/Spec.antt =====
-- What the evaluation of a transaction is: the contribution of each input, the evidence and the
-- missing facts of a rule over all inputs, and the first rejection.
use mempool_atlas.Prelude.{
  ℕ, ◌+◌, Bool, true, false, not, Option, none, some, List, [], ◌∷◌, ◌++◌, map, is_empty, any,
  retain, if◌then◌else◌,
}
use mempool_atlas.Bitcoin.{Bitcoin, TxIn, Transaction}
use mempool_atlas.Bip110.Prevout
use mempool_atlas.Bip110.Prevout.{PrevoutFacts, PrevoutSet}
use mempool_atlas.Bip110.Verdict.{
  RuleId, RuleOutcome, Violation, PrimaryViolation, Missing, TxEvidence, rule_eq,
}
use mempool_atlas.Bip110.ScriptRules.{evaluate_input}
use mempool_atlas.Bip110.Rules.{
  Applicability, consensus, mempool_policy, input_scoped, is_exempt, first, mode_of, outcome,
  output_primary, output_size_violations, rule1, verdict_of,
}

abbrev pub evidence_of : RuleId → List PrimaryViolation → List Violation
evidence_of rule ms = map (λ m. m.evidence) (retain (λ m. rule_eq m.rule rule) ms)

abbrev pub breaks : RuleId → List PrimaryViolation → Bool
breaks rule ms = any (λ m. rule_eq m.rule rule) ms

-- What one input adds: recorded matches, missing facts for each rule, and whether a later
-- rejection can no longer be the first.
pub record Contribution : Type 0 where
  pub found : List PrimaryViolation
  pub missing : RuleId → List Missing
  pub blocks : Bool

abbrev pub unclassified : ℕ → Contribution
unclassified i = record { found = []; missing = λ _. Missing.script_pub_key i ∷ []; blocks = true }

abbrev pub exempt : Contribution
exempt = record { found = []; missing = λ _. []; blocks = false }

abbrev pub recorded : List PrimaryViolation → Contribution
recorded ms = record { found = ms; missing = λ _. []; blocks = false }

abbrev pub unproven : ℕ → List PrimaryViolation → Contribution
unproven i ms = record {
  found = [];
  missing = λ rule. if breaks rule ms then Missing.creation_height i ∷ [] else [];
  blocks = not (is_empty ms);
}

abbrev pub known : Applicability → ℕ → Option ℕ → List PrimaryViolation → Contribution
known mempool_policy i height ms = recorded ms
known (consensus ctx) i (some height) ms = recorded ms
known (consensus ctx) i none ms = unproven i ms

abbrev pub or_nil : Option (List PrimaryViolation) → List PrimaryViolation
or_nil none = []
or_nil (some ms) = ms

abbrev pub or_else : Option PrimaryViolation → Option PrimaryViolation → Option PrimaryViolation
or_else none rest = rest
or_else (some v) rest = some v

-- The inputs that count: none of a coinbase.
abbrev pub spec_inputs : Bitcoin → Transaction → List TxIn
spec_inputs bitcoin tx = if bitcoin.is_coinbase tx then [] else tx.input

module _ (bitcoin : Bitcoin) (applicability : Applicability) (prevouts : PrevoutSet) where
  abbrev pub contribution_at : ℕ → TxIn → Option PrevoutFacts → Contribution
  contribution_at i txin none = unclassified i
  contribution_at i txin (some facts) =
      if is_exempt applicability facts.creation_height
      then exempt
      else known applicability i facts.creation_height
          (or_nil (evaluate_input bitcoin i txin facts.script_pubkey))

  abbrev pub contribution : ℕ → TxIn → Contribution
  contribution i txin = contribution_at i txin (Prevout.get prevouts i)

  abbrev pub all_evidence : RuleId → ℕ → List TxIn → List Violation
  all_evidence rule i [] = []
  all_evidence rule i (txin ∷ txins) =
      evidence_of rule (contribution i txin).found ++ all_evidence rule (i + 1) txins

  abbrev pub all_missing : RuleId → ℕ → List TxIn → List Missing
  all_missing rule i [] = []
  all_missing rule i (txin ∷ txins) =
      (contribution i txin).missing rule ++ all_missing rule (i + 1) txins

  -- The first match, unless an input before it could not be decided.
  abbrev pub first_rejection : ℕ → List TxIn → Option PrimaryViolation
  first_rejection i [] = none
  first_rejection i (txin ∷ txins) =
      let rest = first_rejection (i + 1) txins in
      if (contribution i txin).blocks
      then none
      else or_else (first (contribution i txin).found) rest

  abbrev pub spec_outcome : Transaction → RuleId → RuleOutcome
  spec_outcome tx rule = outcome rule (
      verdict_of (all_evidence rule 0 (spec_inputs bitcoin tx))
        (all_missing rule 0 (spec_inputs bitcoin tx)))

  abbrev pub spec_evidence : Transaction → TxEvidence
  spec_evidence tx = record {
    evaluation_mode = mode_of applicability;
    rules_applied = true;
    is_coinbase = bitcoin.is_coinbase tx;
    primary_violation =
        or_else (output_primary (output_size_violations tx))
          (first_rejection 0 (spec_inputs bitcoin tx));
    rules =
        outcome RuleId.output_size (rule1 (output_size_violations tx))
        ∷ map (spec_outcome tx) input_scoped;
  }
