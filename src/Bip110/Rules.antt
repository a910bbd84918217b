-- ===== src/Bip110/Rules.antt =====
-- src/bip110/rules/mod.rs: the seven rules over a whole transaction, as mempool policy and as
-- consensus. `none` stands for a panic.
pub mod Outputs
pub mod Spec
pub mod Slots
pub mod Steps
pub mod Refines
pub mod Modes
pub mod Reports
pub mod Known
pub mod Primary
use mempool_atlas.Prelude.{
  ℕ, ◌+◌, Bool, true, false, not, ◌&&◌, Option, none, some, List, [], ◌∷◌, ◌++◌, map, Bytes, length,
  is_empty, is_none, get_or, replicate, ltb, ◌==◌, if◌then◌else◌, ◌>>=◌,
}
use mempool_atlas.Bitcoin.{Bitcoin, TxIn, TxOut, Transaction}
use mempool_atlas.Bip110.Context.{
  EvaluationContext, max_output_data_size, max_output_script_size, op_return, rdts_active,
  is_grandfathered,
}
use mempool_atlas.Bip110.Prevout
use mempool_atlas.Bip110.Prevout.{PrevoutFacts, PrevoutSet}
use mempool_atlas.Bip110.Verdict.{
  EvaluationMode, RuleId, RuleVerdict, RuleOutcome, Violation, PrimaryViolation, Missing,
  TxEvidence, output_script_too_large, pass, violate, unknown, number, rule_eq,
}
use mempool_atlas.Bip110.ScriptRules.{evaluate_input}

-- The six input-scoped rules, in report order.
abbrev pub input_scoped : List RuleId
input_scoped =
    RuleId.element_size ∷ RuleId.undefined_version ∷ RuleId.taproot_annex
    ∷ RuleId.control_block_size ∷ RuleId.op_success ∷ RuleId.tapscript_op_if ∷ []

pub data Applicability : Type 0 where
  consensus : EvaluationContext → Applicability
  mempool_policy : Applicability

unfoldable pub output_size_match : ℕ → Bytes → List Violation
output_size_match vout [] = []
output_size_match vout (first ∷ rest) =
    let is_op_return = first == op_return in
    let len = length (first ∷ rest) in
    let limit = (if is_op_return then max_output_data_size else max_output_script_size) in
    if ltb limit len then output_script_too_large vout len is_op_return limit ∷ [] else []

unfoldable pub output_sizes_from : ℕ → List TxOut → List Violation
output_sizes_from vout [] = []
output_sizes_from vout (txout ∷ txouts) =
    output_size_match vout txout.script_pubkey ++ output_sizes_from (vout + 1) txouts

unfoldable pub output_size_violations : Transaction → List Violation
unfolding output_sizes_from output_size_match
output_size_violations tx = output_sizes_from 0 tx.output

unfoldable pub position_of : RuleId → ℕ → List RuleId → Option ℕ
position_of rule n [] = none
position_of rule n (r ∷ rs) =
    let rest = position_of rule (n + 1) rs in if rule_eq r rule then some n else rest

unfoldable pub rule_slot : RuleId → Option ℕ
unfolding position_of
rule_slot rule = position_of rule 0 input_scoped

-- `slots[slot].push(x)`
unfoldable pub push_at {ℓ} : {A : Type ℓ} → ℕ → A → List (List A) → List (List A)
push_at n x [] = []
push_at ℕ.zero x (s ∷ ss) = (s ++ x ∷ []) ∷ ss
push_at (ℕ.suc n) x (s ∷ ss) = s ∷ push_at n x ss

unfoldable pub push_unknown_all : Missing → List (List Missing) → List (List Missing)
push_unknown_all missing = map (λ slot. slot ++ missing ∷ [])

-- The mutable variables of the loop over the inputs.
pub record Progress : Type 0 where
  pub violations : List (List Violation)
  pub unknowns : List (List Missing)
  pub primary : Option PrimaryViolation
  pub blocked : Bool

unfoldable pub record_evidence :
    List PrimaryViolation → List (List Violation) → Option (List (List Violation))
record_evidence [] violations = some violations
record_evidence (rule_match ∷ matches) violations = do
  slot ← rule_slot rule_match.rule
  record_evidence matches (push_at slot rule_match.evidence violations)

abbrev pub first {ℓ} : {A : Type ℓ} → List A → Option A
first [] = none
first (x ∷ _) = some x

unfoldable pub record_matches : List PrimaryViolation → Progress → Option Progress
unfolding record_evidence
record_matches matches p = do
  violations ← record_evidence matches p.violations
  some (record p {
    violations = violations;
    primary = if is_none p.primary && not p.blocked then first matches else p.primary;
  })

-- `affected_rules[slot] = true`
unfoldable pub mark : ℕ → List Bool → List Bool
mark n [] = []
mark ℕ.zero (b ∷ bs) = true ∷ bs
mark (ℕ.suc n) (b ∷ bs) = b ∷ mark n bs

unfoldable pub affected_rules : List PrimaryViolation → List Bool → Option (List Bool)
unfolding mark
affected_rules [] affected = some affected
affected_rules (rule_match ∷ matches) affected = do
  slot ← rule_slot rule_match.rule
  affected_rules matches (mark slot affected)

unfoldable pub push_affected : Missing → List Bool → List (List Missing) → List (List Missing)
push_affected missing [] slots = slots
push_affected missing (b ∷ bs) [] = []
push_affected missing (b ∷ bs) (s ∷ ss) =
    (if b then s ++ missing ∷ [] else s) ∷ push_affected missing bs ss

-- The branch for a known script with an unknown creation height, under consensus.
unfoldable pub record_unproven : ℕ → List PrimaryViolation → Progress → Option Progress
unfolding affected_rules push_affected
record_unproven i matches p = do
  affected ← affected_rules matches (replicate 6 false)
  some (record p {
    unknowns = push_affected (Missing.creation_height i) affected p.unknowns;
    blocked = if not (is_empty matches) && is_none p.primary then true else p.blocked;
  })

-- No prevout facts at all.
unfoldable pub record_unclassified : ℕ → Progress → Progress
unfolding push_unknown_all
record_unclassified i p = record p {
  unknowns = push_unknown_all (Missing.script_pub_key i) p.unknowns;
  blocked = if is_none p.primary then true else p.blocked;
}

-- `is_some_and(|height| ctx.is_grandfathered(height).unwrap_or(false))`
unfoldable pub is_exempt : Applicability → Option ℕ → Bool
is_exempt mempool_policy creation_height = false
is_exempt (consensus ctx) none = false
is_exempt (consensus ctx) (some height) = elim (is_grandfathered ctx height) [
  | none ↦ false
  | some exempt ↦ exempt
]

unfoldable pub record_input :
    Applicability → ℕ → Option ℕ → List PrimaryViolation → Progress → Option Progress
unfolding record_matches record_unproven
record_input mempool_policy i creation_height matches p = record_matches matches p
record_input (consensus ctx) i (some _) matches p = record_matches matches p
record_input (consensus ctx) i none matches p = record_unproven i matches p

unfoldable pub verdict_of : List Violation → List Missing → RuleVerdict
verdict_of (v ∷ vs) missing = violate (v ∷ vs) missing
verdict_of [] (m ∷ ms) = unknown (m ∷ ms)
verdict_of [] [] = pass

abbrev pub outcome : RuleId → RuleVerdict → RuleOutcome
outcome rule verdict = record { rule = rule; number = number rule; verdict = verdict }

unfoldable pub rule1 : List Violation → RuleVerdict
rule1 [] = pass
rule1 (v ∷ vs) = violate (v ∷ vs) []

abbrev pub output_primary : List Violation → Option PrimaryViolation
output_primary [] = none
output_primary (evidence ∷ _) = some (record { rule = RuleId.output_size; evidence = evidence })

-- The assembly loop over `input_scoped`; a slot is taken once only.
unfoldable pub assemble : Progress → List RuleId → Option (List RuleOutcome)
unfolding verdict_of
assemble p [] = some []
assemble p (rule ∷ rules) = do
  slot ← rule_slot rule
  rest ← assemble p rules
  some (outcome rule (verdict_of (get_or p.violations slot []) (get_or p.unknowns slot [])) ∷ rest)

unfoldable pub mode_of : Applicability → EvaluationMode
mode_of mempool_policy = EvaluationMode.mempool_policy
mode_of (consensus _) = EvaluationMode.consensus

unfoldable pub all_pass : List RuleOutcome
all_pass = map (λ rule. outcome rule pass) (RuleId.output_size ∷ input_scoped)

module _ (bitcoin : Bitcoin) where
  -- One round of the loop over the inputs, at the facts that are known of its prevout.
  unfoldable pub evaluate_with :
      Applicability → ℕ → TxIn → Option PrevoutFacts → Progress → Option Progress
  unfolding record_unclassified is_exempt record_input
  evaluate_with applicability i txin none p = some (record_unclassified i p)
  evaluate_with applicability i txin (some facts) p =
      if is_exempt applicability facts.creation_height then some p else (do
        matches ← evaluate_input bitcoin i txin facts.script_pubkey
        record_input applicability i facts.creation_height matches p)

  unfoldable pub evaluate_at : Applicability → PrevoutSet → ℕ → TxIn → Progress → Option Progress
  unfolding evaluate_with
  evaluate_at applicability prevouts i txin p =
      evaluate_with applicability i txin (Prevout.get prevouts i) p

  unfoldable pub evaluate_inputs :
      Applicability → PrevoutSet → ℕ → List TxIn → Progress → Option Progress
  unfolding evaluate_at
  evaluate_inputs applicability prevouts i [] p = some p
  evaluate_inputs applicability prevouts i (txin ∷ txins) p = do
    p' ← evaluate_at applicability prevouts i txin p
    evaluate_inputs applicability prevouts (i + 1) txins p'

  unfoldable pub evaluate_applied : Transaction → PrevoutSet → Applicability → Option TxEvidence
  unfolding evaluate_inputs output_size_violations rule1 assemble mode_of
  evaluate_applied tx prevouts applicability = do
    let output_violations = output_size_violations tx
    let start : Progress = record {
      violations = replicate 6 [];
      unknowns = replicate 6 [];
      primary = output_primary output_violations;
      blocked = false;
    }
    let txins = (if bitcoin.is_coinbase tx then [] else tx.input)
    p ← evaluate_inputs applicability prevouts 0 txins start
    rules ← assemble p input_scoped
    some (record {
      evaluation_mode = mode_of applicability;
      rules_applied = true;
      is_coinbase = bitcoin.is_coinbase tx;
      primary_violation = p.primary;
      rules = outcome RuleId.output_size (rule1 output_violations) ∷ rules;
    })

  unfoldable pub evaluate_mempool_policy : Transaction → PrevoutSet → Option TxEvidence
  evaluate_mempool_policy tx prevouts = evaluate_applied tx prevouts mempool_policy

  unfoldable pub evaluate_consensus :
      Transaction → EvaluationContext → PrevoutSet → Option TxEvidence
  unfolding all_pass
  evaluate_consensus tx ctx prevouts =
      if not (rdts_active ctx)
      then some (record {
        evaluation_mode = EvaluationMode.consensus;
        rules_applied = false;
        is_coinbase = bitcoin.is_coinbase tx;
        primary_violation = none;
        rules = all_pass;
      })
      else evaluate_applied tx prevouts (consensus ctx)
