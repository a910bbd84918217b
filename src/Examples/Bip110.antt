-- ===== src/Examples/Bip110.antt =====
-- The theorems about the BIP-110 rules at concrete inputs, and runs of the rules.
use mempool_atlas.Prelude.{
  ◌≤◌, ℕ, zero, suc, ap, sym, eq_of_some, ◌+◌, ◌<◌, ◌^◌, ◌≡◌, refl, ◌↔◌, inl, inr, true, false,
  none, some, [], ◌∷◌, ◌++◌, map, map_option, Bytes, length, replicate, get_elem?, All, Contains,
  arith,
}
use mempool_atlas.Bitcoin.{TxOut, Transaction}
use mempool_atlas.Bip110.Context.{rdts_active, is_grandfathered}
use mempool_atlas.Bip110.Prevout
use mempool_atlas.Bip110.Prevout.{PrevoutFacts, PrevoutSet}
use mempool_atlas.Bip110.Verdict.{
  RuleId, EvaluationMode, Violation, PrimaryViolation, TxEvidence, output_script_too_large, pass,
}
use mempool_atlas.Bip110.ScriptScan.{
  op_successes, op_successes_items, is_op_success, pushes_over, pushes_over_items,
  first_tapscript_op_if, first_op_if_items,
}
use mempool_atlas.Bip110.Witness.{
  spend_of_stack, leaf_version, WitnessProgram, parse_witness_program, decompose_taproot,
}
use mempool_atlas.Bip110.Witness.Program.{
  IsWitnessProgram, encode_witness_program, parse_witness_program_iff,
}
use mempool_atlas.Bip110.Witness.Taproot.{Decomposed, decompose_taproot-Decomposed}
use mempool_atlas.Bip110.ScriptRules.{
  evaluate_witness_spend, evaluate_taproot, evaluate_taproot_script_path, annex_matches,
  control_block_matches, tapscript_path_matches, push_violations, op_if_entries, sort_by_key,
  witness_item_violations, evaluate_input, expected_header, is_canonical_single_push,
  tapscript_matches,
}
use mempool_atlas.Bip110.ScriptRules.Sound.{ReturnsProven, evaluate_input-ReturnsProven}
use mempool_atlas.Bip110.ScriptRules.Canonical.{
  AreBytes, announced, push_header, is_canonical_single_push_iff, expected_header-announced,
}
use mempool_atlas.Bip110.Rules.{
  verdict_of, is_exempt, mempool_policy, evaluate_applied, evaluate_mempool_policy,
  evaluate_consensus, output_size_violations, output_primary, outcome, rule1, input_scoped,
}
use mempool_atlas.Bip110.Rules.Spec.{spec_evidence, first_rejection}
use mempool_atlas.Bip110.Rules.Refines.{evaluate_applied-spec_evidence}
use mempool_atlas.Bip110.Rules.Modes.{
  AllFresh, AllGrandfathered, as_consensus, evaluate_consensus-eq-policy,
  evaluate_consensus-grandfathered,
}
use mempool_atlas.Bip110.Rules.Reports.{ReportsIn}
use mempool_atlas.Bip110.Rules.Known.{
  AllKnown, Learns, IsDecided, evaluate_mempool_policy-IsDecided, evaluate_mempool_policy-ReportsIn,
}
use mempool_atlas.Bip110.Rules.Primary.{primary_violation-ReportsIn}
use mempool_atlas.Bip110.Rules.Outputs.{TooLarge, output_size_violations_iff}
use mempool_atlas.Examples.{
  sample, taproot_script, tapscript_input, sample_tx, prevouts_at, active_context,
}

abbrev op_if_found : PrimaryViolation
op_if_found = record {
  rule = RuleId.tapscript_op_if;
  evidence = Violation.tapscript_op_if 0 0x63 1;
}

run_input : evaluate_input sample 0 tapscript_input taproot_script ≡ some (op_if_found ∷ [])
unfolding evaluate_input parse_witness_program evaluate_witness_spend evaluate_taproot
    decompose_taproot spend_of_stack evaluate_taproot_script_path annex_matches
    control_block_matches leaf_version tapscript_path_matches op_successes op_successes_items
    is_op_success tapscript_matches push_violations pushes_over pushes_over_items
    first_tapscript_op_if first_op_if_items op_if_entries sort_by_key witness_item_violations
run_input = refl

found_first :
    first_rejection sample mempool_policy (prevouts_at 90) 0 (sample_tx.input) ≡ some op_if_found
unfolding is_exempt Prevout.get
found_first = rw run_input refl

evaluate_applied-spec_evidence_example :
    evaluate_applied sample sample_tx (prevouts_at 90) mempool_policy
    ≡ some (spec_evidence sample mempool_policy (prevouts_at 90) sample_tx)
evaluate_applied-spec_evidence_example =
    evaluate_applied-spec_evidence sample mempool_policy (prevouts_at 90) sample_tx

evaluate_input-ReturnsProven_example :
    ReturnsProven 0 (evaluate_input sample 0 tapscript_input taproot_script)
evaluate_input-ReturnsProven_example =
    evaluate_input-ReturnsProven sample 0 tapscript_input taproot_script

active : rdts_active active_context ≡ true
unfolding rdts_active
active = refl

-- A prevout that was created at height 120, inside the activation window.
fresh : AllFresh active_context (prevouts_at 120)
unfolding is_grandfathered Prevout.get
fresh zero facts e = (120, ap (λ f. f.creation_height) (eq_of_some (sym e)), refl)
fresh (suc i) facts e = cc

evaluate_consensus-eq-policy_example :
    evaluate_consensus sample sample_tx active_context (prevouts_at 120)
    ≡ map_option as_consensus (evaluate_mempool_policy sample sample_tx (prevouts_at 120))
evaluate_consensus-eq-policy_example =
    evaluate_consensus-eq-policy sample sample_tx active_context (prevouts_at 120) active fresh

-- A prevout that was created at height 90, before the activation.
old : AllGrandfathered active_context (prevouts_at 90) 0 sample_tx.input
unfolding is_grandfathered Prevout.get
old = (
  (record { script_pubkey = taproot_script; creation_height = some 90 }, 90, refl, refl, refl),
  tt,
)

evaluate_consensus-grandfathered_example :
    evaluate_consensus sample sample_tx active_context (prevouts_at 90)
    ≡ some (record {
      evaluation_mode = EvaluationMode.consensus;
      rules_applied = true;
      is_coinbase = false;
      primary_violation = output_primary (output_size_violations sample_tx);
      rules =
          outcome RuleId.output_size (rule1 (output_size_violations sample_tx))
          ∷ map (λ rule. outcome rule pass) input_scoped;
    })
evaluate_consensus-grandfathered_example =
    evaluate_consensus-grandfathered sample active_context (prevouts_at 90) sample_tx active refl
      old

known : AllKnown (prevouts_at 90) 0 sample_tx.input
unfolding Prevout.get
known = ((record { script_pubkey = taproot_script; creation_height = some 90 }, refl), tt)

evaluate_mempool_policy-IsDecided_example :
    (e : TxEvidence) × (evaluate_mempool_policy sample sample_tx (prevouts_at 90) ≡ some e)
    × All (λ o. IsDecided o.verdict) e.rules
evaluate_mempool_policy-IsDecided_example =
    evaluate_mempool_policy-IsDecided sample sample_tx (prevouts_at 90) known

-- A transaction with the input twice; the prevout of the second is known later.
abbrev twice_tx : Transaction
twice_tx = record sample_tx { input = tapscript_input ∷ tapscript_input ∷ [] }

abbrev later : PrevoutSet
later = record {
  facts =
      some (record { script_pubkey = taproot_script; creation_height = some 90 })
      ∷ some (record { script_pubkey = taproot_script; creation_height = none })
      ∷ [];
}

later-Learns : Learns (prevouts_at 90) later
unfolding Prevout.get
later-Learns zero facts e = e
later-Learns (suc i) facts e = cc

abbrev evidence : PrevoutSet → TxEvidence
evidence prevouts = spec_evidence sample mempool_policy prevouts twice_tx

evidence-policy :
    (prevouts : PrevoutSet)
    → evaluate_mempool_policy sample twice_tx prevouts ≡ some (evidence prevouts)
unfolding evaluate_mempool_policy
evidence-policy prevouts = evaluate_applied-spec_evidence sample mempool_policy prevouts twice_tx

op_if_reported :
    ReportsIn RuleId.tapscript_op_if op_if_found.evidence (evidence (prevouts_at 90)).rules
unfolding is_exempt Prevout.get verdict_of
op_if_reported = rw run_input (inr (inr (inr (inr (inr (inr (inl (refl, inl refl))))))))

evaluate_mempool_policy-ReportsIn_example :
    ReportsIn RuleId.tapscript_op_if op_if_found.evidence (evidence later).rules
evaluate_mempool_policy-ReportsIn_example =
    evaluate_mempool_policy-ReportsIn sample (prevouts_at 90) later later-Learns
      RuleId.tapscript_op_if op_if_found.evidence twice_tx (evidence (prevouts_at 90))
      (evidence later) (evidence-policy (prevouts_at 90)) (evidence-policy later) op_if_reported

primary-found :
    (spec_evidence sample mempool_policy (prevouts_at 90) sample_tx).primary_violation
    ≡ some op_if_found
unfolding is_exempt Prevout.get output_size_violations
primary-found = rw run_input refl

primary_violation-ReportsIn_example :
    ReportsIn RuleId.tapscript_op_if op_if_found.evidence
      (spec_evidence sample mempool_policy (prevouts_at 90) sample_tx).rules
primary_violation-ReportsIn_example =
    primary_violation-ReportsIn sample mempool_policy (prevouts_at 90) sample_tx
      (spec_evidence sample mempool_policy (prevouts_at 90) sample_tx) op_if_found
      (evaluate_applied-spec_evidence sample mempool_policy (prevouts_at 90) sample_tx)
      primary-found

-- One output of 35 bytes.
abbrev large_tx : Transaction
large_tx = record sample_tx {
  output = record { value = 900; script_pubkey = 0x51 ∷ replicate 34 7 } ∷ [];
}

output_size_violations_iff_example :
    Contains (output_script_too_large 0 35 false 34) (output_size_violations large_tx) ↔ (
      (j : ℕ) × (out : TxOut) × (get_elem? large_tx.output j ≡ some out)
      × TooLarge (0 + j) out.script_pubkey (output_script_too_large 0 35 false 34))
output_size_violations_iff_example =
    output_size_violations_iff large_tx (output_script_too_large 0 35 false 34)

abbrev long_redeem : Bytes
long_redeem = replicate 80 7

is_canonical_single_push_iff_example :
    (is_canonical_single_push (0x4c ∷ 80 ∷ long_redeem) long_redeem ≡ true) ↔ (
      (length long_redeem < 2 ^ 32)
      × (0x4c ∷ 80 ∷ long_redeem ≡ push_header (length long_redeem) ++ long_redeem))
is_canonical_single_push_iff_example =
    is_canonical_single_push_iff (0x4c ∷ 80 ∷ long_redeem) long_redeem

-- A header for 300 bytes that is longer than need be.
abbrev long_header : Bytes
long_header = 0x4e ∷ 44 ∷ 1 ∷ 0 ∷ 0 ∷ []

expected_header-announced_example :
    (announced (expected_header 300) ≡ some 300)
    × AreBytes (expected_header 300)
    × (length (expected_header 300) ≤ length long_header)
expected_header-announced_example =
    expected_header-announced 300 long_header (omega arith)
      (omega arith, (omega arith, (omega arith, (omega arith, (omega arith, tt))))) refl

abbrev taproot_program : WitnessProgram
taproot_program = record { version = 1; program = replicate 32 7 }

parse_witness_program_iff_example :
    (parse_witness_program taproot_script ≡ some taproot_program)
    ↔ ((taproot_script ≡ encode_witness_program taproot_program) × IsWitnessProgram taproot_program)
parse_witness_program_iff_example = parse_witness_program_iff taproot_script taproot_program

decompose_taproot-Decomposed_example :
    Decomposed
      ((0 ∷ 0x63 ∷ []) ∷ replicate 33 2 ∷ (0x50 ∷ 9 ∷ []) ∷ [])
      (decompose_taproot ((0 ∷ 0x63 ∷ []) ∷ replicate 33 2 ∷ (0x50 ∷ 9 ∷ []) ∷ []))
decompose_taproot-Decomposed_example =
    decompose_taproot-Decomposed ((0 ∷ 0x63 ∷ []) ∷ replicate 33 2 ∷ (0x50 ∷ 9 ∷ []) ∷ [])
