-- ===== src/Bip110/ScriptRules/Proven.antt =====
-- What a match of rules 2 to 7 claims, read off its evidence.
use mempool_atlas.Prelude.{ℕ, ◌-◌, ◌/◌, ◌<◌, ◌≡◌, ◌≢◌, ◌⊎◌, true, some, List, ◌++◌, All, All-append}
use mempool_atlas.Bip110.ScriptScan.{is_op_success, op_if, op_notif}
use mempool_atlas.Bip110.Verdict.{
  RuleId, Violation, PrimaryViolation, output_script_too_large, witness_item_too_large,
  push_too_large, undefined_witness_version, undefined_tapleaf_version, taproot_annex_present,
  control_block_too_large, op_success_present,
}

-- The rule is the one that the kind of evidence belongs to, the input is the one that was
-- evaluated, and the numbers of the evidence break the rule.
abbrev pub Proves : ℕ → RuleId → Violation → Type 0
Proves i rule (output_script_too_large _ _ _ _) = ⊥
Proves i rule (witness_item_too_large input _ len limit) =
    (rule ≡ RuleId.element_size) × (input ≡ i) × (limit ≡ 256) × (256 < len)
Proves i rule (push_too_large input _ _ len limit) =
    (rule ≡ RuleId.element_size) × (input ≡ i) × (limit ≡ 256) × (256 < len)
Proves i rule (undefined_witness_version input version _ _) =
    (rule ≡ RuleId.undefined_version) × (input ≡ i) × (version ≢ 0)
Proves i rule (undefined_tapleaf_version input leaf_version) =
    (rule ≡ RuleId.undefined_version) × (input ≡ i) × (leaf_version ≢ 0xc0)
Proves i rule (taproot_annex_present input _) = (rule ≡ RuleId.taproot_annex) × (input ≡ i)
Proves i rule (control_block_too_large input len depth limit) =
    (rule ≡ RuleId.control_block_size)
    × (input ≡ i)
    × (limit ≡ 257)
    × (257 < len)
    × (depth ≡ some ((len - 33) / 32))
Proves i rule (op_success_present input opcode _) =
    (rule ≡ RuleId.op_success) × (input ≡ i) × (is_op_success opcode ≡ true)
Proves i rule (Violation.tapscript_op_if input opcode _) =
    (rule ≡ RuleId.tapscript_op_if) × (input ≡ i) × ((opcode ≡ op_if) ⊎ (opcode ≡ op_notif))

abbrev pub IsProven : ℕ → PrimaryViolation → Type 0
IsProven i m = Proves i m.rule m.evidence

abbrev pub AllProven : ℕ → List PrimaryViolation → Type 0
AllProven i ms = All (IsProven i) ms

pub AllProven-append :
    (i : ℕ) (xs ys : List PrimaryViolation)
    → AllProven i xs
    → AllProven i ys
    → AllProven i (xs ++ ys)
AllProven-append i xs ys hx hy = All-append (IsProven i) xs ys hx hy
