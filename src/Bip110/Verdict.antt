-- ===== src/Bip110/Verdict.antt =====
-- src/bip110/verdict.rs: rules, violations, missing facts, and the evidence bundle.
use Prim.Native.String.{String}
use mempool_atlas.Prelude.{ℕ, Bool, true, false, Option, List}

pub data EvaluationMode : Type 0 where
  consensus mempool_policy : EvaluationMode

pub data RuleId : Type 0 where
  output_size element_size undefined_version taproot_annex : RuleId
  control_block_size op_success tapscript_op_if : RuleId

unfoldable pub number : RuleId → ℕ
number RuleId.output_size = 1
number RuleId.element_size = 2
number RuleId.undefined_version = 3
number RuleId.taproot_annex = 4
number RuleId.control_block_size = 5
number RuleId.op_success = 6
number RuleId.tapscript_op_if = 7

-- the derived `==`
abbrev pub rule_eq : RuleId → RuleId → Bool
rule_eq RuleId.output_size RuleId.output_size = true
rule_eq RuleId.element_size RuleId.element_size = true
rule_eq RuleId.undefined_version RuleId.undefined_version = true
rule_eq RuleId.taproot_annex RuleId.taproot_annex = true
rule_eq RuleId.control_block_size RuleId.control_block_size = true
rule_eq RuleId.op_success RuleId.op_success = true
rule_eq RuleId.tapscript_op_if RuleId.tapscript_op_if = true
rule_eq _ _ = false

pub data ScriptKind : Type 0 where
  witness_script tapscript script_sig redeem_script script_pub_key : ScriptKind

pub data Violation : Type 0 where
  output_script_too_large : (vout len : ℕ) (is_op_return : Bool) (limit : ℕ) → Violation
  witness_item_too_large : (input item_index len limit : ℕ) → Violation
  push_too_large : (input : ℕ) (script : ScriptKind) (opcode_pos len limit : ℕ) → Violation
  undefined_witness_version :
      (input version : ℕ) (p2sh_wrapped p2a_non_empty_witness : Bool) → Violation
  undefined_tapleaf_version : (input leaf_version : ℕ) → Violation
  taproot_annex_present : (input annex_len : ℕ) → Violation
  control_block_too_large : (input len : ℕ) (depth : Option ℕ) (limit : ℕ) → Violation
  op_success_present : (input opcode opcode_pos : ℕ) → Violation
  tapscript_op_if : (input opcode opcode_pos : ℕ) → Violation

pub data Missing : Type 0 where
  script_pub_key : (input : ℕ) → Missing
  creation_height : (input : ℕ) → Missing
  unsupported_spend : (input : ℕ) (reason : String) → Missing

pub data RuleVerdict : Type 0 where
  pass : RuleVerdict
  violate : (evidence : List Violation) (missing : List Missing) → RuleVerdict
  unknown : (missing : List Missing) → RuleVerdict

pub record PrimaryViolation : Type 0 where
  pub rule : RuleId
  pub evidence : Violation

pub record RuleOutcome : Type 0 where
  pub rule : RuleId
  pub number : ℕ
  pub verdict : RuleVerdict

pub record TxEvidence : Type 0 where
  pub evaluation_mode : EvaluationMode
  pub rules_applied : Bool
  pub is_coinbase : Bool
  pub primary_violation : Option PrimaryViolation
  pub rules : List RuleOutcome
