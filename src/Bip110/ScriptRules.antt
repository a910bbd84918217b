-- ===== src/Bip110/ScriptRules.antt =====
-- src/bip110/rules/script_rules.rs: rules 2 to 7 over one input. `none` stands for a panic (an
-- `expect` or an `unreachable!`).
pub mod Order
pub mod Proven
pub mod Parts
pub mod Sound
pub mod Canonical
use mempool_atlas.Prelude.{
  ℕ, ◌+◌, ◌-◌, ◌*◌, ◌/◌, ◌%◌, ◌^◌, Bool, true, false, not, ◌&&◌, ◌||◌, Option, none, some, List, [],
  ◌∷◌, ◌++◌, map, Bytes, bytes_eq, length, is_empty, is_some, take, drop, split_last, traverse,
  filter_map, ltb, leb, ◌==◌, within, if◌then◌else◌, ◌>>=◌,
}
use mempool_atlas.Bitcoin.{Bitcoin, TxIn, Instruction, Item, decoded, malformed, push_bytes, op}
use mempool_atlas.Bip110.Context.{
  max_script_element_size_reduced, taproot_control_base_size, taproot_control_node_size,
  taproot_control_max_size_reduced, taproot_leaf_tapscript,
}
use mempool_atlas.Bip110.ScriptScan.{pushes_over, op_successes, first_tapscript_op_if}
use mempool_atlas.Bip110.Verdict.{
  RuleId, ScriptKind, Violation, PrimaryViolation, tapscript, script_sig, redeem_script,
  witness_script, script_pub_key, witness_item_too_large, push_too_large, undefined_witness_version,
  undefined_tapleaf_version, taproot_annex_present, control_block_too_large, op_success_present,
}
use mempool_atlas.Bip110.Witness.{
  TaprootSpend, TaprootScriptPath, parse_witness_program, decompose_taproot, leaf_version,
}

abbrev pub rule_match : RuleId → Violation → PrimaryViolation
rule_match rule evidence = record { rule = rule; evidence = evidence }

unfoldable pub push_match : ℕ → ScriptKind → ℕ → ℕ → PrimaryViolation
push_match input_index script_kind opcode_pos len =
    rule_match RuleId.element_size
      (push_too_large input_index script_kind opcode_pos len max_script_element_size_reduced)

unfoldable pub violation_opcode_pos : Violation → Option ℕ
violation_opcode_pos (push_too_large _ _ opcode_pos _ _) = some opcode_pos
violation_opcode_pos (op_success_present _ _ opcode_pos) = some opcode_pos
violation_opcode_pos (Violation.tapscript_op_if _ _ opcode_pos) = some opcode_pos
violation_opcode_pos _ = none

-- `items.iter().enumerate()` from `item_index` on
unfoldable pub witness_items_from : ℕ → ℕ → List Bytes → List PrimaryViolation
witness_items_from input_index item_index [] = []
witness_items_from input_index item_index (item ∷ items) =
    let rest = witness_items_from input_index (item_index + 1) items in
    if ltb max_script_element_size_reduced (length item)
    then rule_match RuleId.element_size (
        witness_item_too_large input_index item_index (length item) max_script_element_size_reduced)
      ∷ rest
    else rest

unfoldable pub witness_item_violations : ℕ → List Bytes → List PrimaryViolation
unfolding witness_items_from
witness_item_violations input_index items = witness_items_from input_index 0 items

unfoldable pub is_push_only : Instruction → Bool
is_push_only (push_bytes _) = true
is_push_only (op opcode) = opcode == 0x4f || within 0x51 0x60 opcode

-- The loop over the scriptSig: `none` is its early `return Vec::new()`.
unfoldable pub collect_pushes : List Item → Option (List (ℕ × Instruction))
unfolding is_push_only
collect_pushes [] = some []
collect_pushes (malformed ∷ items) = none
collect_pushes (decoded opcode_pos instruction ∷ items) =
    if not (is_push_only instruction)
    then none
    else (do instructions ← collect_pushes items; some ((opcode_pos, instruction) ∷ instructions))

-- `len as u8` after a shift
abbrev pub low_byte : ℕ → ℕ
low_byte n = n % 2 ^ 8

unfoldable pub header_len : ℕ → Option ℕ
header_len len =
    if ltb len 0x4c
    then some 1
    else if leb len (2 ^ 8 - 1)
    then some 2
    else if leb len (2 ^ 16 - 1)
    then some 3
    else if leb len (2 ^ 32 - 1)
    then some 5
    else none

-- The header that `header_matches` compares the first bytes with.
unfoldable pub expected_header : ℕ → Bytes
expected_header len =
    if ltb len 0x4c
    then low_byte len ∷ []
    else if leb len (2 ^ 8 - 1)
    then 0x4c ∷ low_byte len ∷ []
    else if leb len (2 ^ 16 - 1)
    then 0x4d ∷ low_byte len ∷ low_byte (len / 2 ^ 8) ∷ []
    else 0x4e
      ∷ low_byte len
      ∷ low_byte (len / 2 ^ 8)
      ∷ low_byte (len / 2 ^ 16)
      ∷ low_byte (len / 2 ^ 24)
      ∷ []

unfoldable pub is_canonical_single_push : Bytes → Bytes → Bool
is_canonical_single_push sig redeem =
    let len = length redeem in
    elim (header_len len) [
      | none ↦ false
      | some header ↦
          if not (length sig == header + len)
          then false
          else bytes_eq (take header sig) (expected_header len) && bytes_eq (drop header sig) redeem
    ]

-- `sort_by_key` is stable: an entry goes behind those of the same key.
unfoldable pub insert_by_key :
    ℕ × PrimaryViolation → List (ℕ × PrimaryViolation) → List (ℕ × PrimaryViolation)
insert_by_key x [] = x ∷ []
insert_by_key x (y ∷ ys) =
    let rest = insert_by_key x ys in if ltb x.0 y.0 then x ∷ y ∷ ys else y ∷ rest

unfoldable pub sort_onto :
    List (ℕ × PrimaryViolation) → List (ℕ × PrimaryViolation) → List (ℕ × PrimaryViolation)
sort_onto sorted [] = sorted
sort_onto sorted (x ∷ xs) = sort_onto (insert_by_key x sorted) xs

unfoldable pub sort_by_key : List (ℕ × PrimaryViolation) → List (ℕ × PrimaryViolation)
unfolding sort_onto insert_by_key
sort_by_key = sort_onto []

abbrev pub with_opcode_pos : PrimaryViolation → Option (ℕ × PrimaryViolation)
with_opcode_pos m = violation_opcode_pos m.evidence >>= λ pos. some (pos, m)

-- `annex.map(|annex| vec![…]).unwrap_or_default()`
unfoldable pub annex_matches : ℕ → Option Bytes → List PrimaryViolation
annex_matches input_index none = []
annex_matches input_index (some annex) =
    rule_match RuleId.taproot_annex (taproot_annex_present input_index (length annex)) ∷ []

abbrev pub is_aligned : ℕ → Bool
is_aligned clen =
    leb taproot_control_base_size clen
    && (clen - taproot_control_base_size) % taproot_control_node_size == 0

unfoldable pub control_block_matches : ℕ → ℕ → List PrimaryViolation
control_block_matches input_index clen =
    if ltb taproot_control_max_size_reduced clen
    then rule_match RuleId.control_block_size (
        control_block_too_large input_index clen
          (some ((clen - taproot_control_base_size) / taproot_control_node_size))
          taproot_control_max_size_reduced)
      ∷ []
    else []

unfoldable pub op_success_match : ℕ → ℕ × ℕ → PrimaryViolation
op_success_match input_index (opcode_pos, opcode) =
    rule_match RuleId.op_success (op_success_present input_index opcode opcode_pos)

-- The `OP_IF` entry that is pushed behind the oversized pushes before the sort.
unfoldable pub op_if_entries : ℕ → Bool → Option (ℕ × ℕ) → List (ℕ × PrimaryViolation)
op_if_entries input_index true found = []
op_if_entries input_index false none = []
op_if_entries input_index false (some (opcode_pos, opcode)) =
    (
      opcode_pos,
      rule_match RuleId.tapscript_op_if (Violation.tapscript_op_if input_index opcode opcode_pos),
    )
    ∷ []

-- The pushes below the redeem script, which the reduced limit covers.
unfoldable pub stack_push_match : ℕ → ℕ × Instruction → Option PrimaryViolation
stack_push_match input_index (opcode_pos, push_bytes bytes) =
    if ltb max_script_element_size_reduced (length bytes)
    then some (push_match input_index script_sig opcode_pos (length bytes))
    else none
stack_push_match input_index (opcode_pos, op opcode) = none

module _ (bitcoin : Bitcoin) where
  unfoldable pub push_violations : ℕ → ScriptKind → Bytes → List PrimaryViolation
  push_violations input_index script_kind script =
      map (λ e. push_match input_index script_kind e.0 e.1)
        (pushes_over bitcoin script max_script_element_size_reduced)

  -- Oversized pushes and the first `OP_IF` in the order of their opcodes.
  unfoldable pub tapscript_matches : ℕ → Bool → Bytes → Option (List PrimaryViolation)
  tapscript_matches input_index has_op_success script = do
    pushes ← traverse with_opcode_pos (push_violations input_index tapscript script)
    let op_ifs = op_if_entries input_index has_op_success (first_tapscript_op_if bitcoin script)
    some (map (λ e. e.1) (sort_by_key (pushes ++ op_ifs)))

  unfoldable pub tapscript_path_matches : ℕ → TaprootScriptPath → Option (List PrimaryViolation)
  tapscript_path_matches input_index sp = do
    let successes = op_successes bitcoin sp.script
    script_matches ← tapscript_matches input_index (not (is_empty successes)) sp.script
    some (
        map (op_success_match input_index) successes
        ++ (witness_item_violations input_index sp.args ++ script_matches))

  unfoldable pub evaluate_taproot_script_path :
      ℕ → TaprootScriptPath → Option (List PrimaryViolation)
  evaluate_taproot_script_path input_index sp =
      let annex = annex_matches input_index sp.annex in
      let clen = length sp.control in
      if not (is_aligned clen) then some annex else (do
        version ← leaf_version sp
        let matches = annex ++ control_block_matches input_index clen
        (if not (version == taproot_leaf_tapscript)
            then some (
                matches
                ++ rule_match RuleId.undefined_version
                    (undefined_tapleaf_version input_index version)
                  ∷ [])
            else (do rest ← tapscript_path_matches input_index sp; some (matches ++ rest))))

  unfoldable pub evaluate_taproot : ℕ → List Bytes → Option (List PrimaryViolation)
  evaluate_taproot input_index items = do
    spend ← decompose_taproot items
    elim spend [
      | TaprootSpend.empty ↦ some []
      | TaprootSpend.key_path annex ↦ some (annex_matches input_index annex)
      | TaprootSpend.script_path sp ↦ evaluate_taproot_script_path input_index sp
    ]

  unfoldable pub evaluate_p2wsh : ℕ → List Bytes → List PrimaryViolation
  evaluate_p2wsh input_index items = elim (split_last items) [
    | none ↦ []
    | some (args, script) ↦
        witness_item_violations input_index args
        ++ push_violations input_index witness_script script
  ]

  unfoldable pub evaluate_witness_spend :
      ℕ → Bytes → ℕ → List Bytes → Bool → Option (List PrimaryViolation)
  evaluate_witness_spend input_index program version items is_p2sh =
      if version == 0
      then (if length program == 32
          then some (evaluate_p2wsh input_index items)
          else if length program == 20
          then some (witness_item_violations input_index items)
          else some [])
      else if version == 1 && length program == 32 && not is_p2sh
      then evaluate_taproot input_index items
      else if version == 1 && not is_p2sh && bytes_eq program (0x4e ∷ 0x73 ∷ [])
      then (if is_empty items
          then some []
          else some (
              rule_match RuleId.undefined_version
                (undefined_witness_version input_index 1 false true)
              ∷ []))
      else some (
          rule_match RuleId.undefined_version
            (undefined_witness_version input_index version is_p2sh false)
          ∷ [])

  unfoldable pub evaluate_legacy_spend : ℕ → TxIn → Bytes → List PrimaryViolation
  evaluate_legacy_spend input_index txin spk =
      push_violations input_index script_sig txin.script_sig
      ++ push_violations input_index script_pub_key spk

  unfoldable pub nested_witness_matches :
      ℕ → TxIn → Bytes → List (ℕ × Instruction) → Option (List PrimaryViolation)
  nested_witness_matches input_index txin redeem instructions =
      if length instructions == 1 && is_canonical_single_push txin.script_sig redeem
      then elim (parse_witness_program redeem) [
        | none ↦ some []
        | some wp ↦ evaluate_witness_spend input_index wp.program wp.version txin.witness true
      ]
      else some []

  unfoldable pub evaluate_redeem :
      ℕ
      → TxIn
      → List (ℕ × Instruction)
      → List (ℕ × Instruction)
      → Instruction
      → Option (List PrimaryViolation)
  evaluate_redeem input_index txin instructions below (op opcode) =
      some (filter_map (stack_push_match input_index) below)
  evaluate_redeem input_index txin instructions below (push_bytes redeem) = do
    nested ← nested_witness_matches input_index txin redeem instructions
    some (
        filter_map (stack_push_match input_index) below
        ++ (push_violations input_index redeem_script redeem ++ nested))

  unfoldable pub evaluate_p2sh_spend : ℕ → TxIn → Option (List PrimaryViolation)
  evaluate_p2sh_spend input_index txin =
      elim (collect_pushes (bitcoin.instruction_indices txin.script_sig)) [
        | none ↦ some []
        | some instructions ↦ elim (split_last instructions) [
          | none ↦ some []
          | some (below, (_, redeem_instruction)) ↦
              evaluate_redeem input_index txin instructions below redeem_instruction
        ]
      ]

  unfoldable pub evaluate_input : ℕ → TxIn → Bytes → Option (List PrimaryViolation)
  evaluate_input input_index txin spk =
      if bitcoin.is_p2sh spk
      then evaluate_p2sh_spend input_index txin
      else elim (parse_witness_program spk) [
        | some wp ↦ evaluate_witness_spend input_index wp.program wp.version txin.witness false
        | none ↦ some (evaluate_legacy_spend input_index txin spk)
      ]
