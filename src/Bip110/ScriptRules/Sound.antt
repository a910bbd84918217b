-- ===== src/Bip110/ScriptRules/Sound.antt =====
-- Rules 2 to 7 never panic, and every match that they return is proven by its evidence.
use Prim.Native.Nat.{bit_and}
use mempool_atlas.Prelude.{
  ℕ, ◌≡◌, refl, ◌≢◌, Bool, true, false, not, inl, inr, ◌&&◌, Option, some, List, [], ◌∷◌, Bytes,
  bytes_eq, length, is_empty, none_left, last_is, split_last-LastView, filter_map, ◌==◌, arith,
  Bool-cases, Option-cases, if◌then◌else◌,
}
use mempool_atlas.Bitcoin.{Bitcoin, TxIn, Instruction, push_bytes, op}
use mempool_atlas.Bip110.Context.{taproot_leaf_mask, taproot_leaf_tapscript}
use mempool_atlas.Bip110.ScriptScan.{
  pushes_over, pushes_over_items, op_successes, first_tapscript_op_if,
}
use mempool_atlas.Bip110.Verdict.{
  ScriptKind, PrimaryViolation, tapscript, script_sig, redeem_script, witness_script,
  script_pub_key,
}
use mempool_atlas.Bip110.Witness.{
  TaprootSpend, TaprootScriptPath, decompose_taproot, leaf_version, parse_witness_program,
}
use mempool_atlas.Bip110.Witness.Taproot.{parts, decompose_taproot-Decomposed}
use mempool_atlas.Bip110.ScriptRules.{
  push_match, sort_by_key, is_aligned, is_canonical_single_push, collect_pushes, annex_matches,
  push_violations, tapscript_matches, tapscript_path_matches, evaluate_taproot_script_path,
  evaluate_taproot, evaluate_p2wsh, evaluate_witness_spend, evaluate_legacy_spend, stack_push_match,
  nested_witness_matches, evaluate_redeem, evaluate_p2sh_spend, evaluate_input,
}
use mempool_atlas.Bip110.ScriptRules.Proven.{AllProven, AllProven-append}
use mempool_atlas.Bip110.ScriptRules.Parts.{
  witness_item_violations-AllProven, pushes-AllProven, op_successes-AllProven,
  sort_onto-EntriesProven, EntriesProven-map, EntriesProven-append, EntriesProven-with_position,
  first_op_if_items-IsOpIf, op_if_entries-EntriesProven, annex_matches-AllProven,
  control_block_matches-AllProven, traverse-with_opcode_pos,
}

-- The code returns with no panic, and all that it returns is proven.
pub data ReturnsProven (i : ℕ) (r : Option (List PrimaryViolation)) : Type 0 where
  proven : (ms : List PrimaryViolation) → r ≡ some ms → AllProven i ms → ReturnsProven i r

stack_pushes-AllProven :
    (i : ℕ) (below : List (ℕ × Instruction)) → AllProven i (filter_map (stack_push_match i) below)
unfolding stack_push_match push_match
stack_pushes-AllProven i [] = tt
stack_pushes-AllProven i ((pos, push_bytes bytes) ∷ below) =
    ground (arith, stack_pushes-AllProven i below)
stack_pushes-AllProven i ((pos, op o) ∷ below) = stack_pushes-AllProven i below

ReturnsProven-if :
    (i : ℕ) (b : Bool) (m n : Option (List PrimaryViolation))
    → (b ≡ true → ReturnsProven i m)
    → (b ≡ false → ReturnsProven i n)
    → ReturnsProven i (if b then m else n)
ReturnsProven-if i true m n hm hn = hm refl
ReturnsProven-if i false m n hm hn = hn refl

ne_of_test : (v : ℕ) → not (v == taproot_leaf_tapscript) ≡ true → v ≢ taproot_leaf_tapscript
ne_of_test v h = ground arith

ne_zero : (v : ℕ) → (v == 0) ≡ false → v ≢ 0
ne_zero v h = ground arith

module _ (bitcoin : Bitcoin) where
  push_violations-AllProven :
      (i : ℕ) (kind : ScriptKind) (script : Bytes)
      → AllProven i (push_violations bitcoin i kind script)
  unfolding push_violations pushes_over
  push_violations-AllProven i kind script =
      pushes-AllProven i kind (bitcoin.instruction_indices script)

  tapscript_matches-ReturnsProven :
      (i : ℕ) (b : Bool) (script : Bytes) → ReturnsProven i (tapscript_matches bitcoin i b script)
  unfolding tapscript_matches push_violations sort_by_key first_tapscript_op_if pushes_over
  tapscript_matches-ReturnsProven i b script =
      let items = bitcoin.instruction_indices script in
      let found = first_op_if_items-IsOpIf items in
      proven _ (rw (traverse-with_opcode_pos i tapscript (pushes_over_items 256 items)) refl) (
        EntriesProven-map i _ (
          sort_onto-EntriesProven i [] _ tt (
            EntriesProven-append i _ _
              (EntriesProven-with_position i tapscript _ (pushes-AllProven i tapscript items))
              (op_if_entries-EntriesProven i b _ found))))

  tapscript_path_matches-ReturnsProven :
      (i : ℕ) (sp : TaprootScriptPath) → ReturnsProven i (tapscript_path_matches bitcoin i sp)
  unfolding tapscript_path_matches op_successes
  tapscript_path_matches-ReturnsProven i sp =
      elim (tapscript_matches-ReturnsProven i (not (is_empty (op_successes bitcoin sp.script)))
        sp.script) [
          | proven ms e h ↦ proven _ (rw e) (
              AllProven-append i _ _
                (op_successes-AllProven i (bitcoin.instruction_indices sp.script))
                (AllProven-append i _ _ (witness_item_violations-AllProven i sp.args) h))
        ]

  -- An aligned control block is not empty.
  aligned-ne-nil : is_aligned 0 ≡ true → ⊥
  aligned-ne-nil h = cc

  abbrev path_with : List Bytes → Bytes → Bytes → Option Bytes → TaprootScriptPath
  path_with args script control annex = record {
    args = args;
    script = script;
    control = control;
    annex = annex;
  }

  aligned_path-ReturnsProven :
      (i : ℕ) (args : List Bytes) (script control : Bytes) (annex : Option Bytes)
      → is_aligned (length control) ≡ true
      → ReturnsProven i (tapscript_path_matches bitcoin i (path_with args script control annex))
      → ReturnsProven i
          (evaluate_taproot_script_path bitcoin i (path_with args script control annex))
  unfolding evaluate_taproot_script_path leaf_version
  aligned_path-ReturnsProven i args script [] annex e r = absurd (aligned-ne-nil e)
  aligned_path-ReturnsProven i args script (b ∷ bs) annex e (proven ms em h) =
      let version : ℕ = bit_and b taproot_leaf_mask in
      let front =
        AllProven-append i _ _ (annex_matches-AllProven i annex)
          (control_block_matches-AllProven i (length (b ∷ bs))) in
      rw e (
        ReturnsProven-if i (not (version == taproot_leaf_tapscript)) _ _
          (λ t.
            proven _ refl (AllProven-append i _ _ front ((refl, refl, ne_of_test (version) t), tt)))
          (λ _. rw em (proven _ refl (AllProven-append i _ _ front h))))

  evaluate_taproot_script_path-ReturnsProven :
      (i : ℕ) (sp : TaprootScriptPath) → ReturnsProven i (evaluate_taproot_script_path bitcoin i sp)
  unfolding evaluate_taproot_script_path
  evaluate_taproot_script_path-ReturnsProven i sp =
      elim (Bool-cases (is_aligned (length sp.control))) [
        | inr e ↦ proven (annex_matches i sp.annex) (rw e) (annex_matches-AllProven i sp.annex)
        | inl e ↦
            aligned_path-ReturnsProven i sp.args sp.script sp.control sp.annex e
              (tapscript_path_matches-ReturnsProven i sp)
      ]

  taproot_spend-ReturnsProven :
      (i : ℕ) (items : List Bytes) (spend : TaprootSpend)
      → decompose_taproot items ≡ some spend
      → ReturnsProven i (evaluate_taproot bitcoin i items)
  unfolding evaluate_taproot
  taproot_spend-ReturnsProven i items TaprootSpend.empty e = proven [] (rw (e, evaluate_taproot)) tt
  taproot_spend-ReturnsProven i items (TaprootSpend.key_path annex) e =
      proven (annex_matches i annex) (rw (e, evaluate_taproot)) (annex_matches-AllProven i annex)
  taproot_spend-ReturnsProven i items (TaprootSpend.script_path sp) e =
      rw (e, evaluate_taproot) (evaluate_taproot_script_path-ReturnsProven i sp)

  evaluate_taproot-ReturnsProven :
      (i : ℕ) (items : List Bytes) → ReturnsProven i (evaluate_taproot bitcoin i items)
  evaluate_taproot-ReturnsProven i items = elim (decompose_taproot-Decomposed items) [
    | parts spend e _ ↦ taproot_spend-ReturnsProven i items spend e
  ]

  evaluate_p2wsh-AllProven :
      (i : ℕ) (items : List Bytes) → AllProven i (evaluate_p2wsh bitcoin i items)
  unfolding evaluate_p2wsh
  evaluate_p2wsh-AllProven i items = elim (split_last-LastView items) [
    | none_left e p ↦ rw (e, evaluate_p2wsh) tt
    | last_is args script e p ↦
        rw (e, evaluate_p2wsh)
          (AllProven-append i _ _ (witness_item_violations-AllProven i args)
            (push_violations-AllProven i witness_script script))
  ]

  evaluate_witness_spend-ReturnsProven :
      (i : ℕ) (program : Bytes) (version : ℕ) (items : List Bytes) (is_p2sh : Bool)
      → ReturnsProven i (evaluate_witness_spend bitcoin i program version items is_p2sh)
  unfolding evaluate_witness_spend
  evaluate_witness_spend-ReturnsProven i program version items is_p2sh =
      ReturnsProven-if i (version == 0) _ _
        (λ _.
          ReturnsProven-if i (length program == 32) _ _
            (λ _. proven _ refl (evaluate_p2wsh-AllProven i items))
            (λ _.
              ReturnsProven-if i (length program == 20) _ _
                (λ _. proven _ refl (witness_item_violations-AllProven i items))
                (λ _. proven [] refl tt)))
        (λ nonzero.
          ReturnsProven-if i (version == 1 && length program == 32 && not is_p2sh) _ _
            (λ _. evaluate_taproot-ReturnsProven i items)
            (λ _.
              ReturnsProven-if i
                (version == 1 && not is_p2sh && bytes_eq program (0x4e ∷ 0x73 ∷ [])) _ _
                (λ _.
                  ReturnsProven-if i (is_empty items) _ _ (λ _. proven [] refl tt)
                    (λ _. proven _ refl ((refl, refl, (λ q. cc)), tt)))
                (λ _. proven _ refl ((refl, refl, ne_zero version nonzero), tt))))

  evaluate_legacy_spend-AllProven :
      (i : ℕ) (txin : TxIn) (spk : Bytes) → AllProven i (evaluate_legacy_spend bitcoin i txin spk)
  unfolding evaluate_legacy_spend
  evaluate_legacy_spend-AllProven i txin spk =
      AllProven-append i _ _ (push_violations-AllProven i script_sig txin.script_sig)
        (push_violations-AllProven i script_pub_key spk)

  nested_witness_matches-ReturnsProven :
      (i : ℕ) (txin : TxIn) (redeem : Bytes) (instructions : List (ℕ × Instruction))
      → ReturnsProven i (nested_witness_matches bitcoin i txin redeem instructions)
  unfolding nested_witness_matches
  nested_witness_matches-ReturnsProven i txin redeem instructions =
      ReturnsProven-if i
        (length instructions == 1 && is_canonical_single_push txin.script_sig redeem) _ _
        (λ _. elim (Option-cases (parse_witness_program redeem)) [
          | inl e ↦ rw (e, nested_witness_matches) (proven [] refl tt)
          | inr f ↦
              rw (f.1, nested_witness_matches)
                (evaluate_witness_spend-ReturnsProven i (f.0).program (f.0).version txin.witness
                  true)
        ])
        (λ _. proven [] refl tt)

  evaluate_redeem-ReturnsProven :
      (i : ℕ) (txin : TxIn) (instructions below : List (ℕ × Instruction)) (redeem : Instruction)
      → ReturnsProven i (evaluate_redeem bitcoin i txin instructions below redeem)
  unfolding evaluate_redeem
  evaluate_redeem-ReturnsProven i txin instructions below (op o) =
      proven _ refl (stack_pushes-AllProven i below)
  evaluate_redeem-ReturnsProven i txin instructions below (push_bytes redeem) =
      elim (nested_witness_matches-ReturnsProven i txin redeem instructions) [
        | proven ms e h ↦ rw e (
            proven _ refl (
              AllProven-append i _ _ (stack_pushes-AllProven i below)
                (AllProven-append i _ _ (push_violations-AllProven i redeem_script redeem) h)))
      ]

  evaluate_p2sh_spend-ReturnsProven :
      (i : ℕ) (txin : TxIn) → ReturnsProven i (evaluate_p2sh_spend bitcoin i txin)
  unfolding evaluate_p2sh_spend
  evaluate_p2sh_spend-ReturnsProven i txin =
      elim (Option-cases (collect_pushes (bitcoin.instruction_indices txin.script_sig))) [
        | inl e ↦ rw (e, evaluate_p2sh_spend) (proven [] refl tt)
        | inr f ↦
            rw (f.1, evaluate_p2sh_spend)
              (elim (split_last-LastView f.0) [
                | none_left e p ↦ rw (e, evaluate_p2sh_spend) (proven [] refl tt)
                | last_is below last e p ↦
                    rw (e, evaluate_p2sh_spend)
                      (evaluate_redeem-ReturnsProven i txin f.0 below last.1)
              ])
      ]

  -- Rules 2 to 7 never panic on an input. Every match that they return names the input that was
  -- evaluated and the rule that its evidence belongs to, and the numbers of the evidence break
  -- that rule.
  pub evaluate_input-ReturnsProven :
      (i : ℕ) (txin : TxIn) (spk : Bytes) → ReturnsProven i (evaluate_input bitcoin i txin spk)
  unfolding evaluate_input
  evaluate_input-ReturnsProven i txin spk =
      ReturnsProven-if i (bitcoin.is_p2sh spk) _ _ (λ _. evaluate_p2sh_spend-ReturnsProven i txin)
        (λ _. elim (Option-cases (parse_witness_program spk)) [
          | inl e ↦
              rw (e, evaluate_input) (proven _ refl (evaluate_legacy_spend-AllProven i txin spk))
          | inr f ↦
              rw (f.1, evaluate_input)
                (evaluate_witness_spend-ReturnsProven i (f.0).program (f.0).version txin.witness
                  false)
        ])
