-- ===== src/Bip110/Witness.antt =====
-- src/bip110/witness.rs: witness programs, and the parts of a Taproot witness stack. `none` of
-- `decompose_taproot` stands for an index out of range.
pub mod Program
pub mod Taproot
use Prim.Native.Nat.{bit_and}
use mempool_atlas.Prelude.{
  ℕ, ◌+◌, ◌-◌, Bool, false, not, ◌&&◌, ◌||◌, Option, none, some, List, [], ◌∷◌, Bytes, length,
  split_last, ltb, leb, ◌==◌, within, if◌then◌else◌, ◌>>=◌,
}
use mempool_atlas.Bip110.Context.{annex_tag, taproot_leaf_mask}

abbrev pub op_0 : ℕ
op_0 = 0x00

abbrev pub op_1 : ℕ
op_1 = 0x51

abbrev pub op_16 : ℕ
op_16 = 0x60

pub record WitnessProgram : Type 0 where
  pub version : ℕ
  pub program : Bytes

unfoldable pub parse_witness_program : Bytes → Option WitnessProgram
parse_witness_program (op ∷ push ∷ program) =
    let len = length (op ∷ push ∷ program) in
    if ltb len 4 || ltb 42 len
    then none
    else if not (op == op_0) && not (within op_1 op_16 op)
    then none
    else if not (push + 2 == len)
    then none
    else some (record { version = if op == op_0 then 0 else op - (op_1 - 1); program = program })
parse_witness_program bytes = none

pub record TaprootScriptPath : Type 0 where
  pub args : List Bytes
  pub script : Bytes
  pub control : Bytes
  pub annex : Option Bytes

unfoldable pub leaf_version : TaprootScriptPath → Option ℕ
leaf_version sp = elim sp.control [ [] ↦ none | b ∷ _ ↦ some (bit_and b taproot_leaf_mask) ]

pub data TaprootSpend : Type 0 where
  empty : TaprootSpend
  key_path : Option Bytes → TaprootSpend
  script_path : TaprootScriptPath → TaprootSpend

-- `!last.is_empty() && last[0] == ANNEX_TAG`
abbrev pub is_annex : Bytes → Bool
is_annex [] = false
is_annex (b ∷ _) = b == annex_tag

unfoldable pub spend_of_stack : List Bytes → Option Bytes → Option TaprootSpend
spend_of_stack stack annex = if length stack == 1 then some (key_path annex) else do
  (front, control) ← split_last stack
  (args, script) ← split_last front
  some (script_path (record { args = args; script = script; control = control; annex = annex }))

unfoldable pub decompose_taproot : List Bytes → Option TaprootSpend
decompose_taproot items = elim (split_last items) [
  | none ↦ some empty
  | some (front, last) ↦
      if leb 2 (length items) && is_annex last
      then spend_of_stack front (some last)
      else spend_of_stack items none
]
