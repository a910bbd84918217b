-- ===== src/Classifiers/Multisig.antt =====
-- src/classifiers.rs: decoded scripts, the payload of an `OP_RETURN`, and bare multisig outputs.
use mempool_atlas.Prelude.{
  ℕ, ◌-◌, Bool, true, false, ◌&&◌, Option, none, some, List, [], ◌∷◌, ◌++◌, Bytes, length,
  split_last, traverse, leb, ◌==◌, within, if◌then◌else◌, ◌>>=◌,
}
use mempool_atlas.Bitcoin.{Bitcoin, Instruction, Item, decoded, malformed, push_bytes, op}

abbrev pub op_checkmultisig : ℕ
op_checkmultisig = 0xae

-- `instruction.ok()?`; the code's `DecodedInstruction` is the instruction without its position.
abbrev pub instruction_of : Item → Option Instruction
instruction_of (decoded position instruction) = some instruction
instruction_of malformed = none

unfoldable pub pushnum : ℕ → Option ℕ
pushnum opcode = if within 0x51 0x60 opcode then some (opcode - 0x50) else none

abbrev pub as_op : Instruction → Option ℕ
as_op (push_bytes bytes) = none
as_op (op opcode) = some opcode

abbrev pub as_push : Instruction → Option Bytes
as_push (push_bytes bytes) = some bytes
as_push (op opcode) = none

abbrev pub is_op : ℕ → Instruction → Bool
is_op opcode (push_bytes bytes) = false
is_op opcode (op o) = o == opcode

abbrev pub split_first {ℓ} : {A : Type ℓ} → List A → Option (A × List A)
split_first [] = none
split_first (x ∷ xs) = some (x, xs)

-- `(…).then_some(…)`
abbrev pub then_some {ℓ} : {A : Type ℓ} → Bool → A → Option A
then_some true a = some a
then_some false a = none

unfoldable pub multisig_of : List Instruction → Option (ℕ × List Bytes)
unfolding pushnum
multisig_of instructions = do
  first_rest ← split_first instructions
  required_opcode ← as_op first_rest.0
  required ← pushnum required_opcode
  head_last ← split_last first_rest.1
  ends ← then_some (is_op op_checkmultisig head_last.1) true
  keys_tail ← split_last head_last.0
  total_opcode ← as_op keys_tail.1
  total ← pushnum total_opcode
  keys ← traverse as_push keys_tail.0
  then_some (total == length keys && (leb 1 required && leb required total)) (required, keys)

-- The pushes of a script that consists of pushes, joined.
abbrev pub joined_pushes : List Instruction → Option Bytes
joined_pushes [] = some []
joined_pushes (push_bytes bytes ∷ instructions) =
    joined_pushes instructions >>= λ payload. some (bytes ++ payload)
joined_pushes (op opcode ∷ instructions) = none

abbrev pub unwrap_or : Option Bytes → Bytes → Bytes
unwrap_or none d = d
unwrap_or (some b) d = b

module _ (bitcoin : Bitcoin) where
  unfoldable pub decoded_instructions : Bytes → Option (List Instruction)
  decoded_instructions script = traverse instruction_of (bitcoin.instruction_indices script)

  unfoldable pub parse_bare_multisig : Bytes → Option (ℕ × List Bytes)
  unfolding decoded_instructions multisig_of
  parse_bare_multisig script = decoded_instructions script >>= multisig_of

  -- `script.get(1..)` is absent for an empty script only.
  unfoldable pub op_return_payload : Bytes → Bytes
  unfolding decoded_instructions
  op_return_payload [] = []
  op_return_payload (b ∷ remainder) =
      unwrap_or (decoded_instructions remainder >>= joined_pushes) remainder
