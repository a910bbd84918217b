-- ===== src/Bip110/ScriptScan.antt =====
-- src/bip110/script_scan.rs: scans over the decoded instructions of a script. Each scan stops at
-- the first item that does not decode.
use mempool_atlas.Prelude.{
  ℕ, Bool, ◌||◌, Option, none, some, List, [], ◌∷◌, Bytes, length, ltb, ◌==◌, within, if◌then◌else◌,
}
use mempool_atlas.Bitcoin.{Bitcoin, Item, decoded, malformed, push_bytes, op}

abbrev pub op_if : ℕ
op_if = 0x63

abbrev pub op_notif : ℕ
op_notif = 0x64

unfoldable pub is_op_success : ℕ → Bool
is_op_success opcode =
    opcode == 80
    || opcode == 98
    || within 126 129 opcode
    || within 131 134 opcode
    || within 137 138 opcode
    || within 141 142 opcode
    || within 149 153 opcode
    || within 187 254 opcode

unfoldable pub pushes_over_items : ℕ → List Item → List (ℕ × ℕ)
pushes_over_items limit [] = []
pushes_over_items limit (decoded pos (push_bytes pb) ∷ items) =
    let out = pushes_over_items limit items in
    if ltb limit (length pb) then (pos, length pb) ∷ out else out
pushes_over_items limit (decoded pos (op opcode) ∷ items) = pushes_over_items limit items
pushes_over_items limit (malformed ∷ items) = []

unfoldable pub op_successes_items : List Item → List (ℕ × ℕ)
unfolding is_op_success
op_successes_items [] = []
op_successes_items (decoded pos (op byte) ∷ items) =
    let out = op_successes_items items in if is_op_success byte then (pos, byte) ∷ out else out
op_successes_items (decoded pos (push_bytes pb) ∷ items) = op_successes_items items
op_successes_items (malformed ∷ items) = []

unfoldable pub first_op_if_items : List Item → Option (ℕ × ℕ)
first_op_if_items [] = none
first_op_if_items (decoded pos (op opcode) ∷ items) =
    let rest = first_op_if_items items in
    if opcode == op_if || opcode == op_notif then some (pos, opcode) else rest
first_op_if_items (decoded pos (push_bytes pb) ∷ items) = first_op_if_items items
first_op_if_items (malformed ∷ items) = none

module _ (bitcoin : Bitcoin) where
  unfoldable pub pushes_over : Bytes → ℕ → List (ℕ × ℕ)
  pushes_over script limit = pushes_over_items limit (bitcoin.instruction_indices script)

  unfoldable pub op_successes : Bytes → List (ℕ × ℕ)
  op_successes script = op_successes_items (bitcoin.instruction_indices script)

  unfoldable pub first_tapscript_op_if : Bytes → Option (ℕ × ℕ)
  first_tapscript_op_if script = first_op_if_items (bitcoin.instruction_indices script)
