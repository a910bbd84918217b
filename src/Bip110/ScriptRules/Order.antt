-- ===== src/Bip110/ScriptRules/Order.antt =====
-- The order of the matches inside a Tapscript.
use mathlib.Core.List.{Perm}
use mathlib.Core.List.Perm
use mempool_atlas.Prelude.{ℕ, ◌≤◌, ◌≡◌, Bool, some, List, [], ◌∷◌, ◌++◌, map, Bytes, All}
use mempool_atlas.Bitcoin.{Bitcoin}
use mempool_atlas.Bip110.ScriptScan.{pushes_over, first_tapscript_op_if}
use mempool_atlas.Bip110.Verdict.{PrimaryViolation, tapscript}
use mempool_atlas.Bip110.ScriptRules.{violation_opcode_pos, op_if_entries}
use mempool_atlas.Bip110.ScriptRules.Parts.{with_position}

abbrev pub Entries : Type 0
Entries = List (ℕ × PrimaryViolation)

-- Each entry stands at or before those that follow it.
abbrev pub IsOrdered : Entries → Type 0
IsOrdered [] = Unit
IsOrdered (e ∷ es) = All (λ x. e.0 ≤ x.0) es × IsOrdered es

-- The key of an entry is the opcode position that its evidence states.
abbrev pub IsKeyed : Entries → Type 0
IsKeyed es = All (λ e. violation_opcode_pos (e.1).evidence ≡ some e.0) es

-- The entries before the sort: the oversized pushes, then the first `OP_IF` unless an
-- `OP_SUCCESS` was found.
abbrev pub entries : Bitcoin → ℕ → Bool → Bytes → Entries
entries bitcoin i has_op_success script =
    map (with_position i tapscript) (pushes_over bitcoin script 256)
    ++ op_if_entries i has_op_success (first_tapscript_op_if bitcoin script)
