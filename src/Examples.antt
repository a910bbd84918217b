-- ===== src/Examples.antt =====
-- Concrete inputs for the theorems at work: a decoder for the direct pushes, `OP_PUSHDATA2` and
-- single opcodes, and a transaction that spends one Taproot output by a Tapscript.
pub mod Bip110
pub mod Model
pub mod Classification
pub mod Classifiers
pub mod Pending
pub mod Runtime
pub mod Rpc
use mempool_atlas.Prelude.{
  ℕ, zero, suc, ◌+◌, ◌*◌, Bool, ◌&&◌, Option, none, some, List, [], ◌∷◌, ◌++◌, Bytes, bytes_eq,
  length, is_empty, take, drop, replicate, ltb, leb, ◌==◌, if◌then◌else◌,
}
use mempool_atlas.Bitcoin.{
  Bitcoin, TxIn, TxOut, Transaction, Instruction, Item, decoded, malformed, push_bytes, op,
}
use mempool_atlas.Bip110.Context.{EvaluationContext}
use mempool_atlas.Bip110.Prevout.{PrevoutSet}

abbrev push_of : ℕ → ℕ → Bytes → Option (Instruction × ℕ × Bytes)
push_of n header bytes =
    if ltb (length bytes) n
    then none
    else some (push_bytes (take n bytes), header + n, drop n bytes)

abbrev next : Bytes → Option (Instruction × ℕ × Bytes)
next [] = none
next (b ∷ []) = if b == 0 then push_of 0 1 [] else if leb b 0x4e then none else some (op b, 1, [])
next (b ∷ c ∷ []) = if leb b 75 then push_of b 1 (c ∷ []) else some (op b, 1, c ∷ [])
next (b ∷ c ∷ d ∷ bs) =
    if leb b 75
    then push_of b 1 (c ∷ d ∷ bs)
    else if b == 0x4d
    then push_of (c + 256 * d) 3 bs
    else some (op b, 1, c ∷ d ∷ bs)

abbrev decode : ℕ → ℕ → Bytes → List Item
decode zero pos bytes = []
decode (suc fuel) pos [] = []
decode (suc fuel) pos (b ∷ bs) = elim (next (b ∷ bs)) [
  | none ↦ malformed ∷ []
  | some (instruction, n, rest) ↦ decoded pos instruction ∷ decode fuel (pos + n) rest
]

abbrev pub sample : Bitcoin
sample = record {
  instruction_indices = λ script. decode (length script) 0 script;
  is_p2sh = λ script. length script == 23 && bytes_eq (take 2 script) (0xa9 ∷ 0x14 ∷ []);
  is_coinbase = λ tx. is_empty tx.input;
}

abbrev pub taproot_script : Bytes
taproot_script = 0x51 ∷ 0x20 ∷ replicate 32 7

-- A Tapscript `OP_0 OP_IF`, under a control block with no Merkle path.
abbrev pub tapscript_input : TxIn
tapscript_input = record {
  txid = replicate 32 1;
  vout = 0;
  script_sig = [];
  sequence = 0;
  witness = (0 ∷ 0x63 ∷ []) ∷ (0xc0 ∷ replicate 32 2) ∷ [];
}

abbrev pub sample_tx : Transaction
sample_tx = record {
  version = 2;
  input = tapscript_input ∷ [];
  output =
      record { value = 900; script_pubkey = taproot_script }
      ∷ record { value = 0; script_pubkey = 0x6a ∷ 1 ∷ 5 ∷ [] }
      ∷ [];
}

abbrev pub prevouts_at : ℕ → PrevoutSet
prevouts_at height = record {
  facts = some (record { script_pubkey = taproot_script; creation_height = some height }) ∷ [];
}

abbrev pub no_prevouts : PrevoutSet
no_prevouts = record { facts = [] }

abbrev pub active_context : EvaluationContext
active_context = record { activation_height = some 100; spend_height = 150 }
