-- ===== src/Bitcoin.antt =====
-- What the program takes from the `bitcoin` crate, which is not part of the repository: its
-- transactions with the fields that the program reads, and its functions as one parameter.
use mempool_atlas.Prelude.{ℕ, Bool, List, Bytes}

-- `bitcoin::script::Instruction`
pub data Instruction : Type 0 where
  push_bytes : Bytes → Instruction
  op : ℕ → Instruction

-- One item of `Script::instruction_indices()`: `Ok((position, instruction))` or `Err(_)`.
pub data Item : Type 0 where
  decoded : ℕ → Instruction → Item
  malformed : Item

pub record TxIn : Type 0 where
  pub txid : Bytes
  pub vout : ℕ
  pub script_sig : Bytes
  pub sequence : ℕ
  pub witness : List Bytes

pub record TxOut : Type 0 where
  pub value : ℕ
  pub script_pubkey : Bytes

pub record Transaction : Type 0 where
  pub version : ℕ
  pub input : List TxIn
  pub output : List TxOut

-- The functions of the crate that the program calls, one field each.
pub record Bitcoin : Type 0 where
  pub instruction_indices : Bytes → List Item
  pub is_p2sh : Bytes → Bool
  pub is_coinbase : Transaction → Bool
