-- ===== src/Classifiers/Structure.antt =====
-- src/classifiers.rs: `transaction_structure`. The sizes of a transaction and `is_op_return` are the
-- bitcoin crate's, and so are arguments.
use mempool_atlas.Prelude.{ℕ, ◌+◌, ◌-◌, Bool, List, [], ◌∷◌, Bytes, length, if◌then◌else◌}
use mempool_atlas.Results.{Result}
use mempool_atlas.Bitcoin.{Bitcoin, TxOut, Transaction}
use mempool_atlas.Model.Error.{ModelError}
use mempool_atlas.Model.Rules.{to_u64}
use mempool_atlas.Model.Entry.{TransactionStructure, new_structure}
use mempool_atlas.Classification.Batches.{saturate}
use mempool_atlas.Classifiers.Multisig.{op_return_payload}

module _ (bitcoin : Bitcoin) (is_op_return : Bytes → Bool)
    (total_size base_size : Transaction → ℕ) where
  -- The loop over the outputs.
  unfoldable pub output_totals : List TxOut → (op_return_bytes output_sats : ℕ) → ℕ × ℕ
  unfolding op_return_payload
  output_totals [] op_return_bytes output_sats = (op_return_bytes, output_sats)
  output_totals (output ∷ outputs) op_return_bytes output_sats =
      let payload = op_return_payload bitcoin output.script_pubkey in
      output_totals outputs
        (if is_op_return output.script_pubkey
          then saturate (op_return_bytes + to_u64 (length payload))
          else op_return_bytes)
        (saturate (output_sats + output.value))

  unfoldable pub transaction_structure : Transaction → Result ModelError TransactionStructure
  unfolding output_totals new_structure
  transaction_structure transaction =
      let (op_return_bytes, output_sats) = output_totals transaction.output 0 0 in
      new_structure (to_u64 (length transaction.input)) (to_u64 (length transaction.output))
        op_return_bytes output_sats (to_u64 (total_size transaction - base_size transaction))
