-- ===== src/Model/Error.antt =====
-- src/model.rs: the errors of the data model.
use Prim.Native.String.{String}
use mempool_atlas.Prelude.{ℕ, ℤ}

pub data ModelError : Type 0 where
  invalid_source_id invalid_source_label : String → ModelError
  zero_vsize : ModelError
  inconsistent_weight : (vsize weight : ℕ) → ModelError
  inconsistent_ancestry :
      (vsize ancestor_count ancestor_vsize descendant_count descendant_vsize : ℕ) → ModelError
  empty_transaction_structure : (input_count output_count : ℕ) → ModelError
  unsafe_json_integer : (field : String) (value : ℕ) → ModelError
  unsafe_signed_json_integer : (field : String) (value : ℤ) → ModelError
  invalid_collection_window : (started_at_ms completed_at_ms : ℕ) → ModelError
  collection_duration_mismatch : (started_at_ms completed_at_ms duration_ms : ℕ) → ModelError
  snapshot_too_large total_vsize_overflow transactions_not_strictly_sorted : ModelError
  classification_key_mismatch : (key txid : String) → ModelError
  classification_not_in_snapshot classification_variant_mismatch : String → ModelError
  classification_detail_missing : String → ModelError
  invalid_classification_detail : (txid reason : String) → ModelError
