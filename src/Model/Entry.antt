-- ===== src/Model/Entry.antt =====
-- src/model.rs: the entries of a mempool snapshot, and the tests that make them.
use Prim.Native.String.{String}
use mempool_atlas.Prelude.{
  ℕ, ◌*◌, ◌-◌, ◌^◌, min, ℤ, pos, unsigned_abs, Bool, false, ◌||◌, Option, none, List, [], ◌∷◌, ltb,
  leb, ◌==◌, if◌then◌else◌,
}
use mempool_atlas.Results.{Result, ok, reject, ◌>>◌}
use mempool_atlas.Json.{Value}
use mempool_atlas.Model.Error.{
  ModelError, unsafe_json_integer, unsafe_signed_json_integer, empty_transaction_structure,
  zero_vsize, inconsistent_weight, inconsistent_ancestry,
}
use mempool_atlas.Model.Rules.{Bip110Assessment, max_safe_json_integer}

pub data ClassificationResultState : Type 0 where
  complete partial : ClassificationResultState

pub record ClassificationResult : Type 0 where
  pub classifier_id : String
  pub state : ClassificationResultState
  pub primary_label : Option String
  pub labels : List String
  pub missing_facts : List String
  pub evidence : Option Value

unfoldable pub compact : ClassificationResult → ClassificationResult
compact result = record result { evidence = none }

pub record MembershipFacts : Type 0 where
  pub weight : ℕ
  pub ancestor_count : ℕ
  pub ancestor_vsize : ℕ
  pub ancestor_fee_sats : ℤ
  pub descendant_count : ℕ
  pub descendant_vsize : ℕ
  pub replaceable : Bool

-- `u64::saturating_mul(4)`
abbrev pub saturating_times_4 : ℕ → ℕ
saturating_times_4 n = min (n * 4) (2 ^ 64 - 1)

-- `i64::try_from(n).unwrap_or(i64::MAX)`
abbrev pub to_i64 : ℕ → ℤ
to_i64 n = if leb n (2 ^ 63 - 1) then pos n else pos (2 ^ 63 - 1)

unfoldable pub solitary : ℕ → ℕ → MembershipFacts
solitary vsize fee_sats = record {
  weight = saturating_times_4 vsize;
  ancestor_count = 1;
  ancestor_vsize = vsize;
  ancestor_fee_sats = to_i64 fee_sats;
  descendant_count = 1;
  descendant_vsize = vsize;
  replaceable = false;
}

-- The loop that rejects the first field that JSON cannot hold exactly.
unfoldable pub check_safe : List (String × ℕ) → Result ModelError Unit
check_safe [] = ok tt
check_safe (field ∷ fields) = do
  reject (ltb max_safe_json_integer field.1) (unsafe_json_integer field.0 field.1)
  check_safe fields

pub record TransactionStructure : Type 0 where
  pub input_count : ℕ
  pub output_count : ℕ
  pub op_return_bytes : ℕ
  pub output_sats : ℕ
  pub witness_bytes : ℕ

unfoldable pub new_structure :
    (input_count output_count op_return_bytes output_sats witness_bytes : ℕ)
    → Result ModelError TransactionStructure
unfolding check_safe
new_structure input_count output_count op_return_bytes output_sats witness_bytes = do
  reject (input_count == 0 || output_count == 0)
      (empty_transaction_structure input_count output_count)
  check_safe (
      ("input_count", input_count)
      ∷ ("output_count", output_count)
      ∷ ("op_return_bytes", op_return_bytes)
      ∷ ("output_sats", output_sats)
      ∷ ("witness_bytes", witness_bytes)
      ∷ [])
  ok (record {
    input_count = input_count;
    output_count = output_count;
    op_return_bytes = op_return_bytes;
    output_sats = output_sats;
    witness_bytes = witness_bytes;
  })

pub record MempoolEntry : Type 0 where
  pub txid : String
  pub wtxid : String
  pub vsize : ℕ
  pub weight : ℕ
  pub fee_sats : ℕ
  pub entered_at_ms : ℕ
  pub ancestor_count : ℕ
  pub ancestor_vsize : ℕ
  pub ancestor_fee_sats : ℤ
  pub descendant_count : ℕ
  pub descendant_vsize : ℕ
  pub replaceable : Bool
  pub structure : Option TransactionStructure
  pub classifications : List ClassificationResult
  pub bip110 : Option Bip110Assessment

-- The entry that passes the tests.
abbrev pub entry_of :
    (txid wtxid : String) (vsize fee_sats entered_at_ms : ℕ) → MembershipFacts → MempoolEntry
entry_of txid wtxid vsize fee_sats entered_at_ms facts = record {
  txid = txid;
  wtxid = wtxid;
  vsize = vsize;
  weight = facts.weight;
  fee_sats = fee_sats;
  entered_at_ms = entered_at_ms;
  ancestor_count = facts.ancestor_count;
  ancestor_vsize = facts.ancestor_vsize;
  ancestor_fee_sats = facts.ancestor_fee_sats;
  descendant_count = facts.descendant_count;
  descendant_vsize = facts.descendant_vsize;
  replaceable = facts.replaceable;
  structure = none;
  classifications = [];
  bip110 = none;
}

unfoldable pub new_variant :
    (txid wtxid : String) (vsize fee_sats entered_at_ms : ℕ)
    → MembershipFacts
    → Result ModelError MempoolEntry
unfolding check_safe
new_variant txid wtxid vsize fee_sats entered_at_ms facts = do
  reject (vsize == 0) zero_vsize
  check_safe (
      ("vsize", vsize)
      ∷ ("fee_sats", fee_sats)
      ∷ ("entered_at_ms", entered_at_ms)
      ∷ ("weight", facts.weight)
      ∷ ("ancestor_count", facts.ancestor_count)
      ∷ ("ancestor_vsize", facts.ancestor_vsize)
      ∷ ("descendant_count", facts.descendant_count)
      ∷ ("descendant_vsize", facts.descendant_vsize)
      ∷ [])
  reject (ltb max_safe_json_integer (unsigned_abs facts.ancestor_fee_sats))
      (unsafe_signed_json_integer "ancestor_fee_sats" facts.ancestor_fee_sats)
  reject (facts.weight == 0 || ltb (saturating_times_4 vsize) facts.weight)
      (inconsistent_weight vsize facts.weight)
  reject
      (facts.ancestor_count == 0
        || (facts.descendant_count == 0
            || (ltb facts.ancestor_vsize vsize || ltb facts.descendant_vsize vsize)))
      (inconsistent_ancestry vsize facts.ancestor_count facts.ancestor_vsize facts.descendant_count
        facts.descendant_vsize)
  ok (entry_of txid wtxid vsize fee_sats entered_at_ms facts)

-- `MempoolEntry::new`
unfoldable pub new_entry :
    (txid : String) (vsize fee_sats entered_at_ms : ℕ) → Result ModelError MempoolEntry
unfolding new_variant solitary
new_entry txid vsize fee_sats entered_at_ms =
    new_variant txid txid vsize fee_sats entered_at_ms (solitary vsize fee_sats)
