-- ===== src/Classification/Batches.antt =====
-- src/classification.rs: how many variants one slice and one request ask the node for.
use Prim.Native.String.{String}
use mempool_atlas.Prelude.{
  ℕ, zero, suc, ◌+◌, ◌*◌, ◌-◌, ◌^◌, min, ◌&&◌, ◌||◌, Option, none, some, List, [], ◌∷◌, is_empty,
  ltb, leb, if◌then◌else◌,
}

abbrev pub raw_transaction_batch_size : ℕ
raw_transaction_batch_size = 256

abbrev pub max_batch_response_bytes : ℕ
max_batch_response_bytes = 16 * 1024 * 1024

abbrev pub max_raw_response_bytes_per_slice : ℕ
max_raw_response_bytes_per_slice = 256 * 1024 * 1024

abbrev pub estimated_json_bytes_per_response : ℕ
estimated_json_bytes_per_response = 512

-- A `usize` has 64 bits.
abbrev pub saturate : ℕ → ℕ
saturate n = min n (2 ^ 64 - 1)

pub record ExpectedVariant : Type 0 where
  pub txid : String
  pub wtxid : String
  pub vsize : ℕ

unfoldable pub estimated_raw_response_bytes : ExpectedVariant → ℕ
estimated_raw_response_bytes expected =
    saturate (saturate (saturate expected.vsize * 8) + estimated_json_bytes_per_response)

-- The list that is taken, and what is left.
pub record Taken : Type 0 where
  pub batch : List ExpectedVariant
  pub rest : List ExpectedVariant

-- The loop of both `bounded_variants` and `next_raw_transaction_batch`: variants are taken while
-- there are fewer than the limit, and while their estimated bytes fit; the first is always taken.
unfoldable pub take_within : (limit maximum count estimated : ℕ) → List ExpectedVariant → Taken
unfolding estimated_raw_response_bytes
take_within limit maximum count estimated [] = record { batch = []; rest = [] }
take_within limit maximum count estimated (variant ∷ variants) =
    let bytes = estimated_raw_response_bytes variant in
    let later = take_within limit maximum (count + 1) (saturate (estimated + bytes)) variants in
    if leb limit count || (ltb 0 count && ltb maximum (saturate (estimated + bytes)))
    then record { batch = []; rest = variant ∷ variants }
    else record { batch = variant ∷ later.batch; rest = later.rest }

unfoldable pub bounded_variants : List ExpectedVariant → ℕ → List ExpectedVariant
unfolding take_within
bounded_variants variants maximum_entries =
    (take_within maximum_entries max_raw_response_bytes_per_slice 0 0 variants).batch

-- `(!batch.is_empty()).then_some(batch)`, with what remains.
abbrev pub batch_of_taken : Taken → Option (List ExpectedVariant) × List ExpectedVariant
batch_of_taken taken = (if is_empty taken.batch then none else some taken.batch, taken.rest)

-- The iterator is the list of what remains in it.
unfoldable pub next_raw_transaction_batch :
    List ExpectedVariant → Option (List ExpectedVariant) × List ExpectedVariant
unfolding take_within
next_raw_transaction_batch remaining =
    batch_of_taken (take_within raw_transaction_batch_size max_batch_response_bytes 0 0 remaining)

-- One more batch before the later ones, or the end.
abbrev pub batches_with :
    Option (List ExpectedVariant)
    → Option (List (List ExpectedVariant))
    → Option (List (List ExpectedVariant))
batches_with none later = some []
batches_with (some batch) none = none
batches_with (some batch) (some later) = some (batch ∷ later)

-- `from_fn(…).collect()`, on fuel; `none` is fuel that ran out.
unfoldable pub raw_transaction_batches :
    ℕ → List ExpectedVariant → Option (List (List ExpectedVariant))
unfolding next_raw_transaction_batch
raw_transaction_batches zero expected = none
raw_transaction_batches (suc fuel) expected =
    batches_with (next_raw_transaction_batch expected).0
      (raw_transaction_batches fuel (next_raw_transaction_batch expected).1)
