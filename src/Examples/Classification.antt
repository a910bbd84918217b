-- ===== src/Examples/Classification.antt =====
-- The theorems about the script cache and the batches at concrete inputs.
use mempool_atlas.Prelude.{ℕ, ◌-◌, ◌≤◌, refl, List, [], ◌∷◌, arith}
use mempool_atlas.Classification.Batches.{
  ExpectedVariant, bounded_variants, raw_transaction_batches, max_raw_response_bytes_per_slice,
}
use mempool_atlas.Classification.BatchBounds.{Batched}
use mempool_atlas.Classification.BatchCover.{
  Covers, bounded_variants-Batched, raw_transaction_batches-Covers,
}
use mempool_atlas.Classification.Cache.{OutPoint, ConfirmedScriptCache, insert, reserve_for_outputs}
use mempool_atlas.Classification.CacheInsert.{
  IsBounded, Inserted, StaysBounded, insert-Inserted, reserve_for_outputs-StaysBounded,
}

abbrev variant : ℕ → ExpectedVariant
variant vsize = record { txid = "aa"; wtxid = "ab"; vsize = vsize }

-- The second does not fit into a response together with the first.
abbrev variants : List ExpectedVariant
variants = variant 1_000_000 ∷ variant 1_500_000 ∷ variant 100 ∷ []

bounded_variants-Batched_example :
    (rest : List ExpectedVariant) × Batched 2 max_raw_response_bytes_per_slice variants
      (bounded_variants variants 2)
      rest
bounded_variants-Batched_example = bounded_variants-Batched variants 2

raw_transaction_batches-Covers_example : Covers variants (raw_transaction_batches 4 variants)
raw_transaction_batches-Covers_example = raw_transaction_batches-Covers 4 variants (omega arith)

abbrev outpoint : ℕ → OutPoint
outpoint vout = record { txid = 1 ∷ 2 ∷ []; vout = vout }

-- One script of one byte is cached.
abbrev cache : ConfirmedScriptCache
cache = record {
  entries = (outpoint 0, record { script = 7 ∷ []; estimated_bytes = 513; stamp = 0 }) ∷ [];
  lru = (0, outpoint 0) ∷ [];
  estimated_bytes = 513;
  maximum_bytes = 1200;
  next_stamp = 1;
}

cache-IsBounded : IsBounded cache
cache-IsBounded = record {
  accounted = record { counted = refl; unique = (refl, tt) };
  within_bound = omega arith;
}

insert-Inserted_example :
    Inserted (outpoint 1) (8 ∷ 9 ∷ []) 300 cache (insert (outpoint 1) (8 ∷ 9 ∷ []) 300 cache)
    × StaysBounded cache (insert (outpoint 1) (8 ∷ 9 ∷ []) 300 cache).1
insert-Inserted_example =
    insert-Inserted (outpoint 1) (8 ∷ 9 ∷ []) 300 cache cache-IsBounded (omega arith)

reserve_for_outputs-StaysBounded_example :
    StaysBounded cache (reserve_for_outputs 800 cache)
    × ((reserve_for_outputs 800 cache).estimated_bytes ≤ 1200 - 800)
reserve_for_outputs-StaysBounded_example =
    reserve_for_outputs-StaysBounded 800 cache cache-IsBounded
