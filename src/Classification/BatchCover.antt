-- ===== src/Classification/BatchCover.antt =====
-- The batches put together are what is asked for.
use mempool_atlas.Prelude.{
  ℕ, zero, suc, ◌≤◌, ◌<◌, ◌≡◌, refl, sym, ◌∙◌, ap, subst, ◌⊎◌, inl, Option, none, some, List, [],
  ◌∷◌, ◌++◌, length, length-append, All, arith,
}
use mempool_atlas.Classification.Batches.{
  ExpectedVariant, batch_of_taken, batches_with, take_within, bounded_variants,
  next_raw_transaction_batch, raw_transaction_batches, raw_transaction_batch_size,
  max_batch_response_bytes, max_raw_response_bytes_per_slice,
}
use mempool_atlas.Classification.BatchBounds.{
  total_bytes, Batched, BatchedTaken, take_within-first, first_taken-Batched,
}

bounded-Batched :
    (variants : List ExpectedVariant) (limit : ℕ)
    → BatchedTaken limit max_raw_response_bytes_per_slice variants
        (take_within limit max_raw_response_bytes_per_slice 0 0 variants)
unfolding take_within
bounded-Batched [] limit = record {
  joined = refl;
  fits_count = omega arith;
  fits_bytes = inl (omega arith);
  stopped = tt;
}
bounded-Batched (v ∷ vs) zero = record {
  joined = refl;
  fits_count = omega arith;
  fits_bytes = inl (omega arith);
  stopped = inl (omega arith);
}
bounded-Batched (v ∷ vs) (suc n) =
    rw (take_within-first (suc n) max_raw_response_bytes_per_slice v vs (omega arith)) (
      first_taken-Batched (suc n) max_raw_response_bytes_per_slice v vs (omega arith) (omega arith))

-- The variants of a slice are a first part of those offered: at most so many, and with estimated
-- responses of at most 256 MiB together, or a single variant. They end where no variant is left,
-- the number is reached or the next one would exceed the bytes.
pub bounded_variants-Batched :
    (variants : List ExpectedVariant) (maximum_entries : ℕ)
    → (rest : List ExpectedVariant) × Batched maximum_entries max_raw_response_bytes_per_slice
        variants
        (bounded_variants variants maximum_entries)
        rest
unfolding bounded_variants
bounded_variants-Batched variants maximum_entries = (_, bounded-Batched variants maximum_entries)

-- The outcomes of a request for the next batch.
pub data NextBatch (remaining : List ExpectedVariant)
    (r : Option (List ExpectedVariant) × List ExpectedVariant) : Type 0 where
  exhausted : remaining ≡ [] → r ≡ (none, []) → NextBatch remaining r
  batch_of :
      (v : ExpectedVariant) (vs rest : List ExpectedVariant)
      → r ≡ (some (v ∷ vs), rest)
      → Batched raw_transaction_batch_size max_batch_response_bytes remaining (v ∷ vs) rest
      → NextBatch remaining r

next_batch :
    (remaining : List ExpectedVariant) → NextBatch remaining (next_raw_transaction_batch remaining)
unfolding next_raw_transaction_batch
next_batch [] = exhausted refl refl
next_batch (v ∷ vs) =
    subst (λ t. NextBatch (v ∷ vs) (batch_of_taken t))
      (sym
        (take_within-first raw_transaction_batch_size max_batch_response_bytes v vs (omega arith)))
      (batch_of v _ _ refl (
        first_taken-Batched raw_transaction_batch_size max_batch_response_bytes v vs (omega arith)
          (omega arith)))

abbrev pub concat : List (List ExpectedVariant) → List ExpectedVariant
concat [] = []
concat (b ∷ bs) = b ++ concat bs

-- Each batch is not empty and keeps the bounds of one request.
abbrev pub IsRequest : List ExpectedVariant → Type 0
IsRequest batch =
    (1 ≤ length batch)
    × (length batch ≤ 256)
    × ((total_bytes batch ≤ max_batch_response_bytes) ⊎ (length batch ≡ 1))

pub data Covers (expected : List ExpectedVariant) (r : Option (List (List ExpectedVariant)))
    : Type 0 where
  batches :
      (bs : List (List ExpectedVariant))
      → r ≡ some bs
      → concat bs ≡ expected
      → All IsRequest bs
      → Covers expected r

Covers-more :
    (expected batch rest : List ExpectedVariant) (later : Option (List (List ExpectedVariant)))
    → batch ++ rest ≡ expected
    → IsRequest batch
    → Covers rest later
    → Covers expected (batches_with (some batch) later)
Covers-more expected batch rest later p r (batches bs e c a) =
    batches (batch ∷ bs) (rw e refl) (ap (◌++◌ batch) c ∙ p) (r, a)

shorter :
    (fuel : ℕ) (expected : List ExpectedVariant) (v : ExpectedVariant)
    (vs rest : List ExpectedVariant)
    → (v ∷ vs) ++ rest ≡ expected
    → length expected < suc fuel
    → length rest < fuel
shorter fuel expected v vs rest p h = omega (arith, ap length p, length-append (v ∷ vs) rest, h)

raw_transaction_batches-suc :
    (fuel : ℕ) (expected : List ExpectedVariant)
    → raw_transaction_batches (suc fuel) expected
      ≡ batches_with
          (next_raw_transaction_batch expected).0
          (raw_transaction_batches fuel (next_raw_transaction_batch expected).1)
unfolding raw_transaction_batches
raw_transaction_batches-suc fuel expected = refl

-- The requests cover all expected variants, each once and in order, and every request keeps to
-- 256 variants and to 16 MiB of estimated response, unless it is for one variant alone. As much
-- fuel as variants, and one, is enough.
pub raw_transaction_batches-Covers :
    (fuel : ℕ) (expected : List ExpectedVariant)
    → length expected < fuel
    → Covers expected (raw_transaction_batches fuel expected)
raw_transaction_batches-Covers zero expected h = absurd (omega (arith, h))
raw_transaction_batches-Covers (suc fuel) expected h = elim (next_batch expected) [
  | exhausted p e ↦ rw (raw_transaction_batches-suc fuel expected, e) (batches [] refl (sym p) tt)
  | batch_of v vs rest e b ↦
      rw (raw_transaction_batches-suc fuel expected, e)
        (Covers-more expected (v ∷ vs) rest (raw_transaction_batches fuel rest) b.joined
          (omega arith, b.fits_count, b.fits_bytes)
          (raw_transaction_batches-Covers fuel rest (shorter fuel expected v vs rest b.joined h)))
]
