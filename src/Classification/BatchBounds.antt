-- ===== src/Classification/BatchBounds.antt =====
-- The batches cover what is asked for, within their bounds.
use mempool_atlas.Prelude.{
  ℕ, ◌+◌, ◌-◌, ◌^◌, ◌≤◌, ◌<◌, ◌≡◌, refl, ap, subst, ◌⊎◌, inl, inr, Bool, true, false, ◌&&◌, ◌||◌,
  List, [], ◌∷◌, ◌++◌, length, ltb, leb, Bool-cases, arith,
}
use mempool_atlas.Classification.Batches.{
  ExpectedVariant, Taken, saturate, estimated_raw_response_bytes, take_within,
}

abbrev pub total_bytes : List ExpectedVariant → ℕ
total_bytes [] = 0
total_bytes (v ∷ vs) = estimated_raw_response_bytes v + total_bytes vs

-- What is left starts with a variant that did not fit, or is empty.
abbrev pub Stopped : (limit maximum count estimated : ℕ) → List ExpectedVariant → Type 0
Stopped limit maximum count estimated [] = Unit
Stopped limit maximum count estimated (v ∷ vs) =
    (limit ≤ count) ⊎ (maximum < estimated + estimated_raw_response_bytes v)

-- The bounds that hold once one variant was taken.
pub record Bounds (limit maximum count estimated : ℕ) (variants : List ExpectedVariant) (t : Taken)
    : Type 0 where
  pub joined : t.batch ++ t.rest ≡ variants
  pub fits_count : count + length t.batch ≤ limit
  pub fits_bytes : estimated + total_bytes t.batch ≤ maximum
  pub stopped :
      Stopped limit maximum (count + length t.batch) (estimated + total_bytes t.batch) t.rest

Stopped-at :
    (limit maximum : ℕ) (rest : List ExpectedVariant) {c c' e e' : ℕ}
    → c ≡ c'
    → e ≡ e'
    → Stopped limit maximum c e rest
    → Stopped limit maximum c' e' rest
Stopped-at limit maximum rest {c' = c'} {e = e} p q h =
    subst (λ x. Stopped limit maximum c' x rest) q (subst (λ x. Stopped limit maximum x e rest) p h)

took :
    (limit maximum count estimated : ℕ) (v : ExpectedVariant) (vs : List ExpectedVariant)
    (t : Taken)
    → Bounds limit maximum (count + 1) (estimated + estimated_raw_response_bytes v) vs t
    → Bounds limit maximum count estimated (v ∷ vs) (record { batch = v ∷ t.batch; rest = t.rest })
took limit maximum count estimated v vs t b = record {
  joined = ap (◌∷◌ v) b.joined;
  fits_count = omega (arith, b.fits_count);
  fits_bytes = omega (arith, b.fits_bytes);
  stopped = Stopped-at limit maximum t.rest (omega arith) (omega arith) b.stopped;
}

stops :
    (limit maximum count estimated bytes : ℕ)
    → (leb limit count || (ltb 0 count && ltb maximum (saturate (estimated + bytes)))) ≡ true
    → (limit ≤ count) ⊎ (maximum < estimated + bytes)
stops limit maximum count estimated bytes h = ground arith

goes_on :
    (limit maximum count estimated bytes : ℕ)
    → maximum < 2 ^ 64 - 1
    → 1 ≤ count
    → (leb limit count || (ltb 0 count && ltb maximum (saturate (estimated + bytes)))) ≡ false
    → (count + 1 ≤ limit)
      × (estimated + bytes ≤ maximum)
      × (saturate (estimated + bytes) ≡ estimated + bytes)
goes_on limit maximum count estimated bytes small c h = ground arith

take_within-Bounds :
    (limit maximum count estimated : ℕ) (variants : List ExpectedVariant)
    → maximum < 2 ^ 64 - 1
    → 1 ≤ count
    → count ≤ limit
    → estimated ≤ maximum
    → Bounds limit maximum count estimated variants
        (take_within limit maximum count estimated variants)
unfolding take_within
take_within-Bounds limit maximum count estimated [] small c l e = record {
  joined = refl;
  fits_count = omega (arith, l);
  fits_bytes = omega (arith, e);
  stopped = tt;
}
take_within-Bounds limit maximum count estimated (v ∷ vs) small c l e =
    elim (Bool-cases (
      leb limit count
      || (ltb 0 count && ltb maximum (saturate (estimated + estimated_raw_response_bytes v))))) [
        | inl stop ↦ rw stop (record {
          joined = refl;
          fits_count = omega (arith, l);
          fits_bytes = omega (arith, e);
          stopped =
              Stopped-at limit maximum (v ∷ vs) (omega arith) (omega arith)
                (stops limit maximum count estimated (estimated_raw_response_bytes v) stop);
        })
        | inr go ↦
            let (n, b, exact) =
              goes_on limit maximum count estimated (estimated_raw_response_bytes v) small c go in
            rw (go, exact)
              (took limit maximum count estimated v vs _ (
                take_within-Bounds limit maximum (count + 1)
                  (estimated + estimated_raw_response_bytes v) vs small (omega arith) n b))
      ]

-- A first part of the variants, as long as the bounds allow. A variant that alone exceeds the
-- bytes is taken alone.
pub record Batched (limit maximum : ℕ) (variants batch rest : List ExpectedVariant) : Type 0 where
  pub joined : batch ++ rest ≡ variants
  pub fits_count : length batch ≤ limit
  pub fits_bytes : (total_bytes batch ≤ maximum) ⊎ (length batch ≡ 1)
  pub stopped : Stopped limit maximum (length batch) (total_bytes batch) rest

abbrev pub BatchedTaken : (limit maximum : ℕ) → List ExpectedVariant → Taken → Type 0
BatchedTaken limit maximum variants t = Batched limit maximum variants t.batch t.rest

full :
    (limit maximum e bytes : ℕ)
    → maximum < 2 ^ 64 - 1
    → maximum < e
    → (leb limit 1 || (ltb 0 1 && ltb maximum (saturate (e + bytes)))) ≡ true
full limit maximum e bytes small big = ground arith

alone :
    (limit maximum : ℕ) (v : ExpectedVariant) (vs : List ExpectedVariant)
    → maximum < 2 ^ 64 - 1
    → 1 ≤ limit
    → maximum < estimated_raw_response_bytes v
    → BatchedTaken limit maximum (v ∷ vs) (record {
      batch = v ∷ (take_within limit maximum 1 (estimated_raw_response_bytes v) vs).batch;
      rest = (take_within limit maximum 1 (estimated_raw_response_bytes v) vs).rest;
    })
unfolding take_within
alone limit maximum v [] small l big = record {
  joined = refl;
  fits_count = omega (arith, l);
  fits_bytes = inr refl;
  stopped = tt;
}
alone limit maximum v (w ∷ ws) small l big =
    rw
      (full limit maximum (estimated_raw_response_bytes v) (estimated_raw_response_bytes w) small
        big)
      (record {
        joined = refl;
        fits_count = omega (arith, l);
        fits_bytes = inr refl;
        stopped = inr (omega (arith, big));
      })

within_bytes :
    (limit maximum : ℕ) (v : ExpectedVariant) (vs : List ExpectedVariant) (t : Taken)
    → Bounds limit maximum 1 (estimated_raw_response_bytes v) vs t
    → BatchedTaken limit maximum (v ∷ vs) (record { batch = v ∷ t.batch; rest = t.rest })
within_bytes limit maximum v vs t b = record {
  joined = ap (◌∷◌ v) b.joined;
  fits_count = omega (arith, b.fits_count);
  fits_bytes = inl (omega (arith, b.fits_bytes));
  stopped = Stopped-at limit maximum t.rest (omega arith) refl b.stopped;
}

bytes-le : (v : ExpectedVariant) → estimated_raw_response_bytes v ≤ 2 ^ 64 - 1
unfolding estimated_raw_response_bytes
bytes-le v = omega arith

starts : (limit : ℕ) (b : Bool) → 1 ≤ limit → (leb limit 0 || (ltb 0 0 && b)) ≡ false
starts limit b l = ground arith

abbrev pub first_taken : (limit maximum : ℕ) → ExpectedVariant → List ExpectedVariant → Taken
first_taken limit maximum v vs = record {
  batch = v ∷ (take_within limit maximum 1 (estimated_raw_response_bytes v) vs).batch;
  rest = (take_within limit maximum 1 (estimated_raw_response_bytes v) vs).rest;
}

zero-plus :
    (v : ExpectedVariant)
    → saturate (0 + estimated_raw_response_bytes v) ≡ estimated_raw_response_bytes v
zero-plus v = omega (arith, bytes-le v)

pub take_within-first :
    (limit maximum : ℕ) (v : ExpectedVariant) (vs : List ExpectedVariant)
    → 1 ≤ limit
    → take_within limit maximum 0 0 (v ∷ vs) ≡ first_taken limit maximum v vs
unfolding take_within
take_within-first limit maximum v vs l =
    rw (starts limit (ltb maximum (saturate (0 + estimated_raw_response_bytes v))) l, zero-plus v)
      refl

pub first_taken-Batched :
    (limit maximum : ℕ) (v : ExpectedVariant) (vs : List ExpectedVariant)
    → maximum < 2 ^ 64 - 1
    → 1 ≤ limit
    → BatchedTaken limit maximum (v ∷ vs) (first_taken limit maximum v vs)
first_taken-Batched limit maximum v vs small l =
    elim (Bool-cases (ltb maximum (estimated_raw_response_bytes v))) [
      | inl big ↦ alone limit maximum v vs small l (ground arith)
      | inr ok ↦ within_bytes limit maximum v vs _ (
          take_within-Bounds limit maximum 1 (estimated_raw_response_bytes v) vs small (omega arith)
            l (ground arith))
    ]
