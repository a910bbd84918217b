-- ===== src/Pending/WaveEnds.antt =====
-- The waves of src/classification.rs end, and ask for no more than their limit.
use Prim.Native.String.{String}
use mempool_atlas.Prelude.{
  ℕ, zero, suc, ◌+◌, ◌*◌, ◌-◌, ◌≤◌, ◌<◌, ◌≡◌, refl, sym, subst, ◌⊎◌, inl, inr, true, false, not,
  ◌||◌, max, Option, none, some, List, [], ◌∷◌, ◌++◌, length, Bytes, Bool-cases, arith, ltb, leb,
  ◌==◌, if◌then◌else◌,
}
use mempool_atlas.Classification.Batches.{ExpectedVariant}
use mempool_atlas.Classification.Cache.{OutPoint}
use mempool_atlas.Classification.Report.{ResolverLimits, estimated_gettxout_response_bytes}
use mempool_atlas.Pending.State.{CurrentVariant, Variants, PendingSlice, get_variant, get_active}
use mempool_atlas.Pending.Waves.{
  Wave, round, rounds, rotate, start_wave, select_outpoint, search_confirmed, confirmed_turn,
  confirmed_wave_limit, next_confirmed_wave, Parent, variant_of, select_parent, select_found,
  search_parent, parent_turn, next_parent_wave, with_cursor,
}

length-snoc : {A : Type 0} (xs : List A) (x : A) → length (xs ++ x ∷ []) ≡ length xs + 1
length-snoc [] x = refl
length-snoc (y ∷ xs) x = let ih = length-snoc xs x in omega (arith, ih)

-- A turn selects one more, and says so, or nothing.
abbrev pub IsTurn : {A : Type 0} → (maximum : ℕ) → Wave A → Wave A → Type 0
IsTurn maximum wave turned =
    ((length turned.selected ≡ length wave.selected)
      × (turned.is_full ≡ wave.is_full)
      × (turned.added_this_round ≡ wave.added_this_round))
    ⊎ ((length turned.selected ≡ length wave.selected + 1)
        × (turned.added_this_round ≡ true)
        × (turned.is_full ≡ leb maximum (length wave.selected + 1)))

-- A round that is not full yet stays below the limit, and selects more where it says so.
abbrev pub IsRound : {A : Type 0} → (maximum : ℕ) → Wave A → Wave A → Type 0
IsRound maximum wave done =
    (length wave.selected ≤ length done.selected)
    × (length done.selected ≤ maximum)
    × ((done.is_full ≡ true) ⊎ ((done.is_full ≡ false) × (length done.selected < maximum)))
    × ((done.added_this_round ≡ wave.added_this_round)
        ⊎ (length wave.selected < length done.selected))

List-cases : {A : Type 0} (xs : List A) → (xs ≡ []) ⊎ ((x : A) × (ys : List A) × (xs ≡ x ∷ ys))
List-cases [] = inl refl
List-cases (x ∷ xs) = inr (x, xs, refl)

module _ {A : Type 0} (maximum : ℕ) (turn : String → Wave A → Wave A)
    (turns : (key : String) (wave : Wave A) → IsTurn maximum wave (turn key wave)) where
  turned-IsRound :
      (wave turned later : Wave A)
      → wave.is_full ≡ false
      → length wave.selected < maximum
      → IsTurn maximum wave turned
      → (turned.is_full ≡ false → length turned.selected < maximum → IsRound maximum turned later)
      → IsRound maximum wave (if turned.is_full then turned else later)
  turned-IsRound wave turned later full small t next = elim (Bool-cases turned.is_full) [
    | inl f ↦ rw f (ground arith)
    | inr f ↦
        let below : length turned.selected < maximum = ground arith in
        let n = next f below in rw f (ground arith)
  ]

  round-nil :
      (count : ℕ) (wave : Wave A)
      → wave.pending.fair_order ≡ []
      → round (suc count) turn wave ≡ wave
  unfolding round
  round-nil count wave h = ground arith

  turn_of : (key : String) (keys : List String) → Wave A → Wave A
  turn_of key keys wave = turn key (record wave { pending = rotate key keys wave.pending })

  round-cons :
      (count : ℕ) (wave : Wave A) (key : String) (keys : List String)
      → wave.pending.fair_order ≡ key ∷ keys
      → round (suc count) turn wave ≡ (
          if (turn_of key keys wave).is_full
          then turn_of key keys wave
          else round count turn (turn_of key keys wave))
  unfolding round turn_of
  round-cons count wave key keys h = ground arith

  turn_of-IsTurn :
      (key : String) (keys : List String) (wave : Wave A)
      → IsTurn maximum wave (turn_of key keys wave)
  unfolding turn_of
  turn_of-IsTurn key keys wave = turns key (record wave { pending = rotate key keys wave.pending })

  round-IsRound :
      (count : ℕ) (wave : Wave A)
      → wave.is_full ≡ false
      → length wave.selected < maximum
      → IsRound maximum wave (round count turn wave)
  unfolding round
  round-IsRound zero wave full small =
      (omega arith, omega (arith, small), inr (full, small), inl refl)
  round-IsRound (suc count) wave full small = elim (List-cases wave.pending.fair_order) [
    | inl empty ↦
        subst (IsRound maximum wave) (sym (round-nil count wave empty))
          (omega arith, omega (arith, small), inr (full, small), inl refl)
    | inr (key, keys, h) ↦ subst (IsRound maximum wave) (sym (round-cons count wave key keys h)) (
        turned-IsRound wave (turn_of key keys wave) (round count turn (turn_of key keys wave)) full
          small (turn_of-IsTurn key keys wave) (round-IsRound count (turn_of key keys wave)))
  ]

  -- Fuel above what may still be selected is enough.
  rounds-some :
      (fuel : ℕ) (wave : Wave A)
      → wave.is_full ≡ false
      → length wave.selected < maximum
      → maximum < fuel + length wave.selected
      → (done : Wave A) × (rounds fuel turn wave ≡ some done) × (length done.selected ≤ maximum)
  unfolding rounds
  rounds-some zero wave full small enough = absurd (omega (arith, small, enough))
  rounds-some (suc fuel) wave full small enough =
      let begun : Wave A = record wave { added_this_round = false } in
      let done : Wave A = round (length wave.pending.fair_order) turn begun in
      let (grows, bounded, ends, adds) =
        round-IsRound (length wave.pending.fair_order) begun full small in
      elim (Bool-cases (done.is_full || not done.added_this_round)) [
        | inl stop ↦ (done, rw stop refl, bounded)
        | inr go ↦
            let open_still : done.is_full ≡ false = ground arith in
            let more : done.added_this_round ≡ true = ground arith in
            let below : length done.selected < maximum = ground arith in
            let grew : length wave.selected < length done.selected = ground arith in
            let (last, found, few) =
              rounds-some fuel done open_still below (omega (arith, grew, enough)) in
            (last, rw (go, found) refl, few)
      ]

select_outpoint-IsTurn :
    (maximum : ℕ) (key : String) (wave : Wave OutPoint) (choice : Option (OutPoint × ℕ))
    → IsTurn maximum wave (select_outpoint maximum key wave choice)
select_outpoint-IsTurn maximum key wave none = inl (refl, refl, refl)
select_outpoint-IsTurn maximum key wave (some (o, cursor)) =
    inr (length-snoc wave.selected o, refl, refl)

confirmed_turn-IsTurn :
    (maximum : ℕ) (key : String) (wave : Wave OutPoint)
    → IsTurn maximum wave (confirmed_turn maximum key wave)
unfolding confirmed_turn
confirmed_turn-IsTurn maximum key wave =
    select_outpoint-IsTurn maximum key wave
      (search_confirmed (get_active key wave.pending.active) wave.pending.facts wave.selected)

select_parent-IsTurn :
    (maximum : ℕ) (txid : Bytes) (expected : ExpectedVariant) (moved : PendingSlice)
    (wave : Wave Parent)
    → IsTurn maximum wave (select_parent maximum txid expected moved wave)
select_parent-IsTurn maximum txid expected moved wave =
    let longer = length-snoc wave.selected (txid, expected) in ground (arith, longer)

variant_found-IsTurn :
    (show_txid : Bytes → String) (maximum : ℕ) (txid : Bytes) (moved : PendingSlice)
    (wave : Wave Parent) (variant : Option CurrentVariant)
    → IsTurn maximum wave (elim variant [
      | none ↦ record wave { pending = moved }
      | some v ↦ select_parent maximum txid (variant_of show_txid txid v) moved wave
    ])
variant_found-IsTurn show_txid maximum txid moved wave none = inl (refl, refl, refl)
variant_found-IsTurn show_txid maximum txid moved wave (some v) =
    select_parent-IsTurn maximum txid (variant_of show_txid txid v) moved wave

select_found-IsTurn :
    (show_txid : Bytes → String) (variants : Variants) (maximum : ℕ) (key : String)
    (wave : Wave Parent) (choice : Option (OutPoint × ℕ))
    → IsTurn maximum wave (select_found show_txid variants maximum key wave choice)
select_found-IsTurn show_txid variants maximum key wave none = inl (refl, refl, refl)
select_found-IsTurn show_txid variants maximum key wave (some (o, cursor)) =
    variant_found-IsTurn show_txid maximum o.txid (with_cursor key cursor wave.pending) wave
      (get_variant o.txid variants)

parent_turn-IsTurn :
    (show_txid : Bytes → String) (variants : Variants) (maximum : ℕ) (key : String)
    (wave : Wave Parent)
    → IsTurn maximum wave (parent_turn show_txid variants maximum key wave)
unfolding parent_turn
parent_turn-IsTurn show_txid variants maximum key wave =
    select_found-IsTurn show_txid variants maximum key wave
      (search_parent (get_active key wave.pending.active) wave.pending.facts wave.selected)

confirmed_wave_limit-bounds :
    (limits : ResolverLimits) (pending : PendingSlice)
    → (confirmed_wave_limit limits pending ≤ max limits.max_confirmed_prevouts_per_wave 1)
      × ((confirmed_wave_limit limits pending ≤ 1)
          ⊎ (confirmed_wave_limit limits pending * estimated_gettxout_response_bytes
              ≤ limits.max_pending_script_bytes - pending.pending_script_bytes))
unfolding confirmed_wave_limit
confirmed_wave_limit-bounds limits pending = ground arith

fits_fewer :
    (n m available : ℕ)
    → n ≤ m
    → (m ≤ 1) ⊎ (m * estimated_gettxout_response_bytes ≤ available)
    → (n ≤ 1) ⊎ (n * estimated_gettxout_response_bytes ≤ available)
fits_fewer n m available h (inl a) = inl (omega (arith, h, a))
fits_fewer n m available h (inr b) = inr (omega (arith, h, b))

-- A wave for confirmed outpoints ends by as many rounds as one more than its limit of outpoints. It
-- asks for at most that many, or for one under a limit of none; and it asks for at most one, or its
-- answers are estimated to fit in what the retained scripts leave of their limit.
pub next_confirmed_wave-some :
    (fuel : ℕ) (limits : ResolverLimits) (pending : PendingSlice)
    → max limits.max_confirmed_prevouts_per_wave 1 < fuel
    → (os : List OutPoint) × (left : PendingSlice) × (next_confirmed_wave fuel limits pending
        ≡ some (os, left))
      × (length os ≤ max limits.max_confirmed_prevouts_per_wave 1)
      × ((length os ≤ 1)
          ⊎ (length os * estimated_gettxout_response_bytes
              ≤ limits.max_pending_script_bytes - pending.pending_script_bytes))
unfolding next_confirmed_wave
next_confirmed_wave-some fuel limits pending enough =
    let maximum = confirmed_wave_limit limits pending in
    let (most, fits) = confirmed_wave_limit-bounds limits pending in
    elim (Bool-cases (maximum == 0)) [
      | inl z ↦ ([], pending, rw z refl, omega arith, inl (omega arith))
      | inr n ↦
          let positive : 0 < maximum = ground arith in
          let (done, e, few) =
            rounds-some maximum (confirmed_turn maximum) (confirmed_turn-IsTurn maximum) fuel
              (start_wave pending) refl positive (omega (arith, most, enough)) in
          (
            done.selected,
            done.pending,
            rw (n, e) refl,
            omega (arith, few, most),
            fits_fewer (length done.selected) maximum
                (limits.max_pending_script_bytes - pending.pending_script_bytes) few fits,
          )
    ]

-- A wave for the parents in the mempool ends by as many rounds as one more than its limit, and asks
-- for at most that many parents, where the limit is not zero.
pub next_parent_wave-some :
    (fuel : ℕ) (show_txid : Bytes → String) (variants : Variants) (limits : ResolverLimits)
    (pending : PendingSlice)
    → 1 ≤ limits.max_parent_transactions_per_wave
    → limits.max_parent_transactions_per_wave < fuel
    → (parents : List Parent) × (left : PendingSlice) × (next_parent_wave fuel show_txid variants
          limits pending
        ≡ some (parents, left))
      × (length parents ≤ limits.max_parent_transactions_per_wave)
unfolding next_parent_wave
next_parent_wave-some fuel show_txid variants limits pending positive enough =
    let maximum = limits.max_parent_transactions_per_wave in
    elim (Bool-cases (ltb pending.pending_script_bytes limits.max_pending_script_bytes)) [
      | inr n ↦ ([], pending, rw n refl, omega arith)
      | inl t ↦
          let (done, e, few) =
            rounds-some maximum (parent_turn show_txid variants maximum)
              (parent_turn-IsTurn show_txid variants maximum) fuel (start_wave pending) refl
              positive (omega (arith, enough)) in
          (done.selected, done.pending, rw (t, e) refl, few)
    ]
