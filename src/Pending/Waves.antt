-- ===== src/Pending/Waves.antt =====
-- src/classification.rs: which facts the next wave of requests asks for, in turn over the candidates.
use Prim.Native.String.{String}
use text.Mathlib.Text.{◌==◌ as str_eq}
use mempool_atlas.Prelude.{
  ℕ, zero, suc, ◌+◌, ◌-◌, ◌/◌, ◌%◌, min, max, Bool, true, false, ◌&&◌, ◌||◌, not, Option, none,
  some, List, [], ◌∷◌, ◌++◌, any, length, is_empty, get_elem?, Bytes, bytes_eq, ltb, leb, ◌==◌,
  if◌then◌else◌,
}
use mempool_atlas.Classification.Batches.{
  ExpectedVariant, saturate, estimated_raw_response_bytes, max_raw_response_bytes_per_slice,
}
use mempool_atlas.Classification.Cache.{OutPoint}
use mempool_atlas.Classification.Report.{ResolverLimits, estimated_gettxout_response_bytes}
use mempool_atlas.Pending.State.{
  current_parent, confirmed, parent_fallback, FactState, awaiting, PendingCandidate, CurrentVariant,
  Variants, Facts, Active, PendingSlice, get_fact, get_variant, get_active, has_outpoint,
}
use mempool_atlas.Pending.Facts.{max_fact_attempts, record_fact_attempt, record_parent_attempt}

-- The loop over the offsets, of which `count` are left: the outpoint and the next cursor.
unfoldable pub search_facts :
    (count offset : ℕ)
    → PendingCandidate
    → Facts
    → (OutPoint → FactState → Bool)
    → Option (OutPoint × ℕ)
unfolding get_fact
search_facts zero offset candidate facts predicate = none
search_facts (suc count) offset candidate facts predicate =
    let size = length candidate.required in
    let index = saturate (candidate.fact_cursor + offset) % size in
    let later = search_facts count (offset + 1) candidate facts predicate in
    elim (get_elem? candidate.required index) [
      | none ↦ later
      | some o ↦ elim (get_fact o facts) [
        | none ↦ later
        | some state ↦ if predicate o state then some (o, (index + 1) % size) else later
      ]
    ]

unfoldable pub next_candidate_fact :
    PendingCandidate → Facts → (OutPoint → FactState → Bool) → Option (OutPoint × ℕ)
unfolding search_facts
next_candidate_fact candidate facts predicate =
    search_facts (length candidate.required) 0 candidate facts predicate

-- `active.get_mut(key)?.fact_cursor = cursor`
abbrev pub set_cursor : String → ℕ → Active → Active
set_cursor key cursor [] = []
set_cursor key cursor (p ∷ ps) =
    let rest = set_cursor key cursor ps in
    if str_eq p.0 key then (p.0, record (p.1) { fact_cursor = cursor }) ∷ ps else p ∷ rest

-- What the loops of a wave carry; `is_full` is the early return.
pub record Wave (A : Type 0) : Type 0 where
  pub pending : PendingSlice
  pub selected : List A
  pub estimated_bytes : ℕ
  pub is_full : Bool
  pub added_this_round : Bool

abbrev pub with_cursor : String → ℕ → PendingSlice → PendingSlice
with_cursor key cursor pending = record pending { active = set_cursor key cursor pending.active }

abbrev pub rotate : String → List String → PendingSlice → PendingSlice
rotate key keys pending = record pending { fair_order = keys ++ key ∷ [] }

-- `for _ in 0..candidate_count`: the front key goes to the back, and its candidate has a turn.
unfoldable pub round : {A : Type 0} → (count : ℕ) → (String → Wave A → Wave A) → Wave A → Wave A
round zero turn wave = wave
round (suc count) turn wave = elim wave.pending.fair_order [
  | [] ↦ wave
  | key ∷ keys ↦
      let turned = turn key (record wave { pending = rotate key keys wave.pending }) in
      let later = round count turn turned in if turned.is_full then turned else later
]

-- The outer loop, on fuel; `none` is fuel that ran out.
unfoldable pub rounds :
    {A : Type 0} → (fuel : ℕ) → (String → Wave A → Wave A) → Wave A → Option (Wave A)
unfolding round
rounds zero turn wave = none
rounds (suc fuel) turn wave =
    let done =
      round (length wave.pending.fair_order) turn (record wave { added_this_round = false }) in
    let later = rounds fuel turn done in
    if done.is_full || not done.added_this_round then some done else later

abbrev pub start_wave : {A : Type 0} → PendingSlice → Wave A
start_wave pending = record {
  pending = pending;
  selected = [];
  estimated_bytes = 0;
  is_full = false;
  added_this_round = false;
}

abbrev pub is_confirmed_work : List OutPoint → OutPoint → FactState → Bool
is_confirmed_work selected o (awaiting confirmed attempts) =
    ltb attempts max_fact_attempts && not (has_outpoint selected o)
is_confirmed_work selected o (awaiting parent_fallback attempts) =
    ltb attempts max_fact_attempts && not (has_outpoint selected o)
is_confirmed_work selected o _ = false

abbrev pub select_outpoint :
    (maximum : ℕ) → String → Wave OutPoint → Option (OutPoint × ℕ) → Wave OutPoint
select_outpoint maximum key wave none = wave
select_outpoint maximum key wave (some (o, cursor)) = record wave {
  pending = record_fact_attempt o (with_cursor key cursor wave.pending);
  selected = wave.selected ++ o ∷ [];
  added_this_round = true;
  is_full = leb maximum (length wave.selected + 1);
}

abbrev pub search_confirmed :
    Option PendingCandidate → Facts → List OutPoint → Option (OutPoint × ℕ)
search_confirmed none facts selected = none
search_confirmed (some candidate) facts selected =
    next_candidate_fact candidate facts (is_confirmed_work selected)

unfoldable pub confirmed_turn : (maximum : ℕ) → String → Wave OutPoint → Wave OutPoint
unfolding next_candidate_fact record_fact_attempt
confirmed_turn maximum key wave =
    select_outpoint maximum key wave
      (search_confirmed (get_active key wave.pending.active) wave.pending.facts wave.selected)

unfoldable pub confirmed_wave_limit : ResolverLimits → PendingSlice → ℕ
confirmed_wave_limit limits pending =
    let available = limits.max_pending_script_bytes - pending.pending_script_bytes in
    if ltb 0 available
    then max
        (min limits.max_confirmed_prevouts_per_wave (available / estimated_gettxout_response_bytes))
        1
    else 0

unfoldable pub next_confirmed_wave :
    (fuel : ℕ) → ResolverLimits → PendingSlice → Option (List OutPoint × PendingSlice)
unfolding confirmed_wave_limit rounds confirmed_turn
next_confirmed_wave fuel limits pending =
    let maximum = confirmed_wave_limit limits pending in
    if maximum == 0
    then some ([], pending)
    else elim (rounds fuel (confirmed_turn maximum) (start_wave pending)) [
      | none ↦ none
      | some wave ↦ some (wave.selected, wave.pending)
    ]

-- The parents that were selected, with their ids.
abbrev pub Parent : Type 0
Parent = Bytes × ExpectedVariant

abbrev pub has_parent : List Parent → Bytes → Bool
has_parent selected txid = any (λ p. bytes_eq p.0 txid) selected

abbrev pub is_parent_work : List Parent → OutPoint → FactState → Bool
is_parent_work selected o (awaiting current_parent attempts) =
    ltb attempts max_fact_attempts && not (has_parent selected o.txid)
is_parent_work selected o _ = false

-- `to_string` of the id is of the bitcoin crate.
abbrev pub variant_of : (Bytes → String) → Bytes → CurrentVariant → ExpectedVariant
variant_of show_txid txid variant = record {
  txid = show_txid txid;
  wtxid = variant.wtxid;
  vsize = variant.vsize;
}

abbrev pub select_parent :
    (maximum : ℕ) → Bytes → ExpectedVariant → PendingSlice → Wave Parent → Wave Parent
select_parent maximum txid expected moved wave =
    let bytes = saturate (wave.estimated_bytes + estimated_raw_response_bytes expected) in
    if not (is_empty wave.selected) && ltb max_raw_response_bytes_per_slice bytes
    then record wave { pending = moved }
    else record wave {
      pending = record_parent_attempt txid moved;
      selected = wave.selected ++ (txid, expected) ∷ [];
      estimated_bytes = bytes;
      added_this_round = true;
      is_full = leb maximum (length wave.selected + 1);
    }

-- The cursor has moved before the parent is looked up.
abbrev pub select_found :
    (Bytes → String)
    → Variants
    → (maximum : ℕ) → String
    → Wave Parent
    → Option (OutPoint × ℕ)
    → Wave Parent
select_found show_txid variants maximum key wave none = wave
select_found show_txid variants maximum key wave (some (o, cursor)) =
    let moved = with_cursor key cursor wave.pending in
    elim (get_variant o.txid variants) [
      | none ↦ record wave { pending = moved }
      | some variant ↦ select_parent maximum o.txid (variant_of show_txid o.txid variant) moved wave
    ]

abbrev pub search_parent : Option PendingCandidate → Facts → List Parent → Option (OutPoint × ℕ)
search_parent none facts selected = none
search_parent (some candidate) facts selected =
    next_candidate_fact candidate facts (is_parent_work selected)

unfoldable pub parent_turn :
    (Bytes → String) → Variants → (maximum : ℕ) → String → Wave Parent → Wave Parent
unfolding next_candidate_fact record_parent_attempt estimated_raw_response_bytes
parent_turn show_txid variants maximum key wave =
    select_found show_txid variants maximum key wave
      (search_parent (get_active key wave.pending.active) wave.pending.facts wave.selected)

unfoldable pub next_parent_wave :
    (fuel : ℕ)
    → (Bytes → String)
    → Variants
    → ResolverLimits
    → PendingSlice
    → Option (List Parent × PendingSlice)
unfolding rounds parent_turn
next_parent_wave fuel show_txid variants limits pending =
    if not (ltb pending.pending_script_bytes limits.max_pending_script_bytes)
    then some ([], pending)
    else elim (rounds fuel (parent_turn show_txid variants limits.max_parent_transactions_per_wave)
        (start_wave pending)) [ none ↦ none | some wave ↦ some (wave.selected, wave.pending) ]
