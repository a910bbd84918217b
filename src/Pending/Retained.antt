-- ===== src/Pending/Retained.antt =====
-- Every step of the resolution in src/classification.rs keeps the retained scripts within the limit.
use mempool_atlas.Prelude.{
  ℕ, ◌+◌, ◌^◌, ◌≡◌, refl, sym, ◌∙◌, ap, inl, inr, Bool, true, false, Option, none, some, Bytes,
  Bool-cases, arith, ltb, leb,
}
use mempool_atlas.Classification.Cache.{OutPoint}
use mempool_atlas.Classification.Cache.{estimated_script_bytes}
use mempool_atlas.Pending.State.{
  FactState, ready, awaiting, capacity_blocked, operationally_deferred, explicitly_missing, Facts,
  PendingSlice, get_fact, set_fact, insert_fact, fact_bytes,
}
use mempool_atlas.Pending.Facts.{
  store_script, store_into, block, attempt, admit, mark_capacity_blocked, defer_fact,
  defer_if_attempts_exhausted, is_exhausted, next_attempt, record_fact_attempt, with_facts,
  store_or_block, stored_or_blocked,
}
use mempool_atlas.Pending.Bounds.{ready_bytes, IsWithin, set_fact-bytes, insert_fact-set}

-- Facts that hold the same scripts.
pub with_facts-IsWithin :
    (maximum : ℕ) (pending : PendingSlice) (facts : Facts)
    → ready_bytes facts ≡ ready_bytes pending.facts
    → IsWithin maximum pending
    → IsWithin maximum (with_facts facts pending)
with_facts-IsWithin maximum pending facts e w = record {
  counted = w.counted ∙ sym e;
  within = w.within;
}

admit-IsWithin :
    (o : OutPoint) (script : Bytes) (maximum : ℕ) (pending : PendingSlice) (old : FactState)
    → get_fact o pending.facts ≡ some old
    → fact_bytes old ≡ 0
    → IsWithin maximum pending
    → IsWithin maximum (admit o script maximum pending).0
unfolding fact_bytes
admit-IsWithin o script maximum pending old held none_held w =
    let bytes = set_fact-bytes o (ready script) old pending.facts held in
    elim (Bool-cases
      (leb (2 ^ 64) (pending.pending_script_bytes + estimated_script_bytes script))) [
        | inl t ↦ rw t w
        | inr f ↦
            elim (Bool-cases
              (ltb maximum (pending.pending_script_bytes + estimated_script_bytes script))) [
                | inl t ↦ rw (f, t) w
                | inr g ↦
                    rw (f, g)
                      (record {
                        counted = omega (arith, bytes, none_held, w.counted);
                        within = ground arith;
                      })
              ]
      ]

store_into-IsWithin :
    (o : OutPoint) (script : Bytes) (maximum : ℕ) (pending : PendingSlice)
    (state : Option FactState)
    → get_fact o pending.facts ≡ state
    → IsWithin maximum pending
    → IsWithin maximum (store_into o script maximum pending state).0
unfolding fact_bytes
store_into-IsWithin o script maximum pending none h w = w
store_into-IsWithin o script maximum pending (some (ready s)) h w = w
store_into-IsWithin o script maximum pending (some (awaiting source attempts)) h w =
    admit-IsWithin o script maximum pending (awaiting source attempts) h refl w
store_into-IsWithin o script maximum pending (some (capacity_blocked source)) h w =
    admit-IsWithin o script maximum pending (capacity_blocked source) h refl w
store_into-IsWithin o script maximum pending (some operationally_deferred) h w = w
store_into-IsWithin o script maximum pending (some explicitly_missing) h w = w

pub store_script-IsWithin :
    (o : OutPoint) (script : Bytes) (maximum : ℕ) (pending : PendingSlice)
    → IsWithin maximum pending
    → IsWithin maximum (store_script o script maximum pending).0
unfolding store_script
store_script-IsWithin o script maximum pending w =
    store_into-IsWithin o script maximum pending (get_fact o pending.facts) refl w

-- A fact without a script that replaces another without one.
set_fact-same :
    (o : OutPoint) (new old : FactState) (facts : Facts)
    → get_fact o facts ≡ some old
    → fact_bytes old ≡ 0
    → fact_bytes new ≡ 0
    → ready_bytes (set_fact o new facts) ≡ ready_bytes facts
set_fact-same o new old facts h a b =
    let bytes = set_fact-bytes o new old facts h in omega (arith, bytes, a, b)

-- The same as an insertion.
pub insert_fact-same :
    (o : OutPoint) (new old : FactState) (facts : Facts)
    → get_fact o facts ≡ some old
    → fact_bytes old ≡ 0
    → fact_bytes new ≡ 0
    → ready_bytes (insert_fact o new facts) ≡ ready_bytes facts
insert_fact-same o new old facts h a b =
    ap ready_bytes (insert_fact-set o new old facts h) ∙ set_fact-same o new old facts h a b

block-IsWithin :
    (o : OutPoint) (maximum : ℕ) (pending : PendingSlice) (state : Option FactState)
    → get_fact o pending.facts ≡ state
    → IsWithin maximum pending
    → IsWithin maximum (block o pending state)
unfolding fact_bytes
block-IsWithin o maximum pending none h w = w
block-IsWithin o maximum pending (some (ready s)) h w = w
block-IsWithin o maximum pending (some (awaiting source attempts)) h w =
    with_facts-IsWithin maximum pending (insert_fact o (capacity_blocked source) pending.facts)
      (insert_fact-same o (capacity_blocked source) (awaiting source attempts) pending.facts h refl
        refl)
      w
block-IsWithin o maximum pending (some (capacity_blocked source)) h w =
    with_facts-IsWithin maximum pending (insert_fact o (capacity_blocked source) pending.facts)
      (insert_fact-same o (capacity_blocked source) (capacity_blocked source) pending.facts h refl
        refl)
      w
block-IsWithin o maximum pending (some operationally_deferred) h w = w
block-IsWithin o maximum pending (some explicitly_missing) h w = w

mark_capacity_blocked-IsWithin :
    (o : OutPoint) (maximum : ℕ) (pending : PendingSlice)
    → IsWithin maximum pending
    → IsWithin maximum (mark_capacity_blocked o pending)
unfolding mark_capacity_blocked
mark_capacity_blocked-IsWithin o maximum pending w =
    block-IsWithin o maximum pending (get_fact o pending.facts) refl w

stored_or_blocked-IsWithin :
    (o : OutPoint) (maximum : ℕ) (outcome : PendingSlice × Bool)
    → IsWithin maximum outcome.0
    → IsWithin maximum (stored_or_blocked o outcome).pending
stored_or_blocked-IsWithin o maximum (pending, true) w = w
stored_or_blocked-IsWithin o maximum (pending, false) w =
    mark_capacity_blocked-IsWithin o maximum pending w

pub store_or_block-IsWithin :
    (o : OutPoint) (script : Bytes) (maximum : ℕ) (pending : PendingSlice)
    → IsWithin maximum pending
    → IsWithin maximum (store_or_block o script maximum pending).pending
unfolding store_or_block
store_or_block-IsWithin o script maximum pending w =
    stored_or_blocked-IsWithin o maximum (store_script o script maximum pending)
      (store_script-IsWithin o script maximum pending w)

attempt-IsWithin :
    (o : OutPoint) (maximum : ℕ) (pending : PendingSlice) (state : Option FactState)
    → get_fact o pending.facts ≡ state
    → IsWithin maximum pending
    → IsWithin maximum (attempt o pending state)
unfolding fact_bytes
attempt-IsWithin o maximum pending none h w = w
attempt-IsWithin o maximum pending (some (ready s)) h w = w
attempt-IsWithin o maximum pending (some (awaiting source attempts)) h w =
    with_facts-IsWithin maximum pending
      (set_fact o (awaiting source (next_attempt attempts)) pending.facts)
      (set_fact-same o (awaiting source (next_attempt attempts)) (awaiting source attempts)
        pending.facts h refl refl)
      w
attempt-IsWithin o maximum pending (some (capacity_blocked source)) h w = w
attempt-IsWithin o maximum pending (some operationally_deferred) h w = w
attempt-IsWithin o maximum pending (some explicitly_missing) h w = w

pub record_fact_attempt-IsWithin :
    (o : OutPoint) (maximum : ℕ) (pending : PendingSlice)
    → IsWithin maximum pending
    → IsWithin maximum (record_fact_attempt o pending)
unfolding record_fact_attempt
record_fact_attempt-IsWithin o maximum pending w =
    attempt-IsWithin o maximum pending (get_fact o pending.facts) refl w

defer_exhausted-bytes :
    (o : OutPoint) (facts : Facts) (state : Option FactState)
    → get_fact o facts ≡ state
    → is_exhausted state ≡ true
    → ready_bytes (set_fact o operationally_deferred facts) ≡ ready_bytes facts
unfolding fact_bytes
defer_exhausted-bytes o facts none h e = cc
defer_exhausted-bytes o facts (some (ready s)) h e = cc
defer_exhausted-bytes o facts (some (awaiting source attempts)) h e =
    set_fact-same o operationally_deferred (awaiting source attempts) facts h refl refl
defer_exhausted-bytes o facts (some (capacity_blocked source)) h e = cc
defer_exhausted-bytes o facts (some operationally_deferred) h e = cc
defer_exhausted-bytes o facts (some explicitly_missing) h e = cc

pub defer_if_attempts_exhausted-IsWithin :
    (o : OutPoint) (maximum : ℕ) (pending : PendingSlice)
    → IsWithin maximum pending
    → IsWithin maximum (defer_if_attempts_exhausted o pending)
unfolding defer_if_attempts_exhausted defer_fact
defer_if_attempts_exhausted-IsWithin o maximum pending w =
    elim (Bool-cases (is_exhausted (get_fact o pending.facts))) [
      | inl t ↦ rw t (record {
        counted =
            w.counted
            ∙ sym (defer_exhausted-bytes o pending.facts (get_fact o pending.facts) refl t);
        within = w.within;
      })
      | inr f ↦ rw f w
    ]
