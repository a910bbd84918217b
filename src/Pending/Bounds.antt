-- ===== src/Pending/Bounds.antt =====
-- The scripts that a pending slice of src/classification.rs retains stay within their limit.
use mempool_atlas.Prelude.{
  ℕ, ◌+◌, ◌^◌, ◌≤◌, ◌<◌, ◌≡◌, refl, ap, inl, inr, Bool, true, false, none, some, [], ◌∷◌, Bytes,
  Bool-cases, arith, bytes_eq,
}
use mempool_atlas.Classification.Batches.{saturate}
use mempool_atlas.Classification.Cache.{OutPoint, outpoint_eq}
use mempool_atlas.Pending.State.{
  FactSource, FactState, ready, awaiting, capacity_blocked, operationally_deferred,
  explicitly_missing, Facts, PendingSlice, get_fact, set_fact, insert_new_fact, insert_fact,
  fact_bytes, count_script_bytes,
}
use mempool_atlas.Pending.Facts.{changed_state, change_parent}

abbrev pub ready_bytes : Facts → ℕ
ready_bytes [] = 0
ready_bytes (p ∷ ps) = fact_bytes p.1 + ready_bytes ps

-- The count of the retained scripts is right, and within the limit.
pub record IsWithin (maximum : ℕ) (pending : PendingSlice) : Type 0 where
  pub counted : pending.pending_script_bytes ≡ ready_bytes pending.facts
  pub within : pending.pending_script_bytes ≤ maximum

pub set_fact-bytes :
    (o : OutPoint) (new old : FactState) (facts : Facts)
    → get_fact o facts ≡ some old
    → ready_bytes (set_fact o new facts) + fact_bytes old ≡ ready_bytes facts + fact_bytes new
unfolding get_fact set_fact
set_fact-bytes o new old [] h = cc
set_fact-bytes o new old (p ∷ ps) h = elim (Bool-cases (outpoint_eq p.0 o)) [
  | inl t ↦
      let same : p.1 ≡ old = ground arith in
      let bytes = ap fact_bytes same in rw t (omega (arith, bytes))
  | inr f ↦ let ih = set_fact-bytes o new old ps (ground arith) in rw f (omega (arith, ih))
]

not_none : {A : Type 0} {a : A} → some a ≡ none → ⊥
not_none h = cc

pub set_fact-none :
    (o : OutPoint) (new : FactState) (facts : Facts)
    → get_fact o facts ≡ none
    → set_fact o new facts ≡ facts
unfolding get_fact set_fact
set_fact-none o new [] h = refl
set_fact-none o new (p ∷ ps) h = elim (Bool-cases (outpoint_eq p.0 o)) [
  | inl t ↦ absurd (not_none (rw t at h))
  | inr f ↦ rw f (ap (◌∷◌ p) (set_fact-none o new ps (rw f at h)))
]

pub insert_new_fact-bytes :
    (o : OutPoint) (state : FactState) (facts : Facts)
    → ready_bytes (insert_new_fact o state facts) ≡ ready_bytes facts + fact_bytes state
unfolding insert_new_fact
insert_new_fact-bytes o state [] = omega arith
insert_new_fact-bytes o state (p ∷ ps) = ground (arith, insert_new_fact-bytes o state ps)

pub insert_fact-set :
    (o : OutPoint) (new old : FactState) (facts : Facts)
    → get_fact o facts ≡ some old
    → insert_fact o new facts ≡ set_fact o new facts
unfolding insert_fact
insert_fact-set o new old facts h = rw h refl

changed_state-bytes :
    (change : ℕ → FactState) (b : Bool) (state : FactState)
    → ((attempts : ℕ) → fact_bytes (change attempts) ≡ 0)
    → fact_bytes (changed_state change b state) ≡ fact_bytes state
unfolding fact_bytes
changed_state-bytes change false state h = refl
changed_state-bytes change true (ready script) h = refl
changed_state-bytes change true (awaiting FactSource.current_parent attempts) h = h attempts
changed_state-bytes change true (awaiting FactSource.confirmed attempts) h = refl
changed_state-bytes change true (awaiting FactSource.parent_fallback attempts) h = refl
changed_state-bytes change true (capacity_blocked source) h = refl
changed_state-bytes change true operationally_deferred h = refl
changed_state-bytes change true explicitly_missing h = refl

pub change_parent-bytes :
    (change : ℕ → FactState) (txid : Bytes) (facts : Facts)
    → ((attempts : ℕ) → fact_bytes (change attempts) ≡ 0)
    → ready_bytes (change_parent change txid facts) ≡ ready_bytes facts
unfolding change_parent
change_parent-bytes change txid [] h = refl
change_parent-bytes change txid (p ∷ ps) h =
    let ih = change_parent-bytes change txid ps h in
    let now = changed_state-bytes change (bytes_eq (p.0).txid txid) p.1 h in omega (arith, ih, now)

pub count_script_bytes-exact :
    (total : ℕ) (facts : Facts)
    → total + ready_bytes facts < 2 ^ 64
    → count_script_bytes total facts ≡ total + ready_bytes facts
unfolding count_script_bytes
count_script_bytes-exact total [] h = omega arith
count_script_bytes-exact total (p ∷ ps) h =
    let small : saturate (total + fact_bytes p.1) ≡ total + fact_bytes p.1 = omega (arith, h) in
    let ih =
      count_script_bytes-exact (saturate (total + fact_bytes p.1)) ps (omega (arith, small, h)) in
    omega (arith, ih, small)
