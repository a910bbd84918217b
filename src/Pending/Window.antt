-- ===== src/Pending/Window.antt =====
-- Whole steps of the resolution in src/classification.rs keep the retained scripts within the limit.
use Prim.Native.String.{String}
use mempool_atlas.Prelude.{
  ℕ, ◌^◌, ◌≤◌, ◌<◌, ◌≡◌, refl, ◌∙◌, inl, inr, Bool, Option, none, some, List, [], ◌∷◌, Bytes,
  Bool-cases, arith, is_some,
}
use mempool_atlas.Bitcoin.{Transaction}
use mempool_atlas.Classification.Batches.{ExpectedVariant}
use mempool_atlas.Classification.Cache.{OutPoint}
use mempool_atlas.Classification.Report.{ResolverLimits}
use mempool_atlas.Pending.State.{
  confirmed, current_parent, parent_fallback, FactState, ready, awaiting, capacity_blocked,
  operationally_deferred, explicitly_missing, RpcValue, found, explicit_null, retryable_failure,
  systemic_failure, CachedOutputs, PreparedCandidate, Variants, Facts, PendingSlice, get_fact,
  get_active, insert_fact, or_insert_fact, fact_bytes, script_at, cached_outputs,
  recount_script_bytes,
}
use mempool_atlas.Pending.Facts.{
  next_attempt, change_parent, record_parent_attempt, fall_back_parent_to_gettxout,
  apply_confirmed_value, null_answer, store_output, store_outputs, waiting_on_parent,
  parent_outputs, apply_parent_transaction,
}
use mempool_atlas.Pending.Candidates.{
  activate_from, activate_waiting, activate, insert_initial_facts, initial_fact, retain,
  is_referenced, drop_unreferenced_facts, remove_all, without_candidates, required_outpoints,
}
use mempool_atlas.Pending.Bounds.{
  ready_bytes, IsWithin, insert_new_fact-bytes, change_parent-bytes, count_script_bytes-exact,
}
use mempool_atlas.Pending.Retained.{
  with_facts-IsWithin, insert_fact-same, store_or_block-IsWithin,
  defer_if_attempts_exhausted-IsWithin,
}

pub record_parent_attempt-IsWithin :
    (txid : Bytes) (maximum : ℕ) (pending : PendingSlice)
    → IsWithin maximum pending
    → IsWithin maximum (record_parent_attempt txid pending)
unfolding record_parent_attempt fact_bytes
record_parent_attempt-IsWithin txid maximum pending w =
    let change = λ (attempts : ℕ). awaiting current_parent (next_attempt attempts) in
    with_facts-IsWithin maximum pending (change_parent change txid pending.facts)
      (change_parent-bytes change txid pending.facts (λ attempts. refl)) w

pub fall_back_parent_to_gettxout-IsWithin :
    (txid : Bytes) (maximum : ℕ) (pending : PendingSlice)
    → IsWithin maximum pending
    → IsWithin maximum (fall_back_parent_to_gettxout txid pending)
unfolding fall_back_parent_to_gettxout fact_bytes
fall_back_parent_to_gettxout-IsWithin txid maximum pending w =
    let change = λ (attempts : ℕ). awaiting parent_fallback 0 in
    with_facts-IsWithin maximum pending (change_parent change txid pending.facts)
      (change_parent-bytes change txid pending.facts (λ attempts. refl)) w

null_answer-IsWithin :
    (o : OutPoint) (maximum : ℕ) (pending : PendingSlice) (state : Option FactState)
    → get_fact o pending.facts ≡ state
    → IsWithin maximum pending
    → IsWithin maximum (null_answer o pending state).pending
unfolding fact_bytes
null_answer-IsWithin o maximum pending none h w = w
null_answer-IsWithin o maximum pending (some (ready s)) h w = w
null_answer-IsWithin o maximum pending (some (awaiting confirmed attempts)) h w =
    with_facts-IsWithin maximum pending (insert_fact o explicitly_missing pending.facts)
      (insert_fact-same o explicitly_missing (awaiting confirmed attempts) pending.facts h refl
        refl)
      w
null_answer-IsWithin o maximum pending (some (awaiting parent_fallback attempts)) h w =
    defer_if_attempts_exhausted-IsWithin o maximum pending w
null_answer-IsWithin o maximum pending (some (awaiting current_parent attempts)) h w = w
null_answer-IsWithin o maximum pending (some (capacity_blocked source)) h w = w
null_answer-IsWithin o maximum pending (some operationally_deferred) h w = w
null_answer-IsWithin o maximum pending (some explicitly_missing) h w = w

pub apply_confirmed_value-IsWithin :
    (o : OutPoint) (value : RpcValue Bytes) (maximum : ℕ) (pending : PendingSlice)
    → IsWithin maximum pending
    → IsWithin maximum (apply_confirmed_value o value maximum pending).pending
unfolding apply_confirmed_value
apply_confirmed_value-IsWithin o (found script) maximum pending w =
    store_or_block-IsWithin o script maximum pending w
apply_confirmed_value-IsWithin o explicit_null maximum pending w =
    null_answer-IsWithin o maximum pending (get_fact o pending.facts) refl w
apply_confirmed_value-IsWithin o retryable_failure maximum pending w =
    defer_if_attempts_exhausted-IsWithin o maximum pending w
apply_confirmed_value-IsWithin o systemic_failure maximum pending w = w

store_output-IsWithin :
    (o : OutPoint) (script : Option Bytes) (maximum : ℕ) (pending : PendingSlice)
    → IsWithin maximum pending
    → IsWithin maximum (store_output o script maximum pending).pending
store_output-IsWithin o none maximum pending w =
    defer_if_attempts_exhausted-IsWithin o maximum pending w
store_output-IsWithin o (some script) maximum pending w =
    store_or_block-IsWithin o script maximum pending w

store_outputs-IsWithin :
    (os : List OutPoint) (outputs : CachedOutputs) (maximum : ℕ) (pending : PendingSlice)
    → IsWithin maximum pending
    → IsWithin maximum (store_outputs os outputs maximum pending).pending
unfolding store_outputs
store_outputs-IsWithin [] outputs maximum pending w = w
store_outputs-IsWithin (o ∷ os) outputs maximum pending w =
    store_outputs-IsWithin os outputs maximum
      (store_output o (script_at outputs o.vout) maximum pending).pending
      (store_output-IsWithin o (script_at outputs o.vout) maximum pending w)

parent_outputs-IsWithin :
    (txid : Option Bytes) (expected : ExpectedVariant) (transaction : Transaction) (maximum : ℕ)
    (pending : PendingSlice)
    → IsWithin maximum pending
    → IsWithin maximum (parent_outputs txid expected transaction maximum pending).pending
parent_outputs-IsWithin none expected transaction maximum pending w = w
parent_outputs-IsWithin (some txid) expected transaction maximum pending w =
    store_outputs-IsWithin (waiting_on_parent txid pending.facts)
      (cached_outputs expected transaction) maximum pending w

pub apply_parent_transaction-IsWithin :
    (parse_txid : String → Option Bytes) (expected : ExpectedVariant) (transaction : Transaction)
    (maximum : ℕ) (pending : PendingSlice)
    → IsWithin maximum pending
    → IsWithin maximum
        (apply_parent_transaction parse_txid expected transaction maximum pending).pending
unfolding apply_parent_transaction
apply_parent_transaction-IsWithin parse_txid expected transaction maximum pending w =
    parent_outputs-IsWithin (parse_txid expected.txid) expected transaction maximum pending w

retain-bytes :
    (test : OutPoint × FactState → Bool) (facts : Facts)
    → ready_bytes (retain test facts) ≤ ready_bytes facts
unfolding retain
retain-bytes test [] = omega arith
retain-bytes test (p ∷ ps) = ground (arith, retain-bytes test ps)

-- A count from the start is right where the scripts fit.
recount-IsWithin :
    (maximum : ℕ) (pending : PendingSlice)
    → maximum < 2 ^ 64
    → ready_bytes pending.facts ≤ maximum
    → IsWithin maximum (recount_script_bytes pending)
unfolding recount_script_bytes
recount-IsWithin maximum pending small h =
    let exact = count_script_bytes-exact 0 pending.facts (omega (arith, small, h)) in
    record { counted = omega (arith, exact); within = omega (arith, exact, h) }

drop_unreferenced_facts-IsWithin :
    (maximum : ℕ) (pending : PendingSlice)
    → maximum < 2 ^ 64
    → ready_bytes pending.facts ≤ maximum
    → IsWithin maximum (drop_unreferenced_facts pending)
unfolding drop_unreferenced_facts
drop_unreferenced_facts-IsWithin maximum pending small h =
    let test = λ (p : OutPoint × FactState). is_referenced pending.active p.0 in
    recount-IsWithin maximum (record pending { facts = retain test pending.facts }) small
      (omega (arith, h, retain-bytes test pending.facts))

initial_fact-bytes :
    (variants : Variants) (deferred : List OutPoint) (o : OutPoint)
    → fact_bytes (initial_fact variants deferred o) ≡ 0
unfolding fact_bytes
initial_fact-bytes variants deferred o = ground arith

or_insert_fact-bytes :
    (o : OutPoint) (state : FactState) (facts : Facts)
    → fact_bytes state ≡ 0
    → ready_bytes (or_insert_fact o state facts) ≡ ready_bytes facts
unfolding or_insert_fact
or_insert_fact-bytes o state facts h = elim (Bool-cases (is_some (get_fact o facts))) [
  | inl t ↦ rw t refl
  | inr f ↦ let bytes = insert_new_fact-bytes o state facts in rw f (omega (arith, bytes, h))
]

insert_initial_facts-bytes :
    (variants : Variants) (deferred os : List OutPoint) (facts : Facts)
    → ready_bytes (insert_initial_facts variants deferred os facts) ≡ ready_bytes facts
unfolding insert_initial_facts
insert_initial_facts-bytes variants deferred [] facts = refl
insert_initial_facts-bytes variants deferred (o ∷ os) facts =
    insert_initial_facts-bytes variants deferred os
      (or_insert_fact o (initial_fact variants deferred o) facts)
    ∙ or_insert_fact-bytes o (initial_fact variants deferred o) facts
        (initial_fact-bytes variants deferred o)

activate-bytes :
    (variants : Variants) (required : List OutPoint) (next : PreparedCandidate)
    (pending : PendingSlice)
    → ready_bytes (activate variants required next pending).facts ≡ ready_bytes pending.facts
unfolding activate
activate-bytes variants required next pending =
    insert_initial_facts-bytes variants pending.deferred_facts required pending.facts

activate_from-bytes :
    (queued : List PreparedCandidate) (is_null : OutPoint → Bool) (variants : Variants)
    (limits : ResolverLimits) (pending : PendingSlice)
    → ready_bytes (activate_from queued is_null variants limits pending).facts
      ≡ ready_bytes pending.facts
unfolding activate_from
activate_from-bytes [] is_null variants limits pending = refl
activate_from-bytes (next ∷ queued) is_null variants limits pending =
    let required = required_outpoints is_null next.transaction.input in
    let ih =
      activate_from-bytes queued is_null variants limits
        (activate variants required next pending) in
    let now = activate-bytes variants required next pending in ground (arith, ih, now)

pub activate_waiting-IsWithin :
    (is_null : OutPoint → Bool) (variants : Variants) (limits : ResolverLimits) (maximum : ℕ)
    (pending : PendingSlice)
    → maximum < 2 ^ 64
    → ready_bytes pending.facts ≤ maximum
    → IsWithin maximum (activate_waiting is_null variants limits pending)
unfolding activate_waiting
activate_waiting-IsWithin is_null variants limits maximum pending small h =
    recount-IsWithin maximum (activate_from pending.queued is_null variants limits pending) small
      (omega (arith, h, activate_from-bytes pending.queued is_null variants limits pending))

pub without_candidates-IsWithin :
    (keys : List String) (maximum : ℕ) (pending : PendingSlice)
    → maximum < 2 ^ 64
    → ready_bytes pending.facts ≤ maximum
    → IsWithin maximum (without_candidates keys pending)
unfolding without_candidates
without_candidates-IsWithin keys maximum pending small h =
    let active = remove_all keys pending.active in
    drop_unreferenced_facts-IsWithin maximum
      (record pending {
        active = active;
        fair_order = retain (λ key. is_some (get_active key active)) pending.fair_order;
      })
      small h
