-- ===== src/Pending/Facts.antt =====
-- src/classification.rs: how what is known of an outpoint changes.
use Prim.Native.String.{String}
use mempool_atlas.Prelude.{
  ℕ, ◌+◌, ◌^◌, min, Bool, true, false, Option, none, some, List, [], ◌∷◌, Bytes, bytes_eq, ltb, leb,
  if◌then◌else◌,
}
use mempool_atlas.Bitcoin.{Transaction}
use mempool_atlas.Classification.Batches.{ExpectedVariant}
use mempool_atlas.Classification.Cache.{OutPoint}
use mempool_atlas.Classification.Cache.{estimated_script_bytes}
use mempool_atlas.Pending.State.{
  current_parent, confirmed, parent_fallback, FactState, ready, awaiting, capacity_blocked,
  operationally_deferred, explicitly_missing, RpcValue, found, explicit_null, retryable_failure,
  systemic_failure, CachedOutputs, Facts, PendingSlice, get_fact, set_fact, insert_fact,
  insert_outpoint, script_at, cached_outputs,
}

abbrev pub max_fact_attempts : ℕ
max_fact_attempts = 2

-- `u8::saturating_add(1)`
abbrev pub next_attempt : ℕ → ℕ
next_attempt attempts = min (attempts + 1) 255

abbrev pub with_facts : Facts → PendingSlice → PendingSlice
with_facts facts pending = record pending { facts = facts }

-- The script is stored under the outpoint when that fits.
abbrev pub admit : OutPoint → Bytes → (maximum : ℕ) → PendingSlice → PendingSlice × Bool
admit o script maximum pending =
    let total = pending.pending_script_bytes + estimated_script_bytes script in
    if leb (2 ^ 64) total
    then (pending, false)
    else if ltb maximum total
    then (pending, false)
    else (
      record pending {
        facts = set_fact o (ready script) pending.facts;
        pending_script_bytes = total;
      },
      true,
    )

abbrev pub store_into :
    OutPoint → Bytes → (maximum : ℕ) → PendingSlice → Option FactState → PendingSlice × Bool
store_into o script maximum pending (some (ready _)) = (pending, true)
store_into o script maximum pending (some (awaiting source attempts)) =
    admit o script maximum pending
store_into o script maximum pending (some (capacity_blocked source)) =
    admit o script maximum pending
store_into o script maximum pending _ = (pending, false)

unfoldable pub store_script : OutPoint → Bytes → (maximum : ℕ) → PendingSlice → PendingSlice × Bool
unfolding get_fact set_fact estimated_script_bytes
store_script o script maximum pending =
    store_into o script maximum pending (get_fact o pending.facts)

abbrev pub block : OutPoint → PendingSlice → Option FactState → PendingSlice
block o pending (some (awaiting source attempts)) =
    with_facts (insert_fact o (capacity_blocked source) pending.facts) pending
block o pending (some (capacity_blocked source)) =
    with_facts (insert_fact o (capacity_blocked source) pending.facts) pending
block o pending _ = pending

unfoldable pub mark_capacity_blocked : OutPoint → PendingSlice → PendingSlice
unfolding get_fact insert_fact
mark_capacity_blocked o pending = block o pending (get_fact o pending.facts)

unfoldable pub defer_fact : OutPoint → PendingSlice → PendingSlice
unfolding set_fact
defer_fact o pending = record pending {
  deferred_facts = insert_outpoint o pending.deferred_facts;
  facts = set_fact o operationally_deferred pending.facts;
}

abbrev pub is_exhausted : Option FactState → Bool
is_exhausted (some (awaiting source attempts)) = leb max_fact_attempts attempts
is_exhausted _ = false

unfoldable pub defer_if_attempts_exhausted : OutPoint → PendingSlice → PendingSlice
unfolding get_fact defer_fact
defer_if_attempts_exhausted o pending =
    if is_exhausted (get_fact o pending.facts) then defer_fact o pending else pending

abbrev pub attempt : OutPoint → PendingSlice → Option FactState → PendingSlice
attempt o pending (some (awaiting source attempts)) =
    with_facts (set_fact o (awaiting source (next_attempt attempts)) pending.facts) pending
attempt o pending _ = pending

unfoldable pub record_fact_attempt : OutPoint → PendingSlice → PendingSlice
unfolding get_fact set_fact
record_fact_attempt o pending = attempt o pending (get_fact o pending.facts)

abbrev pub changed_state : (ℕ → FactState) → Bool → FactState → FactState
changed_state change true (awaiting current_parent attempts) = change attempts
changed_state change _ state = state

-- The loops over the facts that wait for the outputs of the parent.
unfoldable pub change_parent : (ℕ → FactState) → Bytes → Facts → Facts
change_parent change txid [] = []
change_parent change txid (p ∷ facts) =
    (p.0, changed_state change (bytes_eq (p.0).txid txid) p.1) ∷ change_parent change txid facts

unfoldable pub record_parent_attempt : Bytes → PendingSlice → PendingSlice
unfolding change_parent
record_parent_attempt txid pending =
    with_facts
      (change_parent (λ attempts. awaiting current_parent (next_attempt attempts)) txid
        pending.facts)
      pending

unfoldable pub fall_back_parent_to_gettxout : Bytes → PendingSlice → PendingSlice
unfolding change_parent
fall_back_parent_to_gettxout txid pending =
    with_facts (change_parent (λ attempts. awaiting parent_fallback 0) txid pending.facts) pending

-- What a step adds to the counts of a slice, with the pending slice that it leaves.
pub record Counted : Type 0 where
  pub pending : PendingSlice
  pub resolved : ℕ
  pub missing : ℕ
  pub capacity_deferred : ℕ

abbrev pub uncounted : PendingSlice → Counted
uncounted pending = record { pending = pending; resolved = 0; missing = 0; capacity_deferred = 0 }

-- `if self.store_script(…) { … } else { self.mark_capacity_blocked(…); … }`
abbrev pub stored_or_blocked : OutPoint → PendingSlice × Bool → Counted
stored_or_blocked o (pending, true) = record (uncounted pending) { resolved = 1 }
stored_or_blocked o (pending, false) = record (uncounted (mark_capacity_blocked o pending)) {
  capacity_deferred = 1;
}

unfoldable pub store_or_block : OutPoint → Bytes → (maximum : ℕ) → PendingSlice → Counted
unfolding store_script mark_capacity_blocked
store_or_block o script maximum pending =
    stored_or_blocked o (store_script o script maximum pending)

abbrev pub null_answer : OutPoint → PendingSlice → Option FactState → Counted
null_answer o pending (some (awaiting confirmed attempts)) =
    record (uncounted (with_facts (insert_fact o explicitly_missing pending.facts) pending)) {
      missing = 1;
    }
null_answer o pending (some (awaiting parent_fallback attempts)) =
    uncounted (defer_if_attempts_exhausted o pending)
null_answer o pending _ = uncounted pending

-- The script that is returned besides is that of the value, if any.
unfoldable pub apply_confirmed_value :
    OutPoint → RpcValue Bytes → (maximum : ℕ) → PendingSlice → Counted
unfolding get_fact insert_fact store_or_block defer_if_attempts_exhausted
apply_confirmed_value o (found script) maximum pending = store_or_block o script maximum pending
apply_confirmed_value o explicit_null maximum pending =
    null_answer o pending (get_fact o pending.facts)
apply_confirmed_value o retryable_failure maximum pending =
    uncounted (defer_if_attempts_exhausted o pending)
apply_confirmed_value o systemic_failure maximum pending = uncounted pending

-- The outpoints of the parent that are collected before the loop.
unfoldable pub waiting_on_parent : Bytes → Facts → List OutPoint
waiting_on_parent txid [] = []
waiting_on_parent txid ((o, state) ∷ facts) =
    let rest = waiting_on_parent txid facts in
    elim state [
      | awaiting current_parent attempts ↦ if bytes_eq o.txid txid then o ∷ rest else rest
      | _ ↦ rest
    ]

abbrev pub add_counted : Counted → Counted → Counted
add_counted a b = record b {
  resolved = a.resolved + b.resolved;
  missing = a.missing + b.missing;
  capacity_deferred = a.capacity_deferred + b.capacity_deferred;
}

-- One outpoint of the loop: its script, if the parent has the output.
abbrev pub store_output : OutPoint → Option Bytes → (maximum : ℕ) → PendingSlice → Counted
store_output o none maximum pending = uncounted (defer_if_attempts_exhausted o pending)
store_output o (some script) maximum pending = store_or_block o script maximum pending

unfoldable pub store_outputs :
    List OutPoint → CachedOutputs → (maximum : ℕ) → PendingSlice → Counted
unfolding script_at store_or_block defer_if_attempts_exhausted
store_outputs [] outputs maximum pending = uncounted pending
store_outputs (o ∷ os) outputs maximum pending =
    let now = store_output o (script_at outputs o.vout) maximum pending in
    add_counted now (store_outputs os outputs maximum now.pending)

abbrev pub parent_outputs :
    Option Bytes → ExpectedVariant → Transaction → (maximum : ℕ) → PendingSlice → Counted
parent_outputs none expected transaction maximum pending = uncounted pending
parent_outputs (some txid) expected transaction maximum pending =
    store_outputs (waiting_on_parent txid pending.facts) (cached_outputs expected transaction)
      maximum pending

-- `parse_txid` is of the bitcoin crate. The outputs that are returned besides are the cached ones.
unfoldable pub apply_parent_transaction :
    (parse_txid : String → Option Bytes)
    → ExpectedVariant
    → Transaction
    → (maximum : ℕ) → PendingSlice
    → Counted
unfolding cached_outputs store_outputs waiting_on_parent
apply_parent_transaction parse_txid expected transaction maximum pending =
    parent_outputs (parse_txid expected.txid) expected transaction maximum pending
