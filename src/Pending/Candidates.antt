-- ===== src/Pending/Candidates.antt =====
-- src/classification.rs: how candidates enter the pending slice, and how they leave it.
use Prim.Native.String.{String}
use mempool_atlas.Prelude.{
  ℕ, ◌+◌, Bool, true, false, ◌&&◌, not, Option, none, some, List, [], ◌∷◌, ◌++◌, any, all, length,
  is_empty, is_some, is_none, ltb, if◌then◌else◌,
}
use mempool_atlas.Results.{Result, ok, panic, ◌>>=◌}
use mempool_atlas.Bitcoin.{TxIn, Transaction, Bitcoin}
use mempool_atlas.Bip110.Prevout.{PrevoutFacts, PrevoutSet}
use mempool_atlas.Classification.Batches.{ExpectedVariant, saturate}
use mempool_atlas.Classification.Cache.{OutPoint}
use mempool_atlas.Classification.Report.{ResolverLimits}
use mempool_atlas.Pending.State.{
  current_parent, confirmed, FactState, ready, awaiting, operationally_deferred, explicitly_missing,
  PreparedCandidate, PendingCandidate, Facts, Variants, Active, PendingSlice, get_fact,
  or_insert_fact, get_variant, get_active, insert_active, remove_active, has_outpoint,
  insert_outpoint, recount_script_bytes,
}

abbrev pub previous_output : TxIn → OutPoint
previous_output input = record { txid = input.txid; vout = input.vout }

-- The set of the outpoints that are spent, without null ones; the test is of the bitcoin crate.
unfoldable pub required_outpoints : (OutPoint → Bool) → List TxIn → List OutPoint
required_outpoints is_null [] = []
required_outpoints is_null (input ∷ inputs) =
    let rest = required_outpoints is_null inputs in
    if is_null (previous_output input) then rest else insert_outpoint (previous_output input) rest

abbrev pub initial_fact : Variants → (deferred : List OutPoint) → OutPoint → FactState
initial_fact variants deferred o =
    if has_outpoint deferred o
    then operationally_deferred
    else if is_some (get_variant o.txid variants)
    then awaiting current_parent 0
    else awaiting confirmed 0

unfoldable pub insert_initial_facts :
    Variants → (deferred : List OutPoint) → List OutPoint → Facts → Facts
unfolding or_insert_fact
insert_initial_facts variants deferred [] facts = facts
insert_initial_facts variants deferred (o ∷ os) facts =
    insert_initial_facts variants deferred os
      (or_insert_fact o (initial_fact variants deferred o) facts)

unfoldable pub count_new_facts : List OutPoint → Facts → ℕ
unfolding get_fact
count_new_facts [] facts = 0
count_new_facts (o ∷ os) facts =
    let rest = count_new_facts os facts in if is_some (get_fact o facts) then rest else rest + 1

-- One candidate is admitted.
unfoldable pub activate : Variants → List OutPoint → PreparedCandidate → PendingSlice → PendingSlice
unfolding insert_initial_facts
activate variants required next pending = record pending {
  facts = insert_initial_facts variants pending.deferred_facts required pending.facts;
  fair_order = pending.fair_order ++ next.expected.wtxid ∷ [];
  active =
      insert_active next.expected.wtxid
        (record {
          expected = next.expected;
          transaction = next.transaction;
          required = required;
          fact_cursor = 0;
        })
        pending.active;
}

-- The loop over the queue. The first candidate of an empty window is always admitted.
unfoldable pub activate_from :
    List PreparedCandidate
    → (is_null : OutPoint → Bool) → Variants
    → ResolverLimits
    → PendingSlice
    → PendingSlice
unfolding required_outpoints count_new_facts activate
activate_from [] is_null variants limits pending = record pending { queued = [] }
activate_from (next ∷ queued) is_null variants limits pending =
    let required = required_outpoints is_null next.transaction.input in
    let admitted =
      activate_from queued is_null variants limits (activate variants required next pending) in
    if not (is_empty pending.active)
      && ltb limits.max_unique_prevouts_per_window
          (saturate (length pending.facts + count_new_facts required pending.facts))
    then record pending { queued = next ∷ queued }
    else admitted

unfoldable pub activate_waiting :
    (is_null : OutPoint → Bool) → Variants → ResolverLimits → PendingSlice → PendingSlice
unfolding activate_from recount_script_bytes
activate_waiting is_null variants limits pending =
    recount_script_bytes (activate_from pending.queued is_null variants limits pending)

abbrev pub candidate_count : PendingSlice → ℕ
candidate_count pending = saturate (length pending.active + length pending.queued)

abbrev pub is_done : PendingSlice → Bool
is_done pending = is_empty pending.active && is_empty pending.queued

-- `retain`
unfoldable pub retain {ℓ} : {A : Type ℓ} → (A → Bool) → List A → List A
retain test [] = []
retain test (x ∷ xs) = let rest = retain test xs in if test x then x ∷ rest else rest

-- Some active candidate requires the outpoint.
unfoldable pub is_referenced : Active → OutPoint → Bool
is_referenced active o = any (λ p. has_outpoint (p.1).required o) active

unfoldable pub drop_unreferenced_facts : PendingSlice → PendingSlice
unfolding is_referenced retain recount_script_bytes
drop_unreferenced_facts pending =
    recount_script_bytes
      (record pending { facts = retain (λ p. is_referenced pending.active p.0) pending.facts })

unfoldable pub keys_where : (PendingCandidate → Bool) → Active → List String
keys_where test [] = []
keys_where test (p ∷ active) =
    let rest = keys_where test active in if test p.1 then p.0 ∷ rest else rest

abbrev pub remove_all : List String → Active → Active
remove_all [] active = active
remove_all (key ∷ keys) active = remove_all keys (remove_active key active)

abbrev pub is_deferred : Option FactState → Bool
is_deferred (some operationally_deferred) = true
is_deferred _ = false

abbrev pub is_terminal : Option FactState → Bool
is_terminal (some (ready script)) = true
is_terminal (some explicitly_missing) = true
is_terminal _ = false

unfoldable pub without_candidates : List String → PendingSlice → PendingSlice
unfolding retain drop_unreferenced_facts
without_candidates keys pending =
    let active = remove_all keys pending.active in
    drop_unreferenced_facts (record pending {
      active = active;
      fair_order = retain (λ key. is_some (get_active key active)) pending.fair_order;
    })

-- With how many candidates are dropped.
unfoldable pub defer_exhausted_candidates : PendingSlice → PendingSlice × ℕ
unfolding get_fact keys_where without_candidates
defer_exhausted_candidates pending =
    let doomed =
      keys_where (λ candidate. any (λ o. is_deferred (get_fact o pending.facts)) candidate.required)
        pending.active in
    if is_empty doomed then (pending, 0) else (without_candidates doomed pending, length doomed)

-- A candidate whose facts are all known, with what they are.
pub record ReadyCandidate : Type 0 where
  pub expected : ExpectedVariant
  pub transaction : Transaction
  pub prevouts : PrevoutSet
  pub retryable : Bool

abbrev pub prevout_of : Option FactState → Result Unit (Option PrevoutFacts)
prevout_of (some (ready script)) =
    ok (some (record { script_pubkey = script; creation_height = none }))
prevout_of (some explicitly_missing) = ok none
prevout_of _ = panic

-- `unreachable!` where a fact is not terminal.
unfoldable pub prevouts_of : List TxIn → Facts → Result Unit (List (Option PrevoutFacts))
unfolding get_fact
prevouts_of [] facts = ok []
prevouts_of (input ∷ inputs) facts = do
  prevout ← prevout_of (get_fact (previous_output input) facts)
  rest ← prevouts_of inputs facts
  ok (prevout ∷ rest)

abbrev pub ready_coinbase : PendingCandidate → ReadyCandidate
ready_coinbase candidate = record {
  expected = candidate.expected;
  transaction = candidate.transaction;
  prevouts = record { facts = [] };
  retryable = false;
}

abbrev pub ready_with : PendingCandidate → List (Option PrevoutFacts) → ReadyCandidate
ready_with candidate prevouts = record {
  expected = candidate.expected;
  transaction = candidate.transaction;
  prevouts = record { facts = prevouts };
  retryable = any is_none prevouts;
}

unfoldable pub ready_candidate : Bitcoin → PendingCandidate → Facts → Result Unit ReadyCandidate
unfolding prevouts_of
ready_candidate bitcoin candidate facts =
    if bitcoin.is_coinbase candidate.transaction then ok (ready_coinbase candidate) else do
      prevouts ← prevouts_of candidate.transaction.input facts
      ok (ready_with candidate prevouts)

unfoldable pub has_all_facts : Facts → PendingCandidate → Bool
unfolding get_fact
has_all_facts facts candidate = all (λ o. is_terminal (get_fact o facts)) candidate.required

-- `expect` of a key that was just listed.
abbrev pub or_panic : Option PendingCandidate → Result Unit PendingCandidate
or_panic none = panic
or_panic (some candidate) = ok candidate

unfoldable pub take_candidates :
    Bitcoin → List String → Active → Facts → Result Unit (List ReadyCandidate)
unfolding ready_candidate
take_candidates bitcoin [] active facts = ok []
take_candidates bitcoin (key ∷ keys) active facts = do
  candidate ← or_panic (get_active key active)
  now ← ready_candidate bitcoin candidate facts
  rest ← take_candidates bitcoin keys (remove_active key active) facts
  ok (now ∷ rest)

-- The candidates that `classify_ready` evaluates, and the slice that it leaves.
unfoldable pub take_ready :
    Bitcoin → PendingSlice → Result Unit (List ReadyCandidate × PendingSlice)
unfolding keys_where has_all_facts take_candidates without_candidates
take_ready bitcoin pending =
    let keys = keys_where (has_all_facts pending.facts) pending.active in
    do
      candidates ← take_candidates bitcoin keys pending.active pending.facts
      ok (candidates, without_candidates keys pending)
