-- ===== src/Pending/State.antt =====
-- src/classification.rs: the candidates that wait, and what is known of the outpoints they need.
use Prim.Native.String.{String, compare}
use Prim.Native.Nat.{Ordering}
use text.Mathlib.Text.{◌==◌ as str_eq}
use mempool_atlas.Prelude.{
  ℕ, ◌+◌, Bool, Option, none, some, List, [], ◌∷◌, any, map, get_elem?, Bytes, bytes_eq, length,
  if◌then◌else◌, is_some,
}
use mempool_atlas.Bitcoin.{Transaction}
use mempool_atlas.Classification.Batches.{
  ExpectedVariant, saturate, estimated_json_bytes_per_response,
}
use mempool_atlas.Classification.Cache.{OutPoint, outpoint_eq, outpoint_lt, estimated_script_bytes}

pub data FactSource : Type 0 where
  current_parent confirmed parent_fallback : FactSource

pub data FactState : Type 0 where
  ready : Bytes → FactState
  awaiting : FactSource → (attempts : ℕ) → FactState
  capacity_blocked : FactSource → FactState
  operationally_deferred explicitly_missing : FactState

pub data RpcValue (A : Type 0) : Type 0 where
  found : A → RpcValue A
  explicit_null retryable_failure systemic_failure : RpcValue A

pub record CachedOutputs : Type 0 where
  pub wtxid : String
  pub scripts : List Bytes
  pub estimated_bytes : ℕ

pub record CurrentVariant : Type 0 where
  pub wtxid : String
  pub vsize : ℕ

pub record PreparedCandidate : Type 0 where
  pub expected : ExpectedVariant
  pub transaction : Transaction

pub record PendingCandidate : Type 0 where
  pub expected : ExpectedVariant
  pub transaction : Transaction
  pub required : List OutPoint
  pub fact_cursor : ℕ

-- The maps, as their pairs in the order of the keys.
abbrev pub Facts : Type 0
Facts = List (OutPoint × FactState)

abbrev pub Outputs : Type 0
Outputs = List (Bytes × CachedOutputs)

abbrev pub Variants : Type 0
Variants = List (Bytes × CurrentVariant)

abbrev pub Active : Type 0
Active = List (String × PendingCandidate)

pub record PendingSlice : Type 0 where
  pub queued : List PreparedCandidate
  pub active : Active
  pub fair_order : List String
  pub facts : Facts
  pub deferred_facts : List OutPoint
  pub raw_outputs : Outputs
  pub pending_script_bytes : ℕ

unfoldable pub get_fact : OutPoint → Facts → Option FactState
get_fact o [] = none
get_fact o (p ∷ ps) = let rest = get_fact o ps in if outpoint_eq p.0 o then some p.1 else rest

-- `*facts.get_mut(…)? = state`
unfoldable pub set_fact : OutPoint → FactState → Facts → Facts
set_fact o state [] = []
set_fact o state (p ∷ ps) =
    let rest = set_fact o state ps in if outpoint_eq p.0 o then (p.0, state) ∷ ps else p ∷ rest

unfoldable pub insert_new_fact : OutPoint → FactState → Facts → Facts
insert_new_fact o state [] = (o, state) ∷ []
insert_new_fact o state (p ∷ ps) =
    let rest = insert_new_fact o state ps in
    if outpoint_lt o p.0 then (o, state) ∷ p ∷ ps else p ∷ rest

-- `BTreeMap::insert`
unfoldable pub insert_fact : OutPoint → FactState → Facts → Facts
unfolding get_fact set_fact insert_new_fact
insert_fact o state facts =
    if is_some (get_fact o facts) then set_fact o state facts else insert_new_fact o state facts

-- `entry(…).or_insert(…)`
unfoldable pub or_insert_fact : OutPoint → FactState → Facts → Facts
unfolding get_fact insert_new_fact
or_insert_fact o state facts =
    if is_some (get_fact o facts) then facts else insert_new_fact o state facts

abbrev pub get_outputs : Bytes → Outputs → Option CachedOutputs
get_outputs txid [] = none
get_outputs txid (p ∷ ps) =
    let rest = get_outputs txid ps in if bytes_eq p.0 txid then some p.1 else rest

abbrev pub get_variant : Bytes → Variants → Option CurrentVariant
get_variant txid [] = none
get_variant txid (p ∷ ps) =
    let rest = get_variant txid ps in if bytes_eq p.0 txid then some p.1 else rest

abbrev pub get_active : String → Active → Option PendingCandidate
get_active key [] = none
get_active key (p ∷ ps) = let rest = get_active key ps in if str_eq p.0 key then some p.1 else rest

abbrev pub insert_active : String → PendingCandidate → Active → Active
insert_active key candidate [] = (key, candidate) ∷ []
insert_active key candidate (p ∷ ps) =
    let rest = insert_active key candidate ps in
    elim (compare key p.0) [
      | Ordering.lt ↦ (key, candidate) ∷ p ∷ ps
      | Ordering.eq ↦ (key, candidate) ∷ ps
      | Ordering.gt ↦ p ∷ rest
    ]

abbrev pub remove_active : String → Active → Active
remove_active key [] = []
remove_active key (p ∷ ps) =
    let rest = remove_active key ps in if str_eq p.0 key then ps else p ∷ rest

abbrev pub has_outpoint : List OutPoint → OutPoint → Bool
has_outpoint os o = any (λ x. outpoint_eq x o) os

-- `BTreeSet::insert`
abbrev pub insert_outpoint : OutPoint → List OutPoint → List OutPoint
insert_outpoint o [] = o ∷ []
insert_outpoint o (x ∷ xs) =
    let rest = insert_outpoint o xs in
    if outpoint_eq x o then x ∷ xs else if outpoint_lt o x then o ∷ x ∷ xs else x ∷ rest

unfoldable pub script_at : CachedOutputs → ℕ → Option Bytes
script_at outputs vout = get_elem? outputs.scripts vout

abbrev pub add_script_bytes : ℕ → List Bytes → ℕ
add_script_bytes total [] = total
add_script_bytes total (script ∷ scripts) =
    add_script_bytes (saturate (total + length script)) scripts

unfoldable pub cached_outputs : ExpectedVariant → Transaction → CachedOutputs
cached_outputs expected transaction =
    let scripts = map (λ output. output.script_pubkey) transaction.output in
    record {
      wtxid = expected.wtxid;
      scripts = scripts;
      estimated_bytes = add_script_bytes estimated_json_bytes_per_response scripts;
    }

unfoldable pub fact_bytes : FactState → ℕ
unfolding estimated_script_bytes
fact_bytes (ready script) = estimated_script_bytes script
fact_bytes _ = 0

-- The fold with `saturating_add`
unfoldable pub count_script_bytes : ℕ → Facts → ℕ
unfolding fact_bytes
count_script_bytes total [] = total
count_script_bytes total (p ∷ ps) = count_script_bytes (saturate (total + fact_bytes p.1)) ps

unfoldable pub recount_script_bytes : PendingSlice → PendingSlice
unfolding count_script_bytes
recount_script_bytes pending = record pending {
  pending_script_bytes = count_script_bytes 0 pending.facts;
}
