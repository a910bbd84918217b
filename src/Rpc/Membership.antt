-- ===== src/Rpc/Membership.antt =====
-- src/rpc.rs: one complete snapshot of the mempool, from the answers of the node.
use Prim.Native.String.{String}
use text.Mathlib.Text.{◌==◌ as str_eq}
use mempool_atlas.Prelude.{
  ℕ, ℤ, pos, negsuc, ◌+◌, ◌*◌, ◌-◌, ◌^◌, min, Bool, true, false, ◌&&◌, ◌||◌, not, Option, none,
  some, List, [], ◌∷◌, any, length, is_empty, ltb, leb, ◌==◌, if◌then◌else◌,
}
use mempool_atlas.Results.{Result, ok, err, panic, reject, ◌>>=◌, ◌>>◌}
use mempool_atlas.Model.Error.{ModelError}
use mempool_atlas.Model.Source.{codes}
use mempool_atlas.Model.Rules.{max_safe_json_integer}
use mempool_atlas.Model.Entry.{MempoolEntry, new_variant}
use mempool_atlas.Model.Snapshot.{ChainTip, MempoolSnapshot, str_lt, new_with_collection_window}
use mempool_atlas.Rpc.Error.{
  RpcError, MembershipRpcError, invalid_rpc_url, rpc_url_contains_userinfo, get_mempool_info,
  get_raw_mempool, get_blockchain_info, invalid_mempool_entry_limit, invalid_mempool_size,
  snapshot_too_large, invalid_txid, invalid_wtxid, duplicate_txid, duplicate_wtxid,
  entry_time_overflow, invalid_entry_facts, invalid_best_block_hash, invalid_block_height,
  unstable_chain_tip, invalid_snapshot,
}

abbrev pub max_supported_mempool_entries : ℕ
max_supported_mempool_entries = 200_000

abbrev pub verbose_entry_budget_bytes : ℕ
verbose_entry_budget_bytes = 4 * 1024

abbrev pub raw_mempool_envelope_bytes : ℕ
raw_mempool_envelope_bytes = 64 * 1024

-- A `usize` has 64 bits.
unfoldable pub raw_mempool_response_limit : ℕ → ℕ
raw_mempool_response_limit maximum_entries =
    min
      (min (maximum_entries * verbose_entry_budget_bytes) (2 ^ 64 - 1) + raw_mempool_envelope_bytes)
      (2 ^ 64 - 1)

abbrev pub strip_prefix : List ℕ → List ℕ → Option (List ℕ)
strip_prefix [] text = some text
strip_prefix (p ∷ ps) [] = none
strip_prefix (p ∷ ps) (c ∷ text) = let rest = strip_prefix ps text in if p == c then rest else none

-- `split(['/', '?', '#']).next()`
abbrev pub authority_of : List ℕ → List ℕ
authority_of [] = []
authority_of (c ∷ text) =
    let rest = authority_of text in if c == 0x2f || (c == 0x3f || c == 0x23) then [] else c ∷ rest

abbrev pub check_authority : Option (List ℕ) → Result RpcError Unit
check_authority none = err invalid_rpc_url
check_authority (some remainder) = do
  reject (is_empty (authority_of remainder)) invalid_rpc_url
  reject (any (◌==◌ 0x40) (authority_of remainder)) rpc_url_contains_userinfo

unfoldable pub validate_rpc_url : String → Result RpcError Unit
validate_rpc_url url = check_authority (strip_prefix (codes "http://") (codes url))

unfoldable pub validate_configured_limit : ℕ → Result RpcError Unit
validate_configured_limit maximum =
    reject (maximum == 0 || ltb max_supported_mempool_entries maximum)
      (invalid_mempool_entry_limit maximum max_supported_mempool_entries)

unfoldable pub validate_reported_mempool_size : ℤ → ℕ → Result RpcError Unit
validate_reported_mempool_size (negsuc n) maximum = err (invalid_mempool_size (negsuc n))
validate_reported_mempool_size (pos actual) maximum =
    reject (ltb maximum actual) (snapshot_too_large actual maximum)

unfoldable pub enforce_snapshot_limit : ℕ → ℕ → Result RpcError Unit
enforce_snapshot_limit actual maximum =
    reject (ltb maximum actual) (snapshot_too_large actual maximum)

pub record BlockchainInfoWire : Type 0 where
  pub blocks : ℕ
  pub bestblockhash : String

pub record RawMempoolEntryWire : Type 0 where
  pub wtxid : String
  pub vsize : ℕ
  pub weight : ℕ
  pub time : ℕ
  pub ancestor_count : ℕ
  pub ancestor_vsize : ℕ
  pub descendant_count : ℕ
  pub descendant_vsize : ℕ
  pub replaceable : Bool
  pub base : ℕ
  pub ancestor : ℤ

-- An item of the streamed object: a key with its value, if that has the shape of an entry, or what
-- is no JSON.
pub data MapItem : Type 0 where
  pair : String → Option RawMempoolEntryWire → MapItem
  broken : MapItem

abbrev pub or_reject : {A : Type 0} → Option A → RpcError → Result RpcError A
or_reject none e = err e
or_reject (some a) e = ok a

abbrev pub with_error :
    {A : Type 0} → (ModelError → RpcError) → Result ModelError A → Result RpcError A
with_error wrap (err e) = err (wrap e)
with_error wrap (ok a) = ok a
with_error wrap panic = panic

-- The first error is kept, and what follows is skipped.
pub record Visited : Type 0 where
  pub entries : List MempoolEntry
  pub validation_error : Option RpcError

unfoldable pub sort_insert : MempoolEntry → List MempoolEntry → List MempoolEntry
sort_insert e [] = e ∷ []
sort_insert e (x ∷ xs) =
    let rest = sort_insert e xs in if str_lt x.txid e.txid then x ∷ rest else e ∷ x ∷ xs

-- `sort_unstable_by` on the ids; entries with the same id are rejected next.
unfoldable pub sort_entries : List MempoolEntry → List MempoolEntry
unfolding sort_insert
sort_entries [] = []
sort_entries (e ∷ es) = sort_insert e (sort_entries es)

-- `windows(2).find(…)`
unfoldable pub check_txids : List MempoolEntry → Result RpcError Unit
check_txids (a ∷ b ∷ rest) = do
  reject (str_eq a.txid b.txid) (duplicate_txid a.txid)
  check_txids (b ∷ rest)
check_txids _ = ok tt

unfoldable pub check_wtxids : List MempoolEntry → (seen : List String) → Result RpcError Unit
check_wtxids [] seen = ok tt
check_wtxids (e ∷ es) seen = do
  reject (any (str_eq e.wtxid) seen) (duplicate_wtxid e.wtxid)
  check_wtxids es (e.wtxid ∷ seen)

unfoldable pub into_entries :
    Result RpcError (List MempoolEntry) → (maximum : ℕ) → Result RpcError (List MempoolEntry)
unfolding enforce_snapshot_limit sort_entries check_txids check_wtxids
into_entries wire maximum = do
  entries ← wire
  enforce_snapshot_limit (length entries) maximum
  let sorted = sort_entries entries
  check_txids sorted
  check_wtxids sorted []
  ok sorted

-- The entry is pushed at the end; here the later ones follow.
abbrev pub keep_entry : Result RpcError MempoolEntry → Visited → Visited
keep_entry (err e) later = record { entries = []; validation_error = some e }
keep_entry panic later = later
keep_entry (ok entry) later = record later { entries = entry ∷ later.entries }

abbrev pub map_visited : (Visited → Visited) → Result String Visited → Result String Visited
map_visited f (err e) = err e
map_visited f (ok visited) = ok (f visited)
map_visited f panic = panic

abbrev pub wire_of : Visited → Result RpcError (List MempoolEntry)
wire_of visited = elim visited.validation_error [ none ↦ ok visited.entries | some e ↦ err e ]

abbrev pub with_call_error : {E A : Type 0} → (E → RpcError) → Result E A → Result RpcError A
with_call_error wrap (err e) = err (wrap e)
with_call_error wrap (ok a) = ok a
with_call_error wrap panic = panic

-- What the clock and the node answer in turn.
pub record Answers : Type 0 where
  pub started : Result RpcError ℕ
  pub starting_chain : Result MembershipRpcError BlockchainInfoWire
  pub mempool_size : Result MembershipRpcError ℤ
  pub raw_mempool : Result MembershipRpcError (List MapItem)
  pub ending_chain : Result MembershipRpcError BlockchainInfoWire
  pub completed : Result RpcError ℕ

abbrev pub decode_failed : String → RpcError
decode_failed e = get_raw_mempool (MembershipRpcError.decode_result e)

-- The ids are parsed and shown by the bitcoin crate: `from_str(…)?.to_string()`.
module _ (canonical_txid canonical_wtxid canonical_hash : String → Option String) where
  unfoldable pub decode_chain_tip : BlockchainInfoWire → Result RpcError ChainTip
  decode_chain_tip chain = do
    reject (ltb max_safe_json_integer chain.blocks) (invalid_block_height chain.blocks)
    hash ←
        or_reject (canonical_hash chain.bestblockhash) (invalid_best_block_hash chain.bestblockhash)
    ok (record { height = chain.blocks; hash = hash })

  unfoldable pub decode_entry : String → RawMempoolEntryWire → Result RpcError MempoolEntry
  unfolding new_variant
  decode_entry value entry = do
    txid ← or_reject (canonical_txid value) (invalid_txid value)
    wtxid ← or_reject (canonical_wtxid entry.wtxid) (invalid_wtxid entry.wtxid)
    reject (leb (2 ^ 64) (entry.time * 1000)) (entry_time_overflow txid entry.time)
    with_error (invalid_entry_facts txid) (
        new_variant txid wtxid entry.vsize entry.base (entry.time * 1000) (record {
          weight = entry.weight;
          ancestor_count = entry.ancestor_count;
          ancestor_vsize = entry.ancestor_vsize;
          ancestor_fee_sats = entry.ancestor;
          descendant_count = entry.descendant_count;
          descendant_vsize = entry.descendant_vsize;
          replaceable = entry.replaceable;
        }))

  -- The loop over the streamed object; once it has failed, the values are skipped.
  unfoldable pub visit_from :
      List MapItem → (maximum observed : ℕ) → (failed : Bool) → Result String Visited
  unfolding decode_entry
  visit_from [] maximum observed failed = ok (record { entries = []; validation_error = none })
  visit_from (broken ∷ items) maximum observed failed = err "invalid JSON"
  visit_from (pair key value ∷ items) maximum observed failed =
      let count = min (observed + 1) (2 ^ 64 - 1) in
      let skipping = visit_from items maximum count true in
      let going_on = visit_from items maximum count false in
      if failed
      then skipping
      else if ltb maximum count
      then map_visited (keep_entry (err (snapshot_too_large count maximum))) skipping
      else elim value [
        | none ↦ err "invalid type"
        | some wire ↦ elim (decode_entry key wire) [
          | err e ↦ map_visited (keep_entry (err e)) skipping
          | ok entry ↦ map_visited (keep_entry (ok entry)) going_on
          | panic ↦ panic
        ]
      ]

  unfoldable pub collect_entries : (maximum : ℕ) → Answers → Result RpcError (List MempoolEntry)
  unfolding validate_reported_mempool_size visit_from into_entries
  collect_entries maximum answers = do
    size ← with_call_error get_mempool_info answers.mempool_size
    validate_reported_mempool_size size maximum
    items ← with_call_error get_raw_mempool answers.raw_mempool
    visited ← with_call_error decode_failed (visit_from items maximum 0 false)
    into_entries (wire_of visited) maximum

  unfoldable pub finish_snapshot :
      (atlas_version source_id source_label : String) (started : ℕ)
      → (starting_tip : ChainTip) → List MempoolEntry
      → Answers
      → Result RpcError MempoolSnapshot
  unfolding decode_chain_tip new_with_collection_window
  finish_snapshot atlas_version source_id source_label started starting_tip entries answers = do
    ending_chain ← with_call_error get_blockchain_info answers.ending_chain
    completed ← answers.completed
    ending_tip ← decode_chain_tip ending_chain
    reject
        (not (starting_tip.height == ending_tip.height && str_eq starting_tip.hash ending_tip.hash))
        (unstable_chain_tip starting_tip.height starting_tip.hash ending_tip.height ending_tip.hash)
    with_error invalid_snapshot (
        new_with_collection_window atlas_version source_id source_label started completed
          (completed - started) ending_tip entries)

  unfoldable pub get_mempool_snapshot :
      (atlas_version source_id source_label : String)
      → (maximum : ℕ) → Answers
      → Result RpcError MempoolSnapshot
  unfolding decode_chain_tip collect_entries finish_snapshot
  get_mempool_snapshot atlas_version source_id source_label maximum answers = do
    started ← answers.started
    starting_chain ← with_call_error get_blockchain_info answers.starting_chain
    starting_tip ← decode_chain_tip starting_chain
    entries ← collect_entries maximum answers
    finish_snapshot atlas_version source_id source_label started starting_tip entries answers
