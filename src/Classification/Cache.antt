-- ===== src/Classification/Cache.antt =====
-- src/classification.rs: the cache of the scripts of confirmed outpoints.
use mempool_atlas.Prelude.{
  ℕ, ◌+◌, ◌-◌, ◌^◌, Bool, true, false, not, ◌&&◌, ◌||◌, Option, none, some, List, [], ◌∷◌, Bytes,
  bytes_eq, length, ltb, ◌==◌, if◌then◌else◌,
}
use mempool_atlas.Classification.Batches.{saturate, estimated_json_bytes_per_response}

-- `bitcoin::OutPoint`, with its derived equality and order.
pub record OutPoint : Type 0 where
  pub txid : Bytes
  pub vout : ℕ

abbrev pub outpoint_eq : OutPoint → OutPoint → Bool
outpoint_eq a b = bytes_eq a.txid b.txid && a.vout == b.vout

abbrev pub bytes_lt : Bytes → Bytes → Bool
bytes_lt [] [] = false
bytes_lt [] (y ∷ ys) = true
bytes_lt (x ∷ xs) [] = false
bytes_lt (x ∷ xs) (y ∷ ys) = ltb x y || (x == y && bytes_lt xs ys)

abbrev pub outpoint_lt : OutPoint → OutPoint → Bool
outpoint_lt a b = bytes_lt a.txid b.txid || (bytes_eq a.txid b.txid && ltb a.vout b.vout)

pub record ConfirmedCacheEntry : Type 0 where
  pub script : Bytes
  pub estimated_bytes : ℕ
  pub stamp : ℕ

-- `BTreeMap<OutPoint, ConfirmedCacheEntry>` as its pairs.
abbrev pub Entries : Type 0
Entries = List (OutPoint × ConfirmedCacheEntry)

abbrev pub lookup : OutPoint → Entries → Option ConfirmedCacheEntry
lookup o [] = none
lookup o (p ∷ ps) = let rest = lookup o ps in if outpoint_eq p.0 o then some p.1 else rest

abbrev pub remove : OutPoint → Entries → Entries
remove o [] = []
remove o (p ∷ ps) = let rest = remove o ps in if outpoint_eq p.0 o then ps else p ∷ rest

abbrev pub insert_entry : OutPoint → ConfirmedCacheEntry → Entries → Entries
insert_entry o e [] = (o, e) ∷ []
insert_entry o e (p ∷ ps) =
    let rest = insert_entry o e ps in
    if outpoint_eq p.0 o
    then (o, e) ∷ ps
    else if outpoint_lt o p.0
    then (o, e) ∷ p ∷ ps
    else p ∷ rest

-- `entries.get_mut(…).stamp = stamp`
abbrev pub set_stamp : OutPoint → ℕ → Entries → Entries
set_stamp o stamp [] = []
set_stamp o stamp (p ∷ ps) =
    let rest = set_stamp o stamp ps in
    if outpoint_eq p.0 o then (p.0, record (p.1) { stamp = stamp }) ∷ ps else p ∷ rest

-- `BTreeSet<(u64, OutPoint)>` as its elements in order.
abbrev pub Lru : Type 0
Lru = List (ℕ × OutPoint)

abbrev pub lru_eq : ℕ × OutPoint → ℕ × OutPoint → Bool
lru_eq a b = a.0 == b.0 && outpoint_eq a.1 b.1

abbrev pub lru_remove : ℕ × OutPoint → Lru → Lru
lru_remove x [] = []
lru_remove x (y ∷ ys) = let rest = lru_remove x ys in if lru_eq y x then ys else y ∷ rest

abbrev pub lru_insert : ℕ × OutPoint → Lru → Lru
lru_insert x [] = x ∷ []
lru_insert x (y ∷ ys) =
    let rest = lru_insert x ys in
    if lru_eq y x
    then y ∷ ys
    else if ltb x.0 y.0 || (x.0 == y.0 && outpoint_lt x.1 y.1)
    then x ∷ y ∷ ys
    else y ∷ rest

pub record ConfirmedScriptCache : Type 0 where
  pub entries : Entries
  pub lru : Lru
  pub estimated_bytes : ℕ
  pub maximum_bytes : ℕ
  pub next_stamp : ℕ

unfoldable pub new_cache : ℕ → ConfirmedScriptCache
new_cache maximum_bytes = record {
  entries = [];
  lru = [];
  estimated_bytes = 0;
  maximum_bytes = maximum_bytes;
  next_stamp = 0;
}

-- Stamps are given anew, in the order of the old ones, to the outpoints that are cached.
unfoldable pub restamp : ℕ → Lru → ConfirmedScriptCache → ConfirmedScriptCache
restamp index [] cache = cache
restamp index (x ∷ xs) cache = elim (lookup x.1 cache.entries) [
  | none ↦ restamp (index + 1) xs cache
  | some entry ↦ restamp (index + 1) xs (record cache {
    entries = set_stamp x.1 index cache.entries;
    lru = lru_insert (index, x.1) cache.lru;
  })
]

unfoldable pub renumbered : ConfirmedScriptCache → ConfirmedScriptCache
unfolding restamp
renumbered cache =
    let c = restamp 0 cache.lru (record cache { lru = [] }) in
    record c { next_stamp = length c.lru }

-- Make room for one more stamp.
unfoldable pub with_stamp_room : ConfirmedScriptCache → ConfirmedScriptCache
unfolding renumbered
with_stamp_room cache =
    let c = renumbered cache in if cache.next_stamp == 2 ^ 64 - 1 then c else cache

unfoldable pub allocate_stamp : ConfirmedScriptCache → ℕ × ConfirmedScriptCache
unfolding with_stamp_room
allocate_stamp cache =
    let c = with_stamp_room cache in (c.next_stamp, record c { next_stamp = c.next_stamp + 1 })

-- The loop of `shrink_to` from what is left of `lru`.
unfoldable pub shrink_from : ℕ → Lru → ConfirmedScriptCache → ConfirmedScriptCache
shrink_from target [] cache =
    if ltb target cache.estimated_bytes
    then record cache { entries = []; lru = []; estimated_bytes = 0 }
    else record cache { lru = [] }
shrink_from target (x ∷ xs) cache =
    let skipped = shrink_from target xs cache in
    let evicted = λ (entry : ConfirmedCacheEntry). shrink_from target xs (record cache {
      entries = remove x.1 cache.entries;
      estimated_bytes = cache.estimated_bytes - entry.estimated_bytes;
    }) in
    if not (ltb target cache.estimated_bytes)
    then record cache { lru = x ∷ xs }
    else elim (lookup x.1 cache.entries) [
      | none ↦ skipped
      | some entry ↦ if entry.stamp == x.0 then evicted entry else skipped
    ]

unfoldable pub shrink_to : ℕ → ConfirmedScriptCache → ConfirmedScriptCache
unfolding shrink_from
shrink_to target cache = shrink_from target cache.lru cache

unfoldable pub reserve_for_outputs : ℕ → ConfirmedScriptCache → ConfirmedScriptCache
unfolding shrink_to
reserve_for_outputs output_bytes cache = shrink_to (cache.maximum_bytes - output_bytes) cache

unfoldable pub estimated_script_bytes : Bytes → ℕ
estimated_script_bytes script = saturate (length script + estimated_json_bytes_per_response)

-- An entry of the cache and its element of `lru` go, with the bytes.
unfoldable pub drop_entry :
    OutPoint → ConfirmedCacheEntry → ConfirmedScriptCache → ConfirmedScriptCache
drop_entry o existing cache = record cache {
  entries = remove o cache.entries;
  lru = lru_remove (existing.stamp, o) cache.lru;
  estimated_bytes = cache.estimated_bytes - existing.estimated_bytes;
}

unfoldable pub drop_existing : OutPoint → ConfirmedScriptCache → ConfirmedScriptCache
unfolding drop_entry
drop_existing o cache = elim (lookup o cache.entries) [
  | none ↦ cache
  | some existing ↦ drop_entry o existing cache
]

-- The end of `insert`: a stamp, the bytes, the entry and its element of `lru`.
unfoldable pub store : OutPoint → Bytes → ConfirmedScriptCache → ConfirmedScriptCache
unfolding allocate_stamp estimated_script_bytes
store o script cache =
    let stamp = (allocate_stamp cache).0 in
    let c = (allocate_stamp cache).1 in
    record c {
      estimated_bytes = saturate (c.estimated_bytes + estimated_script_bytes script);
      entries =
          insert_entry o
            (record {
              script = script;
              estimated_bytes = estimated_script_bytes script;
              stamp = stamp;
            })
            c.entries;
      lru = lru_insert (stamp, o) c.lru;
    }

-- `insert` where no other script is cached for the outpoint.
unfoldable pub insert_agreeing :
    OutPoint → Bytes → ℕ → ConfirmedScriptCache → Bool × ConfirmedScriptCache
unfolding drop_existing shrink_to store
insert_agreeing o script reserved_bytes cache =
    let available = cache.maximum_bytes - reserved_bytes in
    let bytes = estimated_script_bytes script in
    if ltb available bytes
    then (false, cache)
    else (true, store o script (shrink_to (available - bytes) (drop_existing o cache)))

unfoldable pub insert : OutPoint → Bytes → ℕ → ConfirmedScriptCache → Bool × ConfirmedScriptCache
unfolding insert_agreeing
insert o script reserved_bytes cache =
    let agreeing = insert_agreeing o script reserved_bytes cache in
    elim (lookup o cache.entries) [
      | none ↦ agreeing
      | some existing ↦
          if not (bytes_eq existing.script script)
          then (false, drop_entry o existing cache)
          else agreeing
    ]

-- `get`: the script, and the entry as the one used last.
unfoldable pub touch : OutPoint → ConfirmedCacheEntry → ConfirmedScriptCache → ConfirmedScriptCache
unfolding allocate_stamp
touch o entry cache =
    let allocated = allocate_stamp (record cache { lru = lru_remove (entry.stamp, o) cache.lru }) in
    record (allocated.1) {
      entries = set_stamp o allocated.0 allocated.1.entries;
      lru = lru_insert (allocated.0, o) allocated.1.lru;
    }

unfoldable pub get_script : OutPoint → ConfirmedScriptCache → Option Bytes × ConfirmedScriptCache
unfolding touch
get_script o cache = elim (lookup o cache.entries) [
  | none ↦ (none, cache)
  | some entry ↦ (some entry.script, touch o entry cache)
]
