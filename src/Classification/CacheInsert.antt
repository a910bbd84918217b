-- ===== src/Classification/CacheInsert.antt =====
-- What an insertion and a lookup do to the script cache.
use mempool_atlas.Prelude.{
  ℕ, ◌+◌, ◌-◌, ◌^◌, ◌≤◌, ◌<◌, ◌≡◌, refl, ◌∙◌, inl, inr, Bool, true, false, not, map_option, none,
  some, [], Bytes, length, bytes_eq, ltb, ◌==◌, Bool-cases, Option-cases, arith,
}
use mempool_atlas.Classification.Cache.{
  OutPoint, ConfirmedCacheEntry, ConfirmedScriptCache, lookup, lru_insert, lru_remove, restamp,
  renumbered, with_stamp_room, allocate_stamp, shrink_to, reserve_for_outputs, drop_entry,
  drop_existing, store, insert_agreeing, insert, touch, get_script, estimated_script_bytes,
}
use mempool_atlas.Classification.CacheEntries.{
  lookup-remove_self, sum_bytes-insert_entry, lookup-insert_entry, IsUnique-insert_entry,
}
use mempool_atlas.Classification.CacheBounds.{
  IsAccounted, Keeps, Keeps-refl, Keeps-trans, with_lru, with_lru-Keeps, set_stamp-Keeps,
  evicted-Keeps, restamp-Keeps, shrink_from-Keeps, shrink_from-le,
}

abbrev with_next : ℕ → ConfirmedScriptCache → ConfirmedScriptCache
with_next n c = record c { next_stamp = n }

with_next-Keeps : (n : ℕ) (c : ConfirmedScriptCache) → IsAccounted c → Keeps c (with_next n c)
with_next-Keeps n c a = record {
  accounted = record { counted = a.counted; unique = a.unique };
  bound = refl;
  bytes = omega arith;
  absent = λ o h. h;
}

renumbered-Keeps : (c : ConfirmedScriptCache) → IsAccounted c → Keeps c (renumbered c)
unfolding renumbered
renumbered-Keeps c a =
    let k = with_lru-Keeps [] c a in
    let r = restamp-Keeps 0 c.lru (with_lru [] c) k.accounted in
    Keeps-trans c _ _ k (
      Keeps-trans (with_lru [] c) _ _ r
        (with_next-Keeps (length (restamp 0 c.lru (with_lru [] c)).lru) _ r.accounted))

with_stamp_room-Keeps : (c : ConfirmedScriptCache) → IsAccounted c → Keeps c (with_stamp_room c)
unfolding with_stamp_room
with_stamp_room-Keeps c a = elim (Bool-cases (c.next_stamp == 2 ^ 64 - 1)) [
  | inl t ↦ rw t (renumbered-Keeps c a)
  | inr f ↦ rw f (Keeps-refl c a)
]

allocate_stamp-Keeps : (c : ConfirmedScriptCache) → IsAccounted c → Keeps c (allocate_stamp c).1
unfolding allocate_stamp
allocate_stamp-Keeps c a =
    let k = with_stamp_room-Keeps c a in
    Keeps-trans c _ _ k
      (with_next-Keeps ((with_stamp_room c).next_stamp + 1) (with_stamp_room c) k.accounted)

shrink_to-Keeps :
    (target : ℕ) (c : ConfirmedScriptCache) → IsAccounted c → Keeps c (shrink_to target c)
unfolding shrink_to
shrink_to-Keeps target c a = shrink_from-Keeps target c.lru c a

shrink_to-le :
    (target : ℕ) (c : ConfirmedScriptCache) → (shrink_to target c).estimated_bytes ≤ target
unfolding shrink_to
shrink_to-le target c = shrink_from-le target c.lru c

drop_entry-Keeps :
    (o : OutPoint) (e : ConfirmedCacheEntry) (c : ConfirmedScriptCache)
    → IsAccounted c
    → lookup o c.entries ≡ some e
    → Keeps c (drop_entry o e c)
unfolding drop_entry
drop_entry-Keeps o e c a h = evicted-Keeps o e (lru_remove (e.stamp, o) c.lru) c a h

drop_entry-absent :
    (o : OutPoint) (e : ConfirmedCacheEntry) (c : ConfirmedScriptCache)
    → IsAccounted c
    → lookup o (drop_entry o e c).entries ≡ none
unfolding drop_entry
drop_entry-absent o e c a = lookup-remove_self o c.entries a.unique

drop_existing-Keeps :
    (o : OutPoint) (c : ConfirmedScriptCache) → IsAccounted c → Keeps c (drop_existing o c)
unfolding drop_existing
drop_existing-Keeps o c a = elim (Option-cases (lookup o c.entries)) [
  | inl n ↦ rw (n, drop_existing) (Keeps-refl c a)
  | inr (e, s) ↦ rw (s, drop_existing) (drop_entry-Keeps o e c a s)
]

drop_existing-absent :
    (o : OutPoint) (c : ConfirmedScriptCache)
    → IsAccounted c
    → lookup o (drop_existing o c).entries ≡ none
unfolding drop_existing
drop_existing-absent o c a = elim (Option-cases (lookup o c.entries)) [
  | inl n ↦ rw (n, drop_existing) n
  | inr (e, s) ↦ rw (s, drop_existing) (drop_entry-absent o e c a)
]

-- The entry stored last, and what the cache then accounts for.
data Stored (o : OutPoint) (script : Bytes) (c after : ConfirmedScriptCache) : Type 0 where
  stored :
      (entry : ConfirmedCacheEntry)
      → lookup o after.entries ≡ some entry
      → entry.script ≡ script
      → IsAccounted after
      → after.maximum_bytes ≡ c.maximum_bytes
      → after.estimated_bytes ≤ c.estimated_bytes + estimated_script_bytes script
      → Stored o script c after

store-Stored :
    (o : OutPoint) (script : Bytes) (c : ConfirmedScriptCache)
    → IsAccounted c
    → lookup o c.entries ≡ none
    → c.estimated_bytes + estimated_script_bytes script ≤ 2 ^ 64 - 1
    → Stored o script c (store o script c)
unfolding store
store-Stored o script c a n fits =
    let k = allocate_stamp-Keeps c a in
    let entry : ConfirmedCacheEntry = record {
      script = script;
      estimated_bytes = estimated_script_bytes script;
      stamp = (allocate_stamp c).0;
    } in
    let sum = sum_bytes-insert_entry o entry (allocate_stamp c).1.entries (k.absent o n) in
    stored entry (lookup-insert_entry o entry (allocate_stamp c).1.entries) refl
      (record {
        counted = omega (arith, k.accounted.counted, k.bytes, fits, sum);
        unique =
            IsUnique-insert_entry o entry (allocate_stamp c).1.entries (k.absent o n)
              k.accounted.unique;
      })
      k.bound (omega (arith, k.bytes, fits))

-- The outcomes of an insertion.
pub data Inserted (o : OutPoint) (script : Bytes) (reserved : ℕ) (c : ConfirmedScriptCache)
    (r : Bool × ConfirmedScriptCache) : Type 0 where
  -- another script was cached: it goes, and the new one is not taken
  conflict :
      (existing : ConfirmedCacheEntry)
      → lookup o c.entries ≡ some existing
      → bytes_eq existing.script script ≡ false
      → r.0 ≡ false
      → lookup o r.1.entries ≡ none
      → Inserted o script reserved c r
  -- the script alone exceeds what is available
  refused :
      c.maximum_bytes < reserved + estimated_script_bytes script
      → r ≡ (false, c)
      → Inserted o script reserved c r
  accepted :
      (entry : ConfirmedCacheEntry)
      → r.0 ≡ true
      → lookup o r.1.entries ≡ some entry
      → entry.script ≡ script
      → r.1.estimated_bytes + reserved ≤ c.maximum_bytes
      → Inserted o script reserved c r

-- The cache accounts for its entries, within its bound.
pub record IsBounded (cache : ConfirmedScriptCache) : Type 0 where
  pub accounted : IsAccounted cache
  pub within_bound : cache.estimated_bytes ≤ cache.maximum_bytes

-- The cache after a step, under the same bound.
abbrev pub StaysBounded : ConfirmedScriptCache → ConfirmedScriptCache → Type 0
StaysBounded c after = IsBounded after × (after.maximum_bytes ≡ c.maximum_bytes)

abbrev Outcome : OutPoint → Bytes → ℕ → ConfirmedScriptCache → Bool × ConfirmedScriptCache → Type 0
Outcome o script reserved c r = Inserted o script reserved c r × StaysBounded c r.1

Keeps-StaysBounded :
    (c after : ConfirmedScriptCache) → IsBounded c → Keeps c after → StaysBounded c after
Keeps-StaysBounded c after b k = (
  record {
    accounted = k.accounted;
    within_bound = omega (arith, k.bytes, k.bound, b.within_bound);
  },
  k.bound,
)

lift :
    (o : OutPoint) (script : Bytes) (reserved : ℕ) (c room after : ConfirmedScriptCache)
    → Keeps c room
    → room.estimated_bytes + estimated_script_bytes script + reserved ≤ c.maximum_bytes
    → Stored o script room after
    → Outcome o script reserved c (true, after)
lift o script reserved c room after k fits (stored entry l same accounted bound bytes) = (
  accepted entry refl l same (omega (arith, fits, bytes)),
  (
    record { accounted = accounted; within_bound = omega (arith, fits, bytes, bound, k.bound) },
    bound ∙ k.bound,
  ),
)

bytes-pos : (script : Bytes) → 1 ≤ estimated_script_bytes script
unfolding estimated_script_bytes
bytes-pos script = omega arith

insert_agreeing-Outcome :
    (o : OutPoint) (script : Bytes) (reserved : ℕ) (c : ConfirmedScriptCache)
    → IsBounded c
    → c.maximum_bytes < 2 ^ 64
    → Outcome o script reserved c (insert_agreeing o script reserved c)
unfolding insert_agreeing
insert_agreeing-Outcome o script reserved c b small =
    elim (Bool-cases (ltb (c.maximum_bytes - reserved) (estimated_script_bytes script))) [
      | inl t ↦
          rw t (refused (ground arith) refl, Keeps-StaysBounded c c b (Keeps-refl c b.accounted))
      | inr f ↦
          let target = c.maximum_bytes - reserved - estimated_script_bytes script in
          let d = drop_existing-Keeps o c b.accounted in
          let s = shrink_to-Keeps target (drop_existing o c) d.accounted in
          let fits : estimated_script_bytes script ≤ c.maximum_bytes - reserved = ground arith in
          let le = shrink_to-le target (drop_existing o c) in
          rw f (
            lift o script reserved c (shrink_to target (drop_existing o c)) _
              (Keeps-trans c _ _ d s) (omega (arith, le, fits, bytes-pos script))
              (store-Stored o script (shrink_to target (drop_existing o c)) s.accounted
                (s.absent o (drop_existing-absent o c b.accounted))
                (omega (arith, le, fits, small))))
    ]

-- From a cache that accounts for its entries within its bound, below 2 ^ 64, an insertion leaves
-- such a cache with the same bound, whatever its branch. Either another script was cached for the
-- outpoint, and the answer is no and neither is cached; or the script alone exceeds what is
-- available, and the cache is unchanged; or the answer is yes, the script is cached, and the
-- entries leave the reserved bytes free.
pub insert-Inserted :
    (o : OutPoint) (script : Bytes) (reserved : ℕ) (c : ConfirmedScriptCache)
    → IsBounded c
    → c.maximum_bytes < 2 ^ 64
    → Inserted o script reserved c (insert o script reserved c)
      × StaysBounded c (insert o script reserved c).1
unfolding insert
insert-Inserted o script reserved c b small = elim (Option-cases (lookup o c.entries)) [
  | inl n ↦ rw (n, insert) (insert_agreeing-Outcome o script reserved c b small)
  | inr (e, s) ↦ elim (Bool-cases (not (bytes_eq e.script script))) [
    | inl t ↦
        rw (s, t, insert)
          (
            conflict e s (ground arith) refl (drop_entry-absent o e c b.accounted),
            Keeps-StaysBounded c _ b (drop_entry-Keeps o e c b.accounted s),
          )
    | inr f ↦ rw (s, f, insert) (insert_agreeing-Outcome o script reserved c b small)
  ]
]

-- Making room for the outputs of other transactions leaves their bytes free, and a cache that
-- accounts for its entries within its bound stays one.
pub reserve_for_outputs-StaysBounded :
    (output_bytes : ℕ) (c : ConfirmedScriptCache)
    → IsBounded c
    → StaysBounded c (reserve_for_outputs output_bytes c)
      × ((reserve_for_outputs output_bytes c).estimated_bytes ≤ c.maximum_bytes - output_bytes)
unfolding reserve_for_outputs
reserve_for_outputs-StaysBounded output_bytes c b = (
  Keeps-StaysBounded c _ b (shrink_to-Keeps (c.maximum_bytes - output_bytes) c b.accounted),
  shrink_to-le (c.maximum_bytes - output_bytes) c,
)

touch-Keeps :
    (o : OutPoint) (e : ConfirmedCacheEntry) (c : ConfirmedScriptCache)
    → IsAccounted c
    → Keeps c (touch o e c)
unfolding touch
touch-Keeps o e c a =
    let l = with_lru-Keeps (lru_remove (e.stamp, o) c.lru) c a in
    let k = allocate_stamp-Keeps (with_lru (lru_remove (e.stamp, o) c.lru) c) l.accounted in
    let allocated = allocate_stamp (with_lru (lru_remove (e.stamp, o) c.lru) c) in
    Keeps-trans c _ _ l (
      Keeps-trans _ _ _ k (
        set_stamp-Keeps o allocated.0 (lru_insert (allocated.0, o) allocated.1.lru) allocated.1
          k.accounted))

-- A lookup answers with the script that is cached for the outpoint, and none if there is none; it
-- leaves a cache that accounts for its entries within its bound.
pub get_script-StaysBounded :
    (o : OutPoint) (c : ConfirmedScriptCache)
    → IsBounded c
    → ((get_script o c).0 ≡ map_option (λ e. e.script) (lookup o c.entries))
      × StaysBounded c (get_script o c).1
unfolding get_script
get_script-StaysBounded o c b = elim (Option-cases (lookup o c.entries)) [
  | inl n ↦ rw (n, get_script) (refl, Keeps-StaysBounded c c b (Keeps-refl c b.accounted))
  | inr (e, s) ↦ rw (s, get_script) (refl, Keeps-StaysBounded c _ b (touch-Keeps o e c b.accounted))
]
