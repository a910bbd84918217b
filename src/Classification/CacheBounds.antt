-- ===== src/Classification/CacheBounds.antt =====
-- The bytes that the script cache accounts for, and what an insertion leaves in it.
use mempool_atlas.Prelude.{
  ℕ, ◌+◌, ◌-◌, ◌≤◌, ◌≡◌, refl, sym, ◌∙◌, inl, inr, not, none, some, [], ◌∷◌, ltb, ◌==◌, Bool-cases,
  Option-cases, arith,
}
use mempool_atlas.Classification.Cache.{
  OutPoint, ConfirmedCacheEntry, ConfirmedScriptCache, Lru, lookup, remove, lru_insert, restamp,
  shrink_from, set_stamp,
}
use mempool_atlas.Classification.CacheEntries.{
  sum_bytes, IsUnique, sum_bytes-remove, IsUnique-remove, sum_bytes-set_stamp, IsUnique-set_stamp,
  lookup-set_stamp_absent, lookup-remove-none,
}

-- The count of bytes is the sum over the entries, and no outpoint is cached twice.
pub record IsAccounted (cache : ConfirmedScriptCache) : Type 0 where
  pub counted : cache.estimated_bytes ≡ sum_bytes cache.entries
  pub unique : IsUnique cache.entries

-- What a step keeps that only makes room: the bytes do not grow, the bound stays, and what is
-- absent stays absent.
pub record Keeps (before after : ConfirmedScriptCache) : Type 0 where
  pub accounted : IsAccounted after
  pub bound : after.maximum_bytes ≡ before.maximum_bytes
  pub bytes : after.estimated_bytes ≤ before.estimated_bytes
  pub absent : (o : OutPoint) → lookup o before.entries ≡ none → lookup o after.entries ≡ none

pub Keeps-refl : (c : ConfirmedScriptCache) → IsAccounted c → Keeps c c
Keeps-refl c a = record { accounted = a; bound = refl; bytes = omega arith; absent = λ o h. h }

pub Keeps-trans : (a b c : ConfirmedScriptCache) → Keeps a b → Keeps b c → Keeps a c
Keeps-trans a b c p q = record {
  accounted = q.accounted;
  bound = q.bound ∙ p.bound;
  bytes = omega (arith, p.bytes, q.bytes);
  absent = λ o h. q.absent o (p.absent o h);
}

abbrev pub with_lru : Lru → ConfirmedScriptCache → ConfirmedScriptCache
with_lru lru c = record c { lru = lru }

pub with_lru-Keeps :
    (lru : Lru) (c : ConfirmedScriptCache) → IsAccounted c → Keeps c (with_lru lru c)
with_lru-Keeps lru c a = record {
  accounted = record { counted = a.counted; unique = a.unique };
  bound = refl;
  bytes = omega arith;
  absent = λ o h. h;
}

pub set_stamp-Keeps :
    (o : OutPoint) (s : ℕ) (lru : Lru) (c : ConfirmedScriptCache)
    → IsAccounted c
    → Keeps c (record c { entries = set_stamp o s c.entries; lru = lru })
set_stamp-Keeps o s lru c a = record {
  accounted = record {
    counted = a.counted ∙ sym (sum_bytes-set_stamp o s c.entries);
    unique = IsUnique-set_stamp o s c.entries a.unique;
  };
  bound = refl;
  bytes = omega arith;
  absent = λ k h. lookup-set_stamp_absent k o s c.entries h;
}

abbrev pub evicted :
    OutPoint → ConfirmedCacheEntry → Lru → ConfirmedScriptCache → ConfirmedScriptCache
evicted o entry lru c = record c {
  entries = remove o c.entries;
  lru = lru;
  estimated_bytes = c.estimated_bytes - entry.estimated_bytes;
}

pub evicted-Keeps :
    (o : OutPoint) (entry : ConfirmedCacheEntry) (lru : Lru) (c : ConfirmedScriptCache)
    → IsAccounted c
    → lookup o c.entries ≡ some entry
    → Keeps c (evicted o entry lru c)
evicted-Keeps o entry lru c a h = record {
  accounted = record {
    counted = omega (arith, a.counted, sum_bytes-remove o c.entries entry h);
    unique = IsUnique-remove o c.entries a.unique;
  };
  bound = refl;
  bytes = omega arith;
  absent = λ k n. lookup-remove-none k o c.entries n;
}

pub restamp-Keeps :
    (index : ℕ) (xs : Lru) (c : ConfirmedScriptCache) → IsAccounted c → Keeps c (restamp index xs c)
unfolding restamp
restamp-Keeps index [] c a = Keeps-refl c a
restamp-Keeps index (x ∷ xs) c a = elim (Option-cases (lookup x.1 c.entries)) [
  | inl n ↦ rw (n, restamp) (restamp-Keeps (index + 1) xs c a)
  | inr (e, s) ↦
      let k = set_stamp-Keeps x.1 index (lru_insert (index, x.1) c.lru) c a in
      rw (s, restamp) (Keeps-trans c _ _ k (restamp-Keeps (index + 1) xs _ k.accounted))
]

pub shrink_from-Keeps :
    (target : ℕ) (xs : Lru) (c : ConfirmedScriptCache)
    → IsAccounted c
    → Keeps c (shrink_from target xs c)
unfolding shrink_from
shrink_from-Keeps target [] c a = elim (Bool-cases (ltb target c.estimated_bytes)) [
  | inl t ↦ rw t (record {
    accounted = record { counted = refl; unique = tt };
    bound = refl;
    bytes = omega arith;
    absent = λ o h. refl;
  })
  | inr f ↦ rw f (with_lru-Keeps [] c a)
]
shrink_from-Keeps target (x ∷ xs) c a = elim (Bool-cases (not (ltb target c.estimated_bytes))) [
  | inl t ↦ rw t (with_lru-Keeps (x ∷ xs) c a)
  | inr f ↦ elim (Option-cases (lookup x.1 c.entries)) [
    | inl n ↦ rw (f, n) (shrink_from-Keeps target xs c a)
    | inr (e, s) ↦ elim (Bool-cases (e.stamp == x.0)) [
      | inl t ↦
          let k = evicted-Keeps x.1 e c.lru c a s in
          rw (f, s, t) (Keeps-trans c _ _ k (shrink_from-Keeps target xs _ k.accounted))
      | inr g ↦ rw (f, s, g) (shrink_from-Keeps target xs c a)
    ]
  ]
]

-- The loop ends at or below the target, whatever `lru` holds.
pub shrink_from-le :
    (target : ℕ) (xs : Lru) (c : ConfirmedScriptCache)
    → (shrink_from target xs c).estimated_bytes ≤ target
unfolding shrink_from
shrink_from-le target [] c = ground arith
shrink_from-le target (x ∷ xs) c = elim (Bool-cases (not (ltb target c.estimated_bytes))) [
  | inl t ↦ rw t (ground arith)
  | inr f ↦ elim (Option-cases (lookup x.1 c.entries)) [
    | inl n ↦ rw (f, n) (shrink_from-le target xs c)
    | inr (e, s) ↦ elim (Bool-cases (e.stamp == x.0)) [
      | inl t ↦ rw (f, s, t) (shrink_from-le target xs (evicted x.1 e c.lru c))
      | inr g ↦ rw (f, s, g) (shrink_from-le target xs c)
    ]
  ]
]
