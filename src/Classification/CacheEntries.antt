-- ===== src/Classification/CacheEntries.antt =====
-- The entries of the script cache as a map, and their bytes.
use mathlib.Core.Bool.{false≢true}
use mempool_atlas.Prelude.{
  ℕ, ◌+◌, ◌≡◌, refl, sym, ◌∙◌, ap, subst, inl, inr, Bool, true, false, ◌&&◌, none, some, [], ◌∷◌,
  Bytes, bytes_eq, bytes_eq_sound, bytes_eq_refl, ==_iff, ◌==◌, Bool-cases, arith, eq_of_some,
}
use mempool_atlas.Classification.Cache.{
  OutPoint, outpoint_eq, outpoint_lt, ConfirmedCacheEntry, Entries, lookup, remove, insert_entry,
  set_stamp,
}

abbrev pub sum_bytes : Entries → ℕ
sum_bytes [] = 0
sum_bytes (p ∷ ps) = p.1.estimated_bytes + sum_bytes ps

-- No outpoint is twice in the map.
abbrev pub IsUnique : Entries → Type 0
IsUnique [] = Unit
IsUnique (p ∷ ps) = (lookup p.0 ps ≡ none) × IsUnique ps

outpoint_of : Bytes → ℕ → OutPoint
outpoint_of txid vout = record { txid = txid; vout = vout }

pub outpoint_eq_refl : (o : OutPoint) → outpoint_eq o o ≡ true
outpoint_eq_refl o = rw (bytes_eq_refl o.txid) ((==_iff o.vout o.vout).1 refl)

both_true : (a b : Bool) → (a && b) ≡ true → (a ≡ true) × (b ≡ true)
both_true a b h = ground arith

pub outpoint_eq_sound : (a b : OutPoint) → outpoint_eq a b ≡ true → a ≡ b
outpoint_eq_sound a b h =
    let parts = both_true (bytes_eq a.txid b.txid) (a.vout == b.vout) h in
    let t = bytes_eq_sound a.txid b.txid parts.0 in
    let v = (==_iff a.vout b.vout).0 parts.1 in λ i. record { txid = t i; vout = v i }

pub sum_bytes-remove :
    (o : OutPoint) (es : Entries) (e : ConfirmedCacheEntry)
    → lookup o es ≡ some e
    → sum_bytes es ≡ e.estimated_bytes + sum_bytes (remove o es)
sum_bytes-remove o [] e h = cc
sum_bytes-remove o (p ∷ ps) e h = elim (Bool-cases (outpoint_eq p.0 o)) [
  | inl t ↦ rw (t, remove) (ap (λ x. x.estimated_bytes + sum_bytes ps) (eq_of_some (rw t at h)))
  | inr f ↦ let ih = sum_bytes-remove o ps e (rw f at h) in rw (f, remove) (omega (arith, ih))
]

pub lookup-remove-none :
    (k o : OutPoint) (es : Entries) → lookup k es ≡ none → lookup k (remove o es) ≡ none
lookup-remove-none k o [] h = refl
lookup-remove-none k o (p ∷ ps) h = ground (arith, lookup-remove-none k o ps)

pub lookup-remove_self : (o : OutPoint) (es : Entries) → IsUnique es → lookup o (remove o es) ≡ none
lookup-remove_self o [] u = refl
lookup-remove_self o (p ∷ ps) (n, u) = elim (Bool-cases (outpoint_eq p.0 o)) [
  | inl t ↦ rw (t, remove) (subst (λ k. lookup k ps ≡ none) (outpoint_eq_sound p.0 o t) n)
  | inr f ↦ rw (f, remove, lookup) (rw f (lookup-remove_self o ps u))
]

pub IsUnique-remove : (o : OutPoint) (es : Entries) → IsUnique es → IsUnique (remove o es)
IsUnique-remove o [] u = tt
IsUnique-remove o (p ∷ ps) (n, u) = elim (Bool-cases (outpoint_eq p.0 o)) [
  | inl t ↦ rw (t, remove) u
  | inr f ↦ rw (f, remove) (lookup-remove-none p.0 o ps n, IsUnique-remove o ps u)
]

pub sum_bytes-set_stamp :
    (o : OutPoint) (s : ℕ) (es : Entries) → sum_bytes (set_stamp o s es) ≡ sum_bytes es
sum_bytes-set_stamp o s [] = refl
sum_bytes-set_stamp o s (p ∷ ps) = ground (arith, sum_bytes-set_stamp o s ps)

lookup-set_stamp-none :
    (k o : OutPoint) (s : ℕ) (es : Entries)
    → lookup k es ≡ none
    → lookup k (set_stamp o s es) ≡ none
lookup-set_stamp-none k o s [] h = refl
lookup-set_stamp-none k o s (p ∷ ps) h = ground (arith, lookup-set_stamp-none k o s ps)

pub IsUnique-set_stamp :
    (o : OutPoint) (s : ℕ) (es : Entries) → IsUnique es → IsUnique (set_stamp o s es)
IsUnique-set_stamp o s [] u = tt
IsUnique-set_stamp o s (p ∷ ps) (n, u) = elim (Bool-cases (outpoint_eq p.0 o)) [
  | inl t ↦ rw (t, set_stamp) (n, u)
  | inr f ↦ rw (f, set_stamp) (lookup-set_stamp-none p.0 o s ps n, IsUnique-set_stamp o s ps u)
]

pub lookup-set_stamp_absent :
    (o k : OutPoint) (s : ℕ) (es : Entries)
    → lookup o es ≡ none
    → lookup o (set_stamp k s es) ≡ none
lookup-set_stamp_absent o k s es h = lookup-set_stamp-none o k s es h

pub sum_bytes-insert_entry :
    (o : OutPoint) (e : ConfirmedCacheEntry) (es : Entries)
    → lookup o es ≡ none
    → sum_bytes (insert_entry o e es) ≡ e.estimated_bytes + sum_bytes es
sum_bytes-insert_entry o e [] h = refl
sum_bytes-insert_entry o e (p ∷ ps) h = ground (arith, sum_bytes-insert_entry o e ps)

pub lookup-insert_entry :
    (o : OutPoint) (e : ConfirmedCacheEntry) (es : Entries)
    → lookup o (insert_entry o e es) ≡ some e
lookup-insert_entry o e [] = rw (outpoint_eq_refl o) refl
lookup-insert_entry o e (p ∷ ps) = ground (arith, lookup-insert_entry o e ps, outpoint_eq_refl o)

lookup-insert_entry-none :
    (k o : OutPoint) (e : ConfirmedCacheEntry) (es : Entries)
    → outpoint_eq o k ≡ false
    → lookup k es ≡ none
    → lookup k (insert_entry o e es) ≡ none
lookup-insert_entry-none k o e [] d h = rw d refl
lookup-insert_entry-none k o e (p ∷ ps) d h = ground (arith, lookup-insert_entry-none k o e ps d)

absent :
    (o : OutPoint) (p : OutPoint × ConfirmedCacheEntry) (ps : Entries)
    → lookup o (p ∷ ps) ≡ none
    → (outpoint_eq p.0 o ≡ false) × (lookup o ps ≡ none)
absent o p ps h = ground arith

outpoint_eq-sym_false : (a b : OutPoint) → outpoint_eq a b ≡ false → outpoint_eq b a ≡ false
outpoint_eq-sym_false a b h = elim (Bool-cases (outpoint_eq b a)) [
  | inl t ↦ absurd (
      false≢true (
        sym h
        ∙ subst (λ x. outpoint_eq a x ≡ true) (sym (outpoint_eq_sound b a t)) (outpoint_eq_refl a)))
  | inr f ↦ f
]

pub IsUnique-insert_entry :
    (o : OutPoint) (e : ConfirmedCacheEntry) (es : Entries)
    → lookup o es ≡ none
    → IsUnique es
    → IsUnique (insert_entry o e es)
IsUnique-insert_entry o e [] h u = (refl, tt)
IsUnique-insert_entry o e (p ∷ ps) h (n, u) =
    let (f, a) = absent o p ps h in
    let g = outpoint_eq-sym_false p.0 o f in
    elim (Bool-cases (outpoint_lt o p.0)) [
      | inl t ↦ rw (f, t) (h, (n, u))
      | inr t ↦
          rw (f, t) (lookup-insert_entry-none p.0 o e ps g n, IsUnique-insert_entry o e ps a u)
    ]
