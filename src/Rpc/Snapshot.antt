-- ===== src/Rpc/Snapshot.antt =====
-- What a snapshot from src/rpc.rs shows of the node's answers.
use Prim.Native.String.{String, compare}
use Prim.Native.Nat.{Ordering}
use text.Mathlib.Text.{◌==◌ as str_eq}
use text.Mathlib.TextEquality.{eq_iff, path_by_compare}
use mathlib.Core.List.{Perm}
use mathlib.Core.List.Perm
use mempool_atlas.Prelude.{
  ℕ, ◌≤◌, ◌≡◌, refl, sym, subst, inl, inr, true, false, List, [], ◌∷◌, any, length, arith,
  Bool-cases, compare_flip, compare_flip_gt,
}
use mempool_atlas.Results.{Result, ok, err, panic, reject, ◌>>◌, >>-ok, reject-ok}
use mempool_atlas.Model.Entry.{MempoolEntry}
use mempool_atlas.Model.Snapshot.{str_lt}
use mempool_atlas.Model.Window.{IsSorted}
use mempool_atlas.Rpc.Error.{RpcError, duplicate_txid, duplicate_wtxid}
use mempool_atlas.Rpc.Membership.{
  sort_insert, sort_entries, check_txids, check_wtxids, into_entries, enforce_snapshot_limit,
}

sort_insert-Perm : (e : MempoolEntry) (es : List MempoolEntry) → Perm (sort_insert e es) (e ∷ es)
unfolding sort_insert
sort_insert-Perm e [] = Perm.refl (e ∷ [])
sort_insert-Perm e (x ∷ xs) = elim (Bool-cases (str_lt x.txid e.txid)) [
  | inl t ↦ rw t (Perm.trans (Perm.cons x (sort_insert-Perm e xs)) (Perm.swap e x xs))
  | inr f ↦ rw f (Perm.refl (e ∷ x ∷ xs))
]

sort_entries-Perm : (es : List MempoolEntry) → Perm (sort_entries es) es
unfolding sort_entries
sort_entries-Perm [] = Perm.refl []
sort_entries-Perm (e ∷ es) =
    Perm.trans (sort_insert-Perm e (sort_entries es)) (Perm.cons e (sort_entries-Perm es))

-- No id is above the next.
abbrev IsOrdered : List MempoolEntry → Type 0
IsOrdered [] = Unit
IsOrdered (a ∷ []) = Unit
IsOrdered (a ∷ b ∷ rest) = (str_lt b.txid a.txid ≡ false) × IsOrdered (b ∷ rest)

lt-compare : (a b : String) → str_lt a b ≡ true → compare a b ≡ Ordering.lt
lt-compare a b h = ground arith

gt-str_lt : (a b : String) → compare a b ≡ Ordering.gt → str_lt a b ≡ false
gt-str_lt a b h = ground arith

str_lt-asym : (a b : String) → str_lt a b ≡ true → str_lt b a ≡ false
str_lt-asym a b h = gt-str_lt b a (compare_flip a b (lt-compare a b h))

-- The head of an insertion is the new entry or the old head.
sort_insert-IsOrdered :
    (e : MempoolEntry) (es : List MempoolEntry) → IsOrdered es → IsOrdered (sort_insert e es)
unfolding sort_insert
sort_insert-IsOrdered e [] o = tt
sort_insert-IsOrdered e (x ∷ []) o = elim (Bool-cases (str_lt x.txid e.txid)) [
  | inl t ↦ rw t (str_lt-asym x.txid e.txid t, tt)
  | inr f ↦ rw f (f, tt)
]
sort_insert-IsOrdered e (x ∷ y ∷ ys) (o, rest) = elim (Bool-cases (str_lt x.txid e.txid)) [
  | inl t ↦
      let ih = sort_insert-IsOrdered e (y ∷ ys) rest in
      elim (Bool-cases (str_lt y.txid e.txid)) [
        | inl u ↦ rw (t, u) (o, rw u at ih)
        | inr g ↦ rw (t, g) (str_lt-asym x.txid e.txid t, rw g at ih)
      ]
  | inr f ↦ rw f (f, (o, rest))
]

sort_entries-IsOrdered : (es : List MempoolEntry) → IsOrdered (sort_entries es)
unfolding sort_entries
sort_entries-IsOrdered [] = tt
sort_entries-IsOrdered (e ∷ es) =
    sort_insert-IsOrdered e (sort_entries es) (sort_entries-IsOrdered es)

eq-of-compare : (a b : String) → compare a b ≡ Ordering.eq → str_eq a b ≡ true
eq-of-compare a b h = (eq_iff a b).1 (path_by_compare a b h)

flip-gt : (a b : String) → compare a b ≡ Ordering.gt → str_lt b a ≡ true
flip-gt a b h = let lt = compare_flip_gt a b h in ground (arith, lt)

str_lt-total : (a b : String) → str_lt b a ≡ false → str_eq a b ≡ false → str_lt a b ≡ true
str_lt-total a b h e = ground (arith, eq-of-compare a b, flip-gt a b)

check_txids-IsSorted :
    (es : List MempoolEntry) → IsOrdered es → check_txids es ≡ ok tt → IsSorted es
unfolding check_txids
check_txids-IsSorted [] o h = tt
check_txids-IsSorted (a ∷ []) o h = tt
check_txids-IsSorted (a ∷ b ∷ rest) (o, os) h =
    let (first, later) =
      >>-ok (reject (str_eq a.txid b.txid) (duplicate_txid a.txid)) (check_txids (b ∷ rest)) h in
    (
      str_lt-total a.txid b.txid o (reject-ok (str_eq a.txid b.txid) (duplicate_txid a.txid) first),
      check_txids-IsSorted (b ∷ rest) os later,
    )

-- No two entries have the same witness id, and none has one that was seen.
abbrev pub IsFresh : List MempoolEntry → (seen : List String) → Type 0
IsFresh [] seen = Unit
IsFresh (e ∷ es) seen = (any (str_eq e.wtxid) seen ≡ false) × IsFresh es (e.wtxid ∷ seen)

check_wtxids-IsFresh :
    (es : List MempoolEntry) (seen : List String) → check_wtxids es seen ≡ ok tt → IsFresh es seen
unfolding check_wtxids
check_wtxids-IsFresh [] seen h = tt
check_wtxids-IsFresh (e ∷ es) seen h =
    let (first, later) =
      >>-ok (reject (any (str_eq e.wtxid) seen) (duplicate_wtxid e.wtxid))
        (check_wtxids es (e.wtxid ∷ seen)) h in
    (
      reject-ok (any (str_eq e.wtxid) seen) (duplicate_wtxid e.wtxid) first,
      check_wtxids-IsFresh es (e.wtxid ∷ seen) later,
    )

into_entries-parts :
    (wire : Result RpcError (List MempoolEntry)) (maximum : ℕ) {es : List MempoolEntry}
    → into_entries wire maximum ≡ ok es
    → (entries : List MempoolEntry) × (wire ≡ ok entries)
      × (length entries ≤ maximum)
      × (es ≡ sort_entries entries)
      × (check_txids es ≡ ok tt)
      × (check_wtxids es [] ≡ ok tt)
unfolding into_entries enforce_snapshot_limit
into_entries-parts (err e) maximum h = cc
into_entries-parts panic maximum h = cc
into_entries-parts (ok entries) maximum {es} h =
    let sorted = sort_entries entries in
    let (limit, rest) =
      >>-ok (enforce_snapshot_limit (length entries) maximum)
        (check_txids sorted >> (check_wtxids sorted [] >> ok sorted)) h in
    let (txids, rest) = >>-ok (check_txids sorted) (check_wtxids sorted [] >> ok sorted) rest in
    let (wtxids, same) = >>-ok (check_wtxids sorted []) (ok sorted) rest in
    let same : sorted ≡ es = cc in
    (
      entries,
      refl,
      ground arith,
      sym same,
      subst (λ x. check_txids x ≡ ok tt) same txids,
      subst (λ x. check_wtxids x [] ≡ ok tt) same wtxids,
    )

-- Entries that `into_entries` hands over are the decoded ones in another order, at most as many as
-- the limit, in strictly increasing order of their transaction ids and with pairwise distinct
-- witness ids.
pub into_entries-IsSorted :
    (wire : Result RpcError (List MempoolEntry)) (maximum : ℕ) {es : List MempoolEntry}
    → into_entries wire maximum ≡ ok es
    → (entries : List MempoolEntry) × (wire ≡ ok entries)
      × Perm es entries
      × (length entries ≤ maximum)
      × IsSorted es
      × IsFresh es []
into_entries-IsSorted wire maximum {es} h =
    let (entries, decoded, limit, same, txids, wtxids) = into_entries-parts wire maximum h in
    (
      entries,
      decoded,
      subst (λ x. Perm x entries) (sym same) (sort_entries-Perm entries),
      limit,
      check_txids-IsSorted es (subst IsOrdered (sym same) (sort_entries-IsOrdered entries)) txids,
      check_wtxids-IsFresh es [] wtxids,
    )
