-- ===== src/Runtime/Registry.antt =====
-- Which sources src/runtime.rs accepts, and that each is found again under its id.
use Prim.Native.String.{String, compare}
use Prim.Native.Nat.{Ordering}
use text.Mathlib.Text.{◌==◌ as str_eq}
use text.Mathlib.TextEquality.{eq_iff, path_by_compare}
use text.Mathlib.TextPositions.{eq_refl, compare_refl}
use mempool_atlas.Prelude.{
  ℕ, ◌≤◌, ◌≡◌, ◌≢◌, ◌↔◌, refl, sym, subst, ◌∙◌, ◌⊎◌, inl, inr, true, false, ◌||◌, none, some, List,
  [], ◌∷◌, ◌++◌, All, Bool-cases, any, is_some, length, arith,
}
use mempool_atlas.Results.{reject-ok, >>-ok, ok, err, reject}
use mempool_atlas.Runtime.State.{duplicate_source, poll_interval_mismatch, as_secs}
use mempool_atlas.Runtime.Sources.{
  SourceRuntime, Registry, id_of, check_sources, new_atlas, get_source, insert_source,
  index_sources, new_registry,
}

-- No two sources have the same id.
abbrev pub AreDistinct : List SourceRuntime → Type 0
AreDistinct [] = Unit
AreDistinct (s ∷ rest) = All (λ r. str_eq (id_of r) (id_of s) ≡ false) rest × AreDistinct rest

abbrev pub ArePolledAt : ℕ → List SourceRuntime → Type 0
ArePolledAt interval = All (λ s. s.publisher.poll_interval ≡ interval)

abbrev AreNew : List String → List SourceRuntime → Type 0
AreNew ids = All (λ s. any (str_eq (id_of s)) ids ≡ false)

AreNew-cons :
    (id : String) (ids : List String) (rest : List SourceRuntime)
    → AreNew (id ∷ ids) rest ↔ (All (λ r. str_eq (id_of r) id ≡ false) rest × AreNew ids rest)
AreNew-cons id ids [] = (λ h. (tt, tt), λ h. tt)
AreNew-cons id ids (r ∷ rest) = ground (arith, AreNew-cons id ids rest)

check_sources_iff :
    (sources : List SourceRuntime) (interval : ℕ) (ids : List String)
    → (check_sources sources interval ids ≡ ok tt)
      ↔ (AreNew ids sources × AreDistinct sources × ArePolledAt interval sources)
unfolding check_sources
check_sources_iff [] interval ids = (λ h. (tt, tt, tt), λ h. refl)
check_sources_iff (s ∷ rest) interval ids =
    ground (arith, check_sources_iff rest interval (id_of s ∷ ids), AreNew-cons (id_of s) ids rest)

AreNew-nil : (sources : List SourceRuntime) → AreNew [] sources
AreNew-nil [] = tt
AreNew-nil (s ∷ rest) = (refl, AreNew-nil rest)

-- The runtime polls exactly one to four sources with different ids, at one interval that is not
-- zero and is each source's, in the order given.
pub new_atlas_iff :
    (sources polled : List SourceRuntime) (interval : ℕ)
    → (new_atlas sources interval ≡ ok polled) ↔ (
        (polled ≡ sources)
        × (1 ≤ length sources)
        × (length sources ≤ 4)
        × (1 ≤ interval)
        × AreDistinct sources
        × ArePolledAt interval sources)
unfolding new_atlas
new_atlas_iff [] polled interval = ground arith
new_atlas_iff (s ∷ rest) polled interval =
    ground (arith, check_sources_iff (s ∷ rest) interval [], AreNew-nil (s ∷ rest))

ids_after : List SourceRuntime → List String → List String
ids_after [] ids = ids
ids_after (s ∷ front) ids = ids_after front (id_of s ∷ ids)

any-ids_after :
    (x : String) (front : List SourceRuntime) (ids : List String)
    → any (str_eq x) (ids_after front ids)
      ≡ (any (λ s. str_eq x (id_of s)) front || any (str_eq x) ids)
unfolding ids_after
any-ids_after x [] ids = refl
any-ids_after x (s ∷ front) ids = rw (any-ids_after x front (id_of s ∷ ids)) (ground arith)

check_sources-append :
    (front rest : List SourceRuntime) (interval : ℕ) (ids : List String)
    → AreNew ids front
    → AreDistinct front
    → ArePolledAt interval front
    → check_sources (front ++ rest) interval ids ≡ check_sources rest interval (ids_after front ids)
unfolding check_sources ids_after
check_sources-append [] rest interval ids n d p = refl
check_sources-append (s ∷ front) rest interval ids (n, ns) (d, ds) (p, ps) =
    let next =
      check_sources-append front rest interval (id_of s ∷ ids)
        ((AreNew-cons (id_of s) ids front).1 (d, ns)) ds ps in
    ground (arith, next)

-- The first source at fault is named, after sources with different ids and the right interval: as
-- a duplicate if an earlier source has its id, and else for its interval. What follows does not
-- matter.
pub check_sources-err :
    (front : List SourceRuntime) (bad : SourceRuntime) (rest : List SourceRuntime) (interval : ℕ)
    → AreDistinct front
    → ArePolledAt interval front
    → (any (λ s. str_eq (id_of bad) (id_of s)) front ≡ true
        → check_sources (front ++ bad ∷ rest) interval [] ≡ err (duplicate_source (id_of bad)))
      × (any (λ s. str_eq (id_of bad) (id_of s)) front ≡ false
          → bad.publisher.poll_interval ≢ interval
          → check_sources (front ++ bad ∷ rest) interval []
            ≡ err (
                poll_interval_mismatch
                  (id_of bad)
                  (as_secs interval)
                  (as_secs bad.publisher.poll_interval)))
unfolding check_sources
check_sources-err front bad rest interval distinct polled =
    let passed =
      check_sources-append front (bad ∷ rest) interval [] (AreNew-nil front) distinct polled in
    let found = any-ids_after (id_of bad) front [] in
    (λ h. ground (arith, passed, found), λ h n. ground (arith, passed, found))

Ordering-cases : (o : Ordering) → (o ≡ Ordering.lt) ⊎ ((o ≡ Ordering.eq) ⊎ (o ≡ Ordering.gt))
Ordering-cases Ordering.lt = inl refl
Ordering-cases Ordering.eq = inr (inl refl)
Ordering-cases Ordering.gt = inr (inr refl)

true-ne-false : true ≢ false
true-ne-false h = cc

gt-ne-eq : Ordering.gt ≢ Ordering.eq
gt-ne-eq h = cc

str_eq-gt : (a b : String) → compare a b ≡ Ordering.gt → str_eq b a ≡ false
str_eq-gt a b h = elim (Bool-cases (str_eq b a)) [
  | inl t ↦ absurd (
      gt-ne-eq
        (sym h ∙ subst (λ x. compare a x ≡ Ordering.eq) (sym ((eq_iff b a).0 t)) (compare_refl a)))
  | inr f ↦ f
]

-- What a registry answers after an insertion.
get_source-insert_source :
    (pairs : Registry) (id : String) (s : SourceRuntime)
    → get_source (insert_source id s pairs) id ≡ some s
get_source-insert_source [] id s = rw (eq_refl id) refl
get_source-insert_source (p ∷ pairs) id s = elim (Ordering-cases (compare id p.0)) [
  | inl lt ↦ rw (lt, insert_source) (rw (eq_refl id) refl)
  | inr (inl eq) ↦ rw (eq, insert_source) (rw (eq_refl id) refl)
  | inr (inr gt) ↦
      rw (gt, insert_source) (rw (str_eq-gt id p.0 gt) (get_source-insert_source pairs id s))
]

get_source-insert_source_other :
    (pairs : Registry) (id other : String) (s : SourceRuntime)
    → str_eq id other ≡ false
    → get_source (insert_source id s pairs) other ≡ get_source pairs other
get_source-insert_source_other [] id other s h = rw h refl
get_source-insert_source_other (p ∷ pairs) id other s h =
    let ih = get_source-insert_source_other pairs id other s h in
    elim (Ordering-cases (compare id p.0)) [
      | inl lt ↦ rw (lt, insert_source) (rw h refl)
      | inr (inl eq) ↦
          let same = path_by_compare id p.0 eq in
          let apart : str_eq p.0 other ≡ false = subst (λ x. str_eq x other ≡ false) same h in
          rw (eq, insert_source) (rw (h, apart) refl)
      | inr (inr gt) ↦ rw (gt, insert_source) (rw ih refl)
    ]

index_sources-parts :
    (s : SourceRuntime) (sources : List SourceRuntime) (indexed r : Registry)
    → index_sources (s ∷ sources) indexed ≡ ok r
    → (is_some (get_source indexed (id_of s)) ≡ false)
      × (index_sources sources (insert_source (id_of s) s indexed) ≡ ok r)
unfolding index_sources
index_sources-parts s sources indexed r h =
    let (fresh, rest) =
      >>-ok (reject (is_some (get_source indexed (id_of s))) (duplicate_source (id_of s)))
        (index_sources sources (insert_source (id_of s) s indexed)) h in
    (reject-ok (is_some (get_source indexed (id_of s))) (duplicate_source (id_of s)) fresh, rest)

-- No source that is accepted has the id of one before.
index_sources-fresh :
    (sources : List SourceRuntime) (indexed r : Registry) (id : String)
    → index_sources sources indexed ≡ ok r
    → is_some (get_source indexed id) ≡ true
    → any (λ s. str_eq (id_of s) id) sources ≡ false
index_sources-fresh [] indexed r id h k = refl
index_sources-fresh (s ∷ sources) indexed r id h k =
    let (fresh, rest) = index_sources-parts s sources indexed r h in
    elim (Bool-cases (str_eq (id_of s) id)) [
      | inl t ↦ absurd (
          true-ne-false (
            sym k
            ∙ subst (λ x. is_some (get_source indexed x) ≡ false) ((eq_iff (id_of s) id).0 t)
                fresh))
      | inr f ↦
          let kept = get_source-insert_source_other indexed (id_of s) id s f in
          rw f
            (index_sources-fresh sources (insert_source (id_of s) s indexed) r id rest (rw kept k))
    ]

index_sources-ok :
    (sources : List SourceRuntime) (indexed r : Registry)
    → index_sources sources indexed ≡ ok r
    → ((id : String)
        → any (λ s. str_eq (id_of s) id) sources ≡ false
        → get_source r id ≡ get_source indexed id)
      × All (λ s. get_source r (id_of s) ≡ some s) sources
unfolding index_sources
index_sources-ok [] indexed r h = (λ id k. cc, tt)
index_sources-ok (s ∷ sources) indexed r h =
    let (fresh, rest) = index_sources-parts s sources indexed r h in
    let (others, found) = index_sources-ok sources (insert_source (id_of s) s indexed) r rest in
    let put = get_source-insert_source indexed (id_of s) s in
    let last =
      index_sources-fresh sources (insert_source (id_of s) s indexed) r (id_of s) rest
        (rw put refl) in
    (
      λ id k.
          let apart : str_eq (id_of s) id ≡ false = ground (arith, k) in
          let later : any (λ s'. str_eq (id_of s') id) sources ≡ false = ground (arith, k) in
          others id later ∙ get_source-insert_source_other indexed (id_of s) id s apart,
      (others (id_of s) last ∙ put, found),
    )

new_registry-index :
    (sources : List SourceRuntime) (r : Registry)
    → new_registry sources ≡ ok r
    → index_sources sources [] ≡ ok r
unfolding new_registry
new_registry-index sources r h = ground arith

-- A registry that is accepted answers each of its sources under the source's id, and no source
-- under any other id.
pub new_registry-get :
    (sources : List SourceRuntime) (r : Registry)
    → new_registry sources ≡ ok r
    → All (λ s. get_source r (id_of s) ≡ some s) sources
      × ((id : String) → any (λ s. str_eq (id_of s) id) sources ≡ false → get_source r id ≡ none)
new_registry-get sources r h =
    let (others, found) = index_sources-ok sources [] r (new_registry-index sources r h) in
    (found, others)
