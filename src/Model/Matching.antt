-- ===== src/Model/Matching.antt =====
-- The classifications that match the entries, and how they are looked up by transaction id.
use Prim.Native.String.{String, compare}
use Prim.Native.Nat.{Ordering}
use text.Mathlib.Text.{◌==◌ as str_eq}
use text.Mathlib.TextEquality.{eq_iff}
use text.Mathlib.TextPositions.{eq_refl}
use mempool_atlas.Prelude.{
  ◌≡◌, refl, sym, ◌∙◌, ap, subst, inl, inr, true, false, Option, none, some, List, [], ◌∷◌, ◌++◌,
  append_assoc, append-nil, filter_map, All, Contains, Bool-cases, Option-cases, arith,
  compare_trans, compare_flip, str_lt_irrefl,
}
use mempool_atlas.Model.Entry.{MempoolEntry}
use mempool_atlas.Model.Validation.{TransactionClassification}
use mempool_atlas.Model.Snapshot.{str_lt}
use mempool_atlas.Model.Window.{IsSorted}
use mempool_atlas.Model.Observation.{
  Classifications, get_classification, insert_classification, collect, if_matches, matching,
  entry_with,
}

-- The id is below the ids of all entries.
abbrev pub IsBelow : String → List MempoolEntry → Type 0
IsBelow txid entries = All (λ e. compare txid e.txid ≡ Ordering.lt) entries

lt_of_test : (a b : String) → str_lt a b ≡ true → compare a b ≡ Ordering.lt
lt_of_test a b h = ground arith

IsBelow-trans :
    (a b : String) (es : List MempoolEntry)
    → compare a b ≡ Ordering.lt
    → IsBelow b es
    → IsBelow a es
IsBelow-trans a b [] h k = tt
IsBelow-trans a b (e ∷ es) h (k, ks) = (compare_trans a b e.txid h k, IsBelow-trans a b es h ks)

pub IsSorted-tail : (a : MempoolEntry) (es : List MempoolEntry) → IsSorted (a ∷ es) → IsSorted es
IsSorted-tail a [] s = tt
IsSorted-tail a (b ∷ es) s = s.1

pub IsSorted-IsBelow :
    (a : MempoolEntry) (es : List MempoolEntry) → IsSorted (a ∷ es) → IsBelow a.txid es
IsSorted-IsBelow a [] s = tt
IsSorted-IsBelow a (b ∷ es) (lt, s) =
    let h = lt_of_test a.txid b.txid lt in
    (h, IsBelow-trans a.txid b.txid es h (IsSorted-IsBelow b es s))

-- Two ids in order are told apart.
pub str_eq-of-lt : (a b : String) → compare a b ≡ Ordering.lt → str_eq a b ≡ false
str_eq-of-lt a b h = elim (Bool-cases (str_eq a b)) [
  | inl t ↦ absurd (str_lt_irrefl a b h ((eq_iff a b).0 t))
  | inr f ↦ f
]

pub str_eq-of-gt : (a b : String) → compare a b ≡ Ordering.lt → str_eq b a ≡ false
str_eq-of-gt a b h = elim (Bool-cases (str_eq b a)) [
  | inl t ↦ absurd (str_lt_irrefl a b h (sym ((eq_iff b a).0 t)))
  | inr f ↦ f
]

IsBelow-Contains :
    (txid : String) (es : List MempoolEntry) (e : MempoolEntry)
    → IsBelow txid es
    → Contains e es
    → compare txid e.txid ≡ Ordering.lt
IsBelow-Contains txid [] e b c = absurd c
IsBelow-Contains txid (x ∷ es) e (h, b) (inl p) = subst (λ y. compare txid y.txid ≡ Ordering.lt) p h
IsBelow-Contains txid (x ∷ es) e (h, b) (inr c) = IsBelow-Contains txid es e b c

-- In entries that are sorted, each is found by its id.
pub entry_with-Contains :
    (es : List MempoolEntry) (e : MempoolEntry)
    → IsSorted es
    → Contains e es
    → entry_with e.txid es ≡ some e
entry_with-Contains [] e s c = absurd c
entry_with-Contains (a ∷ es) e s (inl p) =
    subst (λ y. entry_with y.txid (a ∷ es) ≡ some y) p (rw (eq_refl a.txid) refl)
entry_with-Contains (a ∷ es) e s (inr c) =
    rw (str_eq-of-lt a.txid e.txid (IsBelow-Contains a.txid es e (IsSorted-IsBelow a es s) c))
      (entry_with-Contains es e (IsSorted-tail a es s) c)

-- A map whose keys all lie below the new one.
abbrev KeysBelow : Classifications → String → Type 0
KeysBelow pairs key = All (λ p. compare p.0 key ≡ Ordering.lt) pairs

insert-last :
    (p : String × TransactionClassification) (pairs : Classifications)
    → KeysBelow pairs p.0
    → insert_classification p pairs ≡ pairs ++ p ∷ []
insert-last p [] b = refl
insert-last p (q ∷ pairs) (h, b) =
    rw (compare_flip q.0 p.0 h, insert_classification) (ap (◌∷◌ q) (insert-last p pairs b))

KeysBelow-append :
    (pairs : Classifications) (p : String × TransactionClassification) (key : String)
    → KeysBelow pairs p.0
    → compare p.0 key ≡ Ordering.lt
    → KeysBelow (pairs ++ p ∷ []) key
KeysBelow-append [] p key b h = (h, tt)
KeysBelow-append (q ∷ pairs) p key (k, b) h =
    (compare_trans q.0 p.0 key k h, KeysBelow-append pairs p key b h)

KeysBelow-trans :
    (pairs : Classifications) (k j : String)
    → KeysBelow pairs k
    → compare k j ≡ Ordering.lt
    → KeysBelow pairs j
KeysBelow-trans [] k j b h = tt
KeysBelow-trans (q ∷ pairs) k j (x, b) h =
    (compare_trans q.0 k j x h, KeysBelow-trans pairs k j b h)

module _ (classifications : Classifications) where
  -- The classification under the entry's id, if it is of the entry's variant.
  abbrev pub matched : MempoolEntry → Option TransactionClassification
  matched entry = if_matches entry (get_classification classifications entry.txid)

  abbrev pub kept : List MempoolEntry → Classifications
  kept entries = filter_map (matching classifications) entries

  pub kept-none :
      (e : MempoolEntry) (es : List MempoolEntry) → matched e ≡ none → kept (e ∷ es) ≡ kept es
  unfolding matching
  kept-none e es n = rw (n, kept, filter_map) refl

  pub kept-some :
      (e : MempoolEntry) (es : List MempoolEntry) (c : TransactionClassification)
      → matched e ≡ some c
      → kept (e ∷ es) ≡ (e.txid, c) ∷ kept es
  unfolding matching
  kept-some e es c m = rw (m, kept, filter_map) refl

  -- All keys are below the ids of all entries.
  abbrev pub AreBelow : Classifications → List MempoolEntry → Type 0
  AreBelow pairs [] = Unit
  AreBelow pairs (e ∷ es) = KeysBelow pairs e.txid

  pub AreBelow-nil : (es : List MempoolEntry) → AreBelow [] es
  AreBelow-nil [] = tt
  AreBelow-nil (e ∷ es) = tt

  AreBelow-weaken :
      (pairs : Classifications) (e : MempoolEntry) (es : List MempoolEntry)
      → IsSorted (e ∷ es)
      → KeysBelow pairs e.txid
      → AreBelow pairs es
  AreBelow-weaken pairs e [] s b = tt
  AreBelow-weaken pairs e (f ∷ es) s b =
      KeysBelow-trans pairs e.txid f.txid b (lt_of_test e.txid f.txid s.0)

  AreBelow-append :
      (pairs : Classifications) (e : MempoolEntry) (es : List MempoolEntry)
      (c : TransactionClassification)
      → IsSorted (e ∷ es)
      → KeysBelow pairs e.txid
      → AreBelow (pairs ++ (e.txid, c) ∷ []) es
  AreBelow-append pairs e [] c s b = tt
  AreBelow-append pairs e (f ∷ es) c s b =
      KeysBelow-append pairs (e.txid, c) f.txid b (lt_of_test e.txid f.txid s.0)

  -- Collected from sorted entries, the map is the list of the matches.
  pub collect-kept :
      (pairs : Classifications) (es : List MempoolEntry)
      → IsSorted es
      → AreBelow pairs es
      → collect pairs (kept es) ≡ pairs ++ kept es
  collect-kept pairs [] s b = sym (append-nil pairs)
  collect-kept pairs (e ∷ es) s b = elim (Option-cases (matched e)) [
    | inl n ↦
        rw (kept-none e es n)
          (collect-kept pairs es (IsSorted-tail e es s) (AreBelow-weaken pairs e es s b))
    | inr (c, m) ↦ rw (kept-some e es c m) (
        ap (λ sofar. collect sofar (kept es)) (insert-last (e.txid, c) pairs b)
        ∙ collect-kept (pairs ++ (e.txid, c) ∷ []) es (IsSorted-tail e es s)
            (AreBelow-append pairs e es c s b)
        ∙ append_assoc pairs ((e.txid, c) ∷ []) (kept es))
  ]

  get-absent :
      (txid : String) (es : List MempoolEntry)
      → IsBelow txid es
      → get_classification (kept es) txid ≡ none
  get-absent txid [] b = refl
  get-absent txid (e ∷ es) (h, b) = elim (Option-cases (matched e)) [
    | inl n ↦ rw (kept-none e es n) (get-absent txid es b)
    | inr (c, m) ↦ rw (kept-some e es c m, str_eq-of-gt txid e.txid h) (get-absent txid es b)
  ]

  -- Under an entry's id stands what matches the entry.
  pub get-kept :
      (es : List MempoolEntry) (e : MempoolEntry)
      → IsSorted es
      → Contains e es
      → get_classification (kept es) e.txid ≡ matched e
  get-kept [] e s c = absurd c
  get-kept (a ∷ es) e s (inl p) =
      subst (λ y. get_classification (kept (a ∷ es)) y.txid ≡ matched y) p
        (elim (Option-cases (matched a)) [
          | inl n ↦ rw (kept-none a es n, n) (get-absent a.txid es (IsSorted-IsBelow a es s))
          | inr (c, m) ↦ rw (kept-some a es c m, eq_refl a.txid, m) refl
        ])
  get-kept (a ∷ es) e s (inr h) = elim (Option-cases (matched a)) [
    | inl n ↦ rw (kept-none a es n) (get-kept es e (IsSorted-tail a es s) h)
    | inr (c, m) ↦
        rw
          (
            kept-some a es c m,
            str_eq-of-lt a.txid e.txid (IsBelow-Contains a.txid es e (IsSorted-IsBelow a es s) h),
          )
          (get-kept es e (IsSorted-tail a es s) h)
  ]
