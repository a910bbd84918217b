-- ===== src/Model/Materialize.antt =====
-- Materializing an observation from valid parts succeeds, and what it shows.
use Prim.Native.String.{String}
use text.Mathlib.Text.{◌==◌ as str_eq}
use text.Mathlib.TextEquality.{eq_iff}
use text.Mathlib.TextPositions.{eq_refl}
use mempool_atlas.Prelude.{
  ℕ, suc, ◌+◌, ◌≡◌, refl, sym, ap, ap₂, subst, inl, inr, true, false, not, ◌&&◌, Option, none, some,
  List, [], ◌∷◌, map, length, All, Contains, Bool-cases, Option-cases, arith, is_some, ltb,
  eq_of_some,
}
use mempool_atlas.Results.{ok}
use mempool_atlas.Model.Rules.{max_safe_json_integer}
use mempool_atlas.Model.Entry.{MempoolEntry, compact}
use mempool_atlas.Model.EntryBounds.{IsSafe}
use mempool_atlas.Model.Validation.{TransactionClassification, validate_classification}
use mempool_atlas.Model.Snapshot.{
  MempoolSnapshot, new_with_collection_window, snapshot_of, with_classification_revision,
}
use mempool_atlas.Model.Window.{IsSorted, sum_vsize, new_with_collection_window_iff}
use mempool_atlas.Model.Observation.{
  Classifications, MempoolObservation, get_classification, differs, entry_with, check_entry,
  check_classifications, check_detailed, is_classified, attached, attach, if_matches, materialize,
  materialize_retained, new_observation,
}
use mempool_atlas.Model.Matching.{
  entry_with-Contains, matched, kept, kept-none, kept-some, collect-kept, AreBelow-nil, get-kept,
}
use mempool_atlas.Model.Reflexive.{results_eq_refl, assessment_eq_refl, structure_eq_refl}

attached-txid :
    (e : MempoolEntry) (o : Option TransactionClassification) → (attached e o).txid ≡ e.txid
attached-txid e none = refl
attached-txid e (some c) = refl

attached-vsize :
    (e : MempoolEntry) (o : Option TransactionClassification) → (attached e o).vsize ≡ e.vsize
attached-vsize e none = refl
attached-vsize e (some c) = refl

-- An entry with a classification attached shows that classification.
attached-differs :
    (e : MempoolEntry) (c : TransactionClassification)
    → str_eq c.wtxid e.wtxid ≡ true
    → differs (attached e (some c)) c ≡ false
attached-differs e c h =
    rw
      (
        (eq_iff c.wtxid e.wtxid).0 h,
        eq_refl e.wtxid,
        results_eq_refl (map compact c.results),
        assessment_eq_refl c.assessment,
        structure_eq_refl c.structure,
      )
      refl

matched-agrees :
    (e : MempoolEntry) (o : Option TransactionClassification) (c : TransactionClassification)
    → if_matches e o ≡ some c
    → (o ≡ some c) × (str_eq c.txid e.txid ≡ true) × (str_eq c.wtxid e.wtxid ≡ true)
matched-agrees e none c h = cc
matched-agrees e (some d) c h = ground arith

abbrev pub AllValid : Classifications → Type 0
AllValid classifications = All (λ p. validate_classification p.1 ≡ ok tt) classifications

get-valid :
    (pairs : Classifications) (txid : String) (c : TransactionClassification)
    → AllValid pairs
    → get_classification pairs txid ≡ some c
    → validate_classification c ≡ ok tt
get-valid [] txid c v h = cc
get-valid (p ∷ pairs) txid c (v, vs) h = elim (Bool-cases (str_eq p.0 txid)) [
  | inl t ↦ subst (λ x. validate_classification x ≡ ok tt) (eq_of_some (rw t at h)) v
  | inr f ↦ get-valid pairs txid c vs (rw f at h)
]

-- A map over entries that keeps their ids and sizes.
module _ (f : MempoolEntry → MempoolEntry)
    (same : (e : MempoolEntry) → ((f e).txid ≡ e.txid) × ((f e).vsize ≡ e.vsize)) where
  IsSorted-map : (es : List MempoolEntry) → IsSorted es → IsSorted (map f es)
  IsSorted-map [] s = tt
  IsSorted-map (a ∷ []) s = tt
  IsSorted-map (a ∷ b ∷ es) (lt, s) = (rw ((same a).0, (same b).0) lt, IsSorted-map (b ∷ es) s)

  sum_vsize-map : (es : List MempoolEntry) → sum_vsize (map f es) ≡ sum_vsize es
  sum_vsize-map [] = refl
  sum_vsize-map (e ∷ es) = ap₂ (λ a b. a + b) (same e).1 (sum_vsize-map es)

  Contains-map :
      (es : List MempoolEntry) (e : MempoolEntry) → Contains e es → Contains (f e) (map f es)
  Contains-map [] e c = absurd c
  Contains-map (x ∷ es) e (inl p) = inl (ap f p)
  Contains-map (x ∷ es) e (inr c) = inr (Contains-map es e c)

attach-same :
    (pairs : Classifications) (e : MempoolEntry)
    → ((attach pairs e).txid ≡ e.txid) × ((attach pairs e).vsize ≡ e.vsize)
unfolding attach
attach-same pairs e = (
  attached-txid e (get_classification pairs e.txid),
  attached-vsize e (get_classification pairs e.txid),
)

module _ (classifications : Classifications) (valid : AllValid classifications)
    (es : List MempoolEntry) (sorted : IsSorted es) where
  abbrev pairs : Classifications
  pairs = kept classifications es

  attach-matched :
      (e : MempoolEntry) → Contains e es → attach pairs e ≡ attached e (matched classifications e)
  unfolding attach
  attach-matched e c = ap (attached e) (get-kept classifications es e sorted c)

  entry_with-attach :
      (e : MempoolEntry)
      → Contains e es
      → entry_with e.txid (map (attach pairs) es) ≡ some (attach pairs e)
  entry_with-attach e c =
      subst (λ x. entry_with x (map (attach pairs) es) ≡ some (attach pairs e))
        (attach-same pairs e).0
        (entry_with-Contains (map (attach pairs) es) (attach pairs e)
          (IsSorted-map (attach pairs) (attach-same pairs) es sorted)
          (Contains-map (attach pairs) (attach-same pairs) es e c))

  -- What matches an entry passes the tests of its round.
  matched-checks :
      (e : MempoolEntry) (c : TransactionClassification)
      → Contains e es
      → matched classifications e ≡ some c
      → (validate_classification c ≡ ok tt)
        × (str_eq e.txid c.txid ≡ true)
        × (check_entry e.txid (entry_with e.txid (map (attach pairs) es)) c ≡ ok tt)
  unfolding check_entry
  matched-checks e c inside m =
      let (found, txid, wtxid) = matched-agrees e (get_classification classifications e.txid) c m in
      (
        get-valid classifications e.txid c valid found,
        (eq_iff e.txid c.txid).1 (sym ((eq_iff c.txid e.txid).0 txid)),
        rw (entry_with-attach e inside, attach-matched e inside, m, attached-differs e c wtxid)
            refl,
      )

  check_classifications-kept :
      (sub : List MempoolEntry)
      → All (λ e. Contains e es) sub
      → check_classifications (map (attach pairs) es) (kept classifications sub) ≡ ok tt
  unfolding check_classifications
  check_classifications-kept [] inside = refl
  check_classifications-kept (e ∷ sub) (i, inside) =
      elim (Option-cases (matched classifications e)) [
        | inl n ↦ rw (kept-none classifications e sub n) (check_classifications-kept sub inside)
        | inr (c, m) ↦
            let (v, k, t) = matched-checks e c i m in
            rw (kept-some classifications e sub c m, v, k, t)
              (check_classifications-kept sub inside)
      ]

  attached-detailed :
      (e : MempoolEntry) (o : Option TransactionClassification)
      → (is_classified (attached e o) && not (is_some o)) ≡ false
  attached-detailed e none = refl
  attached-detailed e (some c) = ground arith

  check_detailed-attach :
      (sub : List MempoolEntry) → check_detailed (map (attach pairs) sub) pairs ≡ ok tt
  unfolding check_detailed attach
  check_detailed-attach [] = refl
  check_detailed-attach (e ∷ sub) =
      rw
        (
          attached-txid e (get_classification pairs e.txid),
          attached-detailed e (get_classification pairs e.txid),
        )
        (check_detailed-attach sub)

All-Contains_cons :
    (x : MempoolEntry) (sub es : List MempoolEntry)
    → All (λ e. Contains e es) sub
    → All (λ e. Contains e (x ∷ es)) sub
All-Contains_cons x [] es h = tt
All-Contains_cons x (e ∷ sub) es (c, h) = (inr c, All-Contains_cons x sub es h)

All-Contains_self : (es : List MempoolEntry) → All (λ e. Contains e es) es
All-Contains_self [] = tt
All-Contains_self (e ∷ es) = (inl refl, All-Contains_cons e es es (All-Contains_self es))

map-Contains :
    (f g : MempoolEntry → MempoolEntry) (es sub : List MempoolEntry)
    → ((e : MempoolEntry) → Contains e es → f e ≡ g e)
    → All (λ e. Contains e es) sub
    → map f sub ≡ map g sub
map-Contains f g es [] h inside = refl
map-Contains f g es (e ∷ sub) h (c, inside) = ap₂ (◌∷◌) (h e c) (map-Contains f g es sub h inside)

-- The membership with each entry shown with the classification that matches it, if any.
abbrev pub shown : Classifications → List MempoolEntry → List MempoolEntry
shown classifications = map (λ e. attached e (matched classifications e))

abbrev pub shown_observation : String → MempoolSnapshot → ℕ → Classifications → MempoolObservation
shown_observation atlas_version m revision classifications = record {
  snapshot =
      record (snapshot_of atlas_version m.source_id m.source_label m.collection_started_at_ms
        m.collection_completed_at_ms m.collection_duration_ms m.chain_tip
        (shown classifications m.transactions) (sum_vsize m.transactions)) {
          classification_revision = revision;
        };
  classifications = kept classifications m.transactions;
}

-- The fields of the membership make a snapshot.
abbrev pub IsMembership : String → MempoolSnapshot → Type 0
IsMembership atlas_version m =
    (s : MempoolSnapshot) × (new_with_collection_window atlas_version m.source_id m.source_label
        m.collection_started_at_ms m.collection_completed_at_ms m.collection_duration_ms m.chain_tip
        m.transactions
      ≡ ok s)

length-map_entries :
    (f : MempoolEntry → MempoolEntry) (es : List MempoolEntry) → length (map f es) ≡ length es
length-map_entries f [] = refl
length-map_entries f (e ∷ es) = ap suc (length-map_entries f es)

safe_test : (n : ℕ) → IsSafe n → ltb max_safe_json_integer n ≡ false
safe_test n h = ground arith

new_observation-passes :
    (s : MempoolSnapshot) (pairs : Classifications)
    → ltb max_safe_json_integer s.classification_revision ≡ false
    → check_classifications s.transactions pairs ≡ ok tt
    → check_detailed s.transactions pairs ≡ ok tt
    → new_observation s pairs ≡ ok (record { snapshot = s; classifications = pairs })
unfolding new_observation
new_observation-passes s pairs a b c = rw (a, b, c) refl

with_classification_revision-ok :
    (s : MempoolSnapshot) (revision : ℕ)
    → IsSafe revision
    → with_classification_revision s revision ≡ ok (record s { classification_revision = revision })
unfolding with_classification_revision
with_classification_revision-ok s revision safe = rw (safe_test revision safe) refl

module _ (atlas_version : String) (m : MempoolSnapshot) (revision : ℕ)
    (classifications : Classifications) (valid : AllValid classifications)
    (sorted : IsSorted m.transactions) where
  shown-attach :
      map (attach (kept classifications m.transactions)) m.transactions
      ≡ shown classifications m.transactions
  shown-attach =
      map-Contains _ _ m.transactions m.transactions
        (attach-matched classifications valid m.transactions sorted)
        (All-Contains_self m.transactions)

  new_observation-shown :
      IsSafe revision
      → new_observation
          (shown_observation atlas_version m revision classifications).snapshot
          (kept classifications m.transactions)
        ≡ ok (shown_observation atlas_version m revision classifications)
  new_observation-shown safe =
      new_observation-passes (shown_observation atlas_version m revision classifications).snapshot
        (kept classifications m.transactions) (safe_test revision safe)
        (subst (λ es. check_classifications es (kept classifications m.transactions) ≡ ok tt)
          shown-attach
          (check_classifications-kept classifications valid m.transactions sorted m.transactions
            (All-Contains_self m.transactions)))
        (subst (λ es. check_detailed es (kept classifications m.transactions) ≡ ok tt) shown-attach
          (check_detailed-attach classifications valid m.transactions sorted m.transactions))

  shown-window :
      IsMembership atlas_version m
      → new_with_collection_window atlas_version m.source_id m.source_label
          m.collection_started_at_ms m.collection_completed_at_ms m.collection_duration_ms
          m.chain_tip
          (shown classifications m.transactions)
        ≡ ok (
            snapshot_of atlas_version m.source_id m.source_label m.collection_started_at_ms
              m.collection_completed_at_ms m.collection_duration_ms m.chain_tip
              (shown classifications m.transactions)
              (sum_vsize m.transactions))
  shown-window (s, h) =
      let f : MempoolEntry → MempoolEntry = λ e. attached e (matched classifications e) in
      let same : (e : MempoolEntry) → ((f e).txid ≡ e.txid) × ((f e).vsize ≡ e.vsize) = λ e. (
        attached-txid e (matched classifications e),
        attached-vsize e (matched classifications e),
      ) in
      let sum = sum_vsize-map f same m.transactions in
      let len = length-map_entries f m.transactions in
      let (a, b, c, d, o, n, safe, e) =
        (new_with_collection_window_iff atlas_version m.source_id m.source_label
            m.collection_started_at_ms m.collection_completed_at_ms m.collection_duration_ms
            m.chain_tip m.transactions s).0
          h in
      (new_with_collection_window_iff atlas_version m.source_id m.source_label
          m.collection_started_at_ms m.collection_completed_at_ms m.collection_duration_ms
          m.chain_tip (shown classifications m.transactions) _).1
        (
          a,
          b,
          c,
          d,
          IsSorted-map f same m.transactions o,
          omega (arith, len, n),
          omega (arith, sum, safe),
          ap
              (snapshot_of atlas_version m.source_id m.source_label m.collection_started_at_ms
                m.collection_completed_at_ms m.collection_duration_ms m.chain_tip
                (shown classifications m.transactions))
              (sym sum),
        )

  retained-shown :
      IsMembership atlas_version m
      → IsSafe revision
      → materialize_retained atlas_version m revision (kept classifications m.transactions)
        ≡ ok (shown_observation atlas_version m revision classifications)
  unfolding materialize_retained
  retained-shown window safe =
      rw (shown-attach, shown-window window, with_classification_revision-ok _ revision safe)
        (new_observation-shown safe)

-- From a membership whose fields make a snapshot, a revision that is exact in JSON and valid
-- classifications, an observation is always materialized. Each entry shows exactly the
-- classification under its transaction id, if that is of the entry's id and witness variant, and
-- else none; the map keeps exactly these; and every other field is the membership's, with the
-- counts and summaries made anew and the revision set.
pub materialize-shown_observation :
    (atlas_version : String) (m : MempoolSnapshot) (revision : ℕ)
    (classifications : Classifications)
    → IsMembership atlas_version m
    → IsSafe revision
    → AllValid classifications
    → materialize atlas_version m revision classifications
      ≡ ok (shown_observation atlas_version m revision classifications)
unfolding materialize
materialize-shown_observation atlas_version m revision classifications window safe valid =
    let sorted : IsSorted m.transactions =
      ((new_with_collection_window_iff atlas_version m.source_id m.source_label
          m.collection_started_at_ms m.collection_completed_at_ms m.collection_duration_ms
          m.chain_tip m.transactions (window.0)).0
        (window.1)).4 in
    rw
      (collect-kept classifications [] m.transactions sorted
        (AreBelow-nil classifications m.transactions))
      (retained-shown atlas_version m revision classifications valid sorted window safe)
