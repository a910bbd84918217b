-- ===== src/Model/Window.antt =====
-- Which arguments make a snapshot, and what its totals are.
use Prim.Native.String.{String}
use mempool_atlas.Prelude.{
  Bool-cases, inl, inr, ℕ, ◌+◌, ◌-◌, ◌^◌, ◌≤◌, ◌≡◌, refl, subst, ◌↔◌, true, false, List, [], ◌∷◌,
  length, ltb, arith,
}
use mempool_atlas.Results.{ok}
use mempool_atlas.Model.Source.{validate_source_id, validate_source_label}
use mempool_atlas.Model.Catalog.{classifier_catalog}
use mempool_atlas.Model.Entry.{MempoolEntry}
use mempool_atlas.Model.EntryBounds.{IsSafe}
use mempool_atlas.Model.Snapshot.{
  ChainTip, MempoolSnapshot, str_lt, any_unsorted, add_vsizes, snapshot_of, classifier_summaries,
  summary_of, new_with_collection_window,
}

-- Each transaction id is below the next.
abbrev pub IsSorted : List MempoolEntry → Type 0
IsSorted [] = Unit
IsSorted (a ∷ []) = Unit
IsSorted (a ∷ b ∷ rest) = (str_lt a.txid b.txid ≡ true) × IsSorted (b ∷ rest)

abbrev pub sum_vsize : List MempoolEntry → ℕ
sum_vsize [] = 0
sum_vsize (entry ∷ entries) = entry.vsize + sum_vsize entries

any_unsorted_iff : (es : List MempoolEntry) → (any_unsorted es ≡ false) ↔ IsSorted es
unfolding any_unsorted
any_unsorted_iff [] = (λ h. tt, λ h. refl)
any_unsorted_iff (a ∷ []) = (λ h. tt, λ h. refl)
any_unsorted_iff (a ∷ b ∷ rest) = ground (arith, any_unsorted_iff (b ∷ rest))

add_vsizes_iff :
    (es : List MempoolEntry) (t n : ℕ)
    → t ≤ 2 ^ 64 - 1
    → (add_vsizes es t ≡ ok n) ↔ ((n ≡ t + sum_vsize es) × (n ≤ 2 ^ 64 - 1))
unfolding add_vsizes
add_vsizes_iff [] t n h = ground arith
add_vsizes_iff (e ∷ es) t n h = elim (Bool-cases (ltb (2 ^ 64 - 1) (t + e.vsize))) [
  | inl over ↦ rw over (ground arith)
  | inr fits ↦
      let ih = add_vsizes_iff es (t + e.vsize) n (ground arith) in
      rw fits
        (λ p. let q = ih.0 p in (omega (arith, q.0), q.1), λ q. ih.1 (omega (arith, q.0), q.1))
]

abbrev pub HasWindow : (started completed duration : ℕ) → Type 0
HasWindow started completed duration =
    IsSafe started × IsSafe completed × IsSafe duration × (completed ≡ started + duration)

checks :
    (atlas_version source_id source_label : String) (started completed duration : ℕ)
    (chain_tip : ChainTip) (entries : List MempoolEntry) (snapshot : MempoolSnapshot)
    → (new_with_collection_window atlas_version source_id source_label started completed duration
          chain_tip entries
        ≡ ok snapshot)
      ↔ ((validate_source_id source_id ≡ ok tt)
          × (validate_source_label source_label ≡ ok tt)
          × HasWindow started completed duration
          × IsSafe chain_tip.height
          × (any_unsorted entries ≡ false)
          × IsSafe (length entries)
          × ((total : ℕ) × (add_vsizes entries 0 ≡ ok total)
              × IsSafe total
              × (snapshot
                  ≡ snapshot_of atlas_version source_id source_label started completed duration
                      chain_tip entries total)))
unfolding new_with_collection_window
checks atlas_version source_id source_label started completed duration chain_tip entries snapshot =
    ground arith

-- A snapshot is made exactly of a valid source, a collection window that ends no earlier than it
-- starts and lasts the stated time, entries in strictly rising order of their ids, and totals that
-- are exact in JSON. It then holds these, observed at the end of the window, the entries with their
-- number, the catalog and the summaries of the entries, and the sum over their virtual sizes, which
-- never wraps.
pub new_with_collection_window_iff :
    (atlas_version source_id source_label : String) (started completed duration : ℕ)
    (chain_tip : ChainTip) (entries : List MempoolEntry) (snapshot : MempoolSnapshot)
    → (new_with_collection_window atlas_version source_id source_label started completed duration
          chain_tip entries
        ≡ ok snapshot)
      ↔ ((validate_source_id source_id ≡ ok tt)
          × (validate_source_label source_label ≡ ok tt)
          × HasWindow started completed duration
          × IsSafe chain_tip.height
          × IsSorted entries
          × IsSafe (length entries)
          × IsSafe (sum_vsize entries)
          × (snapshot ≡ record {
            source_id = source_id;
            source_label = source_label;
            collection_started_at_ms = started;
            collection_completed_at_ms = completed;
            collection_duration_ms = duration;
            observed_at_ms = completed;
            classification_revision = 0;
            chain_tip = chain_tip;
            transaction_count = length entries;
            total_vsize = sum_vsize entries;
            classifier_catalog = classifier_catalog;
            classification_summaries = classifier_summaries entries;
            bip110_summary = summary_of atlas_version entries;
            transactions = entries;
          }))
new_with_collection_window_iff v i l started completed duration tip entries snapshot = (
  λ h.
      let (a, b, c, d, sorted, n, (total, t, safe, e)) =
        (checks v i l started completed duration tip entries snapshot).0 h in
      let sum = (add_vsizes_iff entries 0 total (omega arith)).0 t in
      (
        a,
        b,
        c,
        d,
        (any_unsorted_iff entries).0 sorted,
        n,
        omega (arith, sum.0, safe),
        subst (λ t'. snapshot ≡ snapshot_of v i l started completed duration tip entries t')
            (omega (arith, sum.0)) e,
      ),
  λ (a, b, c, d, sorted, n, safe, e).
      (checks v i l started completed duration tip entries snapshot).1 (
        a,
        b,
        c,
        d,
        (any_unsorted_iff entries).1 sorted,
        n,
        (
          sum_vsize entries,
          (add_vsizes_iff entries 0 (sum_vsize entries) (omega arith)).1
              (omega arith, omega (arith, safe)),
          safe,
          e,
        ),
      ),
)
