-- ===== src/Model/Progress.antt =====
-- src/model.rs: the progress of the classification that a snapshot shows.
use Prim.Native.String.{String}
use mempool_atlas.Prelude.{ℕ, ◌+◌, ◌≡◌, sym, subst, none, List}
use mempool_atlas.Results.{ok}
use mempool_atlas.Model.Entry.{MempoolEntry}
use mempool_atlas.Model.Snapshot.{ChainTip, MempoolSnapshot, new_with_collection_window}
use mempool_atlas.Model.Window.{new_with_collection_window_iff}
use mempool_atlas.Model.Counts.{count_of, summary_of-counts}

pub data ClassificationState : Type 0 where
  classifying complete paused : ClassificationState

pub record ClassificationProgress : Type 0 where
  pub state : ClassificationState
  pub revision : ℕ
  pub classified_count : ℕ
  pub unclassified_count : ℕ

unfoldable pub from_snapshot : ClassificationState → MempoolSnapshot → ClassificationProgress
from_snapshot state snapshot = record {
  state = state;
  revision = snapshot.classification_revision;
  classified_count =
      snapshot.bip110_summary.compatible_count + snapshot.bip110_summary.violating_count
      + snapshot.bip110_summary.indeterminate_count;
  unclassified_count = snapshot.bip110_summary.unclassified_count;
}

-- Of the snapshot that is made of the entries, the progress counts each entry as classified or as
-- unclassified, and the unclassified ones are those without an assessment.
pub from_snapshot-counts :
    (state : ClassificationState) (v i l : String) (started completed duration : ℕ) (tip : ChainTip)
    (entries : List MempoolEntry) (snapshot : MempoolSnapshot)
    → new_with_collection_window v i l started completed duration tip entries ≡ ok snapshot
    → ((from_snapshot state snapshot).classified_count
          + (from_snapshot state snapshot).unclassified_count
        ≡ snapshot.transaction_count)
      × ((from_snapshot state snapshot).unclassified_count ≡ count_of none snapshot.transactions)
unfolding from_snapshot
from_snapshot-counts state v i l started completed duration tip entries snapshot h =
    let made =
      ((new_with_collection_window_iff v i l started completed duration tip entries snapshot).0
        h).7 in
    let counts = summary_of-counts v entries in
    subst
      (λ s.
        ((from_snapshot state s).classified_count + (from_snapshot state s).unclassified_count
          ≡ s.transaction_count)
        × ((from_snapshot state s).unclassified_count ≡ count_of none s.transactions))
      (sym made) (counts.4, counts.3)
