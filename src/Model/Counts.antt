-- ===== src/Model/Counts.antt =====
-- What the summaries of a snapshot count.
use Prim.Native.String.{String}
use mempool_atlas.Prelude.{
  ℕ, suc, ◌+◌, ◌≡◌, refl, Bool, true, false, Option, none, some, List, [], ◌∷◌, map_option, length,
  arith, if◌then◌else◌,
}
use mempool_atlas.Model.Rules.{Bip110Status, status_eq}
use mempool_atlas.Model.Entry.{MempoolEntry}
use mempool_atlas.Model.Snapshot.{Bip110Summary, count_status, count_statuses, summary_of}

abbrev pub status_of_entry : MempoolEntry → Option Bip110Status
status_of_entry entry = map_option (λ assessment. assessment.status) entry.bip110

abbrev pub is_status : Option Bip110Status → Option Bip110Status → Bool
is_status none none = true
is_status (some a) (some b) = status_eq a b
is_status _ _ = false

-- How many entries have the status; `none` is an entry without an assessment.
abbrev pub count_of : Option Bip110Status → List MempoolEntry → ℕ
count_of status [] = 0
count_of status (entry ∷ entries) =
    let rest = count_of status entries in
    if is_status (status_of_entry entry) status then suc rest else rest

abbrev pub counts_from : Bip110Summary → List MempoolEntry → Bip110Summary
counts_from s entries = record s {
  compatible_count = s.compatible_count + count_of (some Bip110Status.compatible) entries;
  violating_count = s.violating_count + count_of (some Bip110Status.violating) entries;
  indeterminate_count = s.indeterminate_count + count_of (some Bip110Status.indeterminate) entries;
  unclassified_count = s.unclassified_count + count_of none entries;
}

step :
    (s : Bip110Summary) (o : Option Bip110Status) (entry : MempoolEntry)
    (entries : List MempoolEntry)
    → status_of_entry entry ≡ o
    → counts_from (count_status o s) entries ≡ counts_from s (entry ∷ entries)
step s none entry entries e = rw e (ground arith)
step s (some Bip110Status.compatible) entry entries e = rw e (ground arith)
step s (some Bip110Status.violating) entry entries e = rw e (ground arith)
step s (some Bip110Status.indeterminate) entry entries e = rw e (ground arith)

count_statuses_lem :
    (entries : List MempoolEntry) (s : Bip110Summary)
    → count_statuses entries s ≡ counts_from s entries
unfolding count_statuses
count_statuses_lem [] s = ground arith
count_statuses_lem (entry ∷ entries) s =
    rw (count_statuses_lem entries (count_status (status_of_entry entry) s))
      (step s (status_of_entry entry) entry entries refl)

one_status :
    (o : Option Bip110Status) (a b c d n : ℕ)
    → a + b + c + d ≡ n
    → (if is_status o (some Bip110Status.compatible) then suc a else a)
        + (if is_status o (some Bip110Status.violating) then suc b else b)
        + (if is_status o (some Bip110Status.indeterminate) then suc c else c)
        + (if is_status o none then suc d else d)
      ≡ suc n
one_status none a b c d n h = omega (arith, h)
one_status (some Bip110Status.compatible) a b c d n h = omega (arith, h)
one_status (some Bip110Status.violating) a b c d n h = omega (arith, h)
one_status (some Bip110Status.indeterminate) a b c d n h = omega (arith, h)

counts_sum :
    (entries : List MempoolEntry)
    → count_of (some Bip110Status.compatible) entries
        + count_of (some Bip110Status.violating) entries
        + count_of (some Bip110Status.indeterminate) entries
        + count_of none entries
      ≡ length entries
counts_sum [] = refl
counts_sum (entry ∷ entries) = one_status (status_of_entry entry) _ _ _ _ _ (counts_sum entries)

-- The summary counts the entries of each status and the ones without an assessment, and these
-- counts add up to the number of entries.
pub summary_of-counts :
    (version : String) (entries : List MempoolEntry)
    → ((summary_of version entries).compatible_count
        ≡ count_of (some Bip110Status.compatible) entries)
      × ((summary_of version entries).violating_count
          ≡ count_of (some Bip110Status.violating) entries)
      × ((summary_of version entries).indeterminate_count
          ≡ count_of (some Bip110Status.indeterminate) entries)
      × ((summary_of version entries).unclassified_count ≡ count_of none entries)
      × ((summary_of version entries).compatible_count
            + (summary_of version entries).violating_count
            + (summary_of version entries).indeterminate_count
            + (summary_of version entries).unclassified_count
          ≡ length entries)
unfolding summary_of
summary_of-counts version entries =
    rw (count_statuses_lem entries _)
      (omega arith, omega arith, omega arith, omega arith, omega (arith, counts_sum entries))
