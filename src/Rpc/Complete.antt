-- ===== src/Rpc/Complete.antt =====
-- src/rpc.rs: what a snapshot says about the answers it is made of.
use Prim.Native.String.{String}
use text.Mathlib.Text.{◌==◌ as str_eq}
use text.Mathlib.TextEquality.{eq_iff}
use mathlib.Core.List.{Perm}
use mempool_atlas.Prelude.{
  ℕ, ◌+◌, ◌-◌, ◌^◌, ◌≤◌, min, ◌≡◌, ◌≢◌, refl, sym, ◌∙◌, ap, subst, inl, inr, true, false, not, ◌&&◌,
  Option, none, some, List, [], ◌∷◌, length, arith, Bool-cases, ltb, ◌==◌,
}
use mempool_atlas.Results.{
  Result, ok, err, panic, reject, ◌>>=◌, ◌>>◌, Result-cases, >>=-ok, >>-ok, reject-ok,
}
use mempool_atlas.Model.Error.{ModelError}
use mempool_atlas.Model.Entry.{MempoolEntry}
use mempool_atlas.Model.Snapshot.{ChainTip, MempoolSnapshot, new_with_collection_window}
use mempool_atlas.Model.Window.{IsSorted, new_with_collection_window_iff}
use mempool_atlas.Rpc.Error.{
  RpcError, get_blockchain_info, unstable_chain_tip, invalid_snapshot, snapshot_too_large,
}
use mempool_atlas.Rpc.Membership.{
  MapItem, pair, broken, Visited, keep_entry, map_visited, decode_entry, visit_from, wire_of,
  Answers, BlockchainInfoWire, decode_chain_tip, collect_entries, finish_snapshot, with_call_error,
  with_error, get_mempool_snapshot, into_entries,
}
use mempool_atlas.Rpc.Snapshot.{IsFresh, into_entries-IsSorted}

map_visited-err :
    (e : RpcError) (r : Result String Visited) {v : Visited}
    → map_visited (keep_entry (err e)) r ≡ ok v
    → v.validation_error ≢ none
map_visited-err e (err x) h none_left = cc
map_visited-err e panic h none_left = cc
map_visited-err e (ok w) {v} h none_left =
    let same : record { entries = []; validation_error = some e } ≡ v = cc in
    let left = ap (λ (x : Visited). x.validation_error) same ∙ none_left in cc

map_visited-ok :
    (e : MempoolEntry) (r : Result String Visited) {v : Visited}
    → map_visited (keep_entry (ok e)) r ≡ ok v
    → v.validation_error ≡ none
    → (w : Visited) × (r ≡ ok w) × (w.validation_error ≡ none) × (v.entries ≡ e ∷ w.entries)
map_visited-ok e (err x) h none_left = cc
map_visited-ok e panic h none_left = cc
map_visited-ok e (ok w) {v} h none_left =
    let same : record w { entries = e ∷ w.entries } ≡ v = cc in
    (
      w,
      refl,
      ap (λ (x : Visited). x.validation_error) same ∙ none_left,
      sym (ap (λ (x : Visited). x.entries) same),
    )

with_call_error-ok :
    {E A : Type 0} (wrap : E → RpcError) (r : Result E A) {a : A}
    → with_call_error wrap r ≡ ok a
    → r ≡ ok a
with_call_error-ok wrap (err e) h = cc
with_call_error-ok wrap (ok x) {a} h = let same : x ≡ a = cc in ap ok same
with_call_error-ok wrap panic h = cc

with_error-ok :
    {A : Type 0} (wrap : ModelError → RpcError) (r : Result ModelError A) {a : A}
    → with_error wrap r ≡ ok a
    → r ≡ ok a
with_error-ok wrap (err e) h = cc
with_error-ok wrap (ok x) {a} h = let same : x ≡ a = cc in ap ok same
with_error-ok wrap panic h = cc

same_tip : (a b : ChainTip) → (a.height == b.height && str_eq a.hash b.hash) ≡ true → a ≡ b
same_tip a b h =
    let height : a.height ≡ b.height = ground arith in
    let hash : a.hash ≡ b.hash = (eq_iff a.hash b.hash).0 (ground arith) in cc

wire_of-ok :
    (v : Visited) {entries : List MempoolEntry}
    → wire_of v ≡ ok entries
    → (v.validation_error ≡ none) × (v.entries ≡ entries)
wire_of-ok v h = ground arith

module _ (canonical_txid canonical_wtxid canonical_hash : String → Option String) where
  -- Every item is an entry, in the same order.
  abbrev pub IsDecoded : List MapItem → List MempoolEntry → Type 0
  IsDecoded [] [] = Unit
  IsDecoded (pair key (some wire) ∷ items) (e ∷ es) =
      (decode_entry canonical_txid canonical_wtxid canonical_hash key wire ≡ ok e)
      × IsDecoded items es
  IsDecoded _ _ = ⊥

  visit_from-IsDecoded :
      (items : List MapItem) (maximum observed : ℕ) {v : Visited}
      → visit_from canonical_txid canonical_wtxid canonical_hash items maximum observed false ≡ ok v
      → v.validation_error ≡ none
      → IsDecoded items v.entries
  unfolding visit_from
  visit_from-IsDecoded [] maximum observed {v} h n =
      let same : record { entries = []; validation_error = none } ≡ v = cc in
      subst (λ (x : Visited). IsDecoded [] x.entries) same tt
  visit_from-IsDecoded (broken ∷ items) maximum observed h n = cc
  visit_from-IsDecoded (pair key none ∷ items) maximum observed {v} h n =
      elim (Bool-cases (ltb maximum (min (observed + 1) (2 ^ 64 - 1)))) [
        | inl over ↦ absurd (
            map_visited-err (snapshot_too_large (min (observed + 1) (2 ^ 64 - 1)) maximum)
              (visit_from canonical_txid canonical_wtxid canonical_hash items maximum
                (min (observed + 1) (2 ^ 64 - 1)) true)
              (rw over at h) n)
        | inr under ↦ let failed = (rw under at h) in cc
      ]
  visit_from-IsDecoded (pair key (some wire) ∷ items) maximum observed {v} h n =
      let decoded = decode_entry canonical_txid canonical_wtxid canonical_hash key wire in
      elim (Bool-cases (ltb maximum (min (observed + 1) (2 ^ 64 - 1)))) [
        | inl over ↦ absurd (
            map_visited-err (snapshot_too_large (min (observed + 1) (2 ^ 64 - 1)) maximum)
              (visit_from canonical_txid canonical_wtxid canonical_hash items maximum
                (min (observed + 1) (2 ^ 64 - 1)) true)
              (rw over at h) n)
        | inr under ↦ elim (Result-cases decoded) [
          | inl (e, failed) ↦ absurd (
              map_visited-err e
                (visit_from canonical_txid canonical_wtxid canonical_hash items maximum
                  (min (observed + 1) (2 ^ 64 - 1)) true)
                (rw (under, failed) at h) n)
          | inr (inl (entry, good)) ↦
              let (w, went_on, still, entries) =
                map_visited-ok entry
                  (visit_from canonical_txid canonical_wtxid canonical_hash items maximum
                    (min (observed + 1) (2 ^ 64 - 1)) false)
                  (rw (under, good) at h) n in
              let later =
                visit_from-IsDecoded items maximum (min (observed + 1) (2 ^ 64 - 1)) went_on
                  still in
              subst (IsDecoded (pair key (some wire) ∷ items)) (sym entries) (good, later)
          | inr (inr out) ↦ let failed = (rw (under, out) at h) in cc
        ]
      ]

  collect_entries-parts :
      (maximum : ℕ) (answers : Answers) {es : List MempoolEntry}
      → collect_entries canonical_txid canonical_wtxid canonical_hash maximum answers ≡ ok es
      → (items : List MapItem) × (visited : Visited) × (answers.raw_mempool ≡ ok items)
        × (visit_from canonical_txid canonical_wtxid canonical_hash items maximum 0 false
            ≡ ok visited)
        × (into_entries (wire_of visited) maximum ≡ ok es)
  unfolding collect_entries
  collect_entries-parts maximum answers h = ground arith

  finish_snapshot-parts :
      (v i l : String) (started : ℕ) (tip : ChainTip) (entries : List MempoolEntry)
      (answers : Answers) {snapshot : MempoolSnapshot}
      → finish_snapshot canonical_txid canonical_wtxid canonical_hash v i l started tip entries
          answers
        ≡ ok snapshot
      → (ending_chain : BlockchainInfoWire) × (ending_tip : ChainTip) × (completed : ℕ)
        × (answers.ending_chain ≡ ok ending_chain)
        × (decode_chain_tip canonical_txid canonical_wtxid canonical_hash ending_chain
            ≡ ok ending_tip)
        × (tip ≡ ending_tip)
        × (new_with_collection_window v i l started completed
              (completed - started)
              ending_tip
              entries
            ≡ ok snapshot)
  unfolding finish_snapshot
  finish_snapshot-parts v i l started tip entries answers h =
      let tip_of = decode_chain_tip canonical_txid canonical_wtxid canonical_hash in
      let checked = λ (t : ChainTip). not (tip.height == t.height && str_eq tip.hash t.hash) in
      let unstable = λ (t : ChainTip). unstable_chain_tip tip.height tip.hash t.height t.hash in
      let made = λ (completed : ℕ) (t : ChainTip).
        with_error invalid_snapshot
          (new_with_collection_window v i l started completed (completed - started) t entries) in
      let from_tip =
        λ (completed : ℕ) (t : ChainTip). reject (checked t) (unstable t) >> made completed t in
      let from_clock =
        λ (c : BlockchainInfoWire) (completed : ℕ). tip_of c >>= from_tip completed in
      let (chain, a, h) =
        >>=-ok (with_call_error get_blockchain_info answers.ending_chain)
          (λ c. answers.completed >>= from_clock c) h in
      let (completed, b, h) = >>=-ok answers.completed (from_clock chain) h in
      let (ending_tip, c, h) = >>=-ok (tip_of chain) (from_tip completed) h in
      let (d, h) =
        >>-ok (reject (checked ending_tip) (unstable ending_tip)) (made completed ending_tip) h in
      (
        chain,
        ending_tip,
        completed,
        with_call_error-ok get_blockchain_info answers.ending_chain a,
        c,
        same_tip tip ending_tip
            (ground (arith, reject-ok (checked ending_tip) (unstable ending_tip) d)),
        with_error-ok invalid_snapshot
            (new_with_collection_window v i l started completed (completed - started) ending_tip
              entries)
            h,
      )

  get_mempool_snapshot-parts :
      (v i l : String) (maximum : ℕ) (answers : Answers) {snapshot : MempoolSnapshot}
      → get_mempool_snapshot canonical_txid canonical_wtxid canonical_hash v i l maximum answers
        ≡ ok snapshot
      → (starting_chain : BlockchainInfoWire) × (tip : ChainTip) × (entries : List MempoolEntry)
        × (started : ℕ) × (answers.starting_chain ≡ ok starting_chain)
        × (decode_chain_tip canonical_txid canonical_wtxid canonical_hash starting_chain ≡ ok tip)
        × (collect_entries canonical_txid canonical_wtxid canonical_hash maximum answers
            ≡ ok entries)
        × (finish_snapshot canonical_txid canonical_wtxid canonical_hash v i l started tip entries
              answers
            ≡ ok snapshot)
  unfolding get_mempool_snapshot
  get_mempool_snapshot-parts v i l maximum answers h =
      let tip_of = decode_chain_tip canonical_txid canonical_wtxid canonical_hash in
      let collected =
        collect_entries canonical_txid canonical_wtxid canonical_hash maximum answers in
      let finish = finish_snapshot canonical_txid canonical_wtxid canonical_hash v i l in
      let from_tip = λ (started : ℕ) (tip : ChainTip).
        collected >>= λ (es : List MempoolEntry). finish started tip es answers in
      let from_chain = λ (started : ℕ) (c : BlockchainInfoWire). tip_of c >>= from_tip started in
      let asked = with_call_error get_blockchain_info answers.starting_chain in
      let (started, a, h) = >>=-ok answers.started (λ s. asked >>= from_chain s) h in
      let (chain, b, h) = >>=-ok asked (from_chain started) h in
      let (tip, c, h) = >>=-ok (tip_of chain) (from_tip started) h in
      let (entries, d, h) = >>=-ok collected (λ es. finish started tip es answers) h in
      (
        chain,
        tip,
        entries,
        started,
        with_call_error-ok get_blockchain_info answers.starting_chain b,
        c,
        d,
        h,
      )

  -- A snapshot holds every entry of the node's answer, each decoded, in another order, at most as
  -- many as the limit, in strictly increasing order of the transaction ids and with distinct witness
  -- ids. Its chain tip is the one the node gave before the collection and the one it gave after it.
  pub get_mempool_snapshot-IsDecoded :
      (atlas_version source_id source_label : String) (maximum : ℕ) (answers : Answers)
      {snapshot : MempoolSnapshot}
      → get_mempool_snapshot canonical_txid canonical_wtxid canonical_hash atlas_version source_id
          source_label maximum answers
        ≡ ok snapshot
      → ((items : List MapItem) × (entries : List MempoolEntry) × (answers.raw_mempool ≡ ok items)
          × IsDecoded items entries
          × Perm snapshot.transactions entries
          × (length entries ≤ maximum)
          × IsSorted snapshot.transactions
          × IsFresh snapshot.transactions [])
        × ((starting_chain : BlockchainInfoWire) × (ending_chain : BlockchainInfoWire)
            × (answers.starting_chain ≡ ok starting_chain)
            × (answers.ending_chain ≡ ok ending_chain)
            × (decode_chain_tip canonical_txid canonical_wtxid canonical_hash starting_chain
                ≡ ok snapshot.chain_tip)
            × (decode_chain_tip canonical_txid canonical_wtxid canonical_hash ending_chain
                ≡ ok snapshot.chain_tip))
  get_mempool_snapshot-IsDecoded v i l maximum answers {snapshot} h =
      let (starting_chain, tip, entries, started, a, b, c, d) =
        get_mempool_snapshot-parts v i l maximum answers h in
      let (items, visited, e, f, g) = collect_entries-parts maximum answers c in
      let (ending_chain, ending_tip, completed, k, m, same, made) =
        finish_snapshot-parts v i l started tip entries answers d in
      let (decoded, wire, other, limit, sorted, fresh) =
        into_entries-IsSorted (wire_of visited) maximum g in
      let (no_error, kept) = wire_of-ok visited wire in
      let (o1, o2, o3, o4, o5, o6, o7, is_made) =
        (new_with_collection_window_iff v i l started completed (completed - started) ending_tip
            entries snapshot).0
          made in
      let ids : entries ≡ snapshot.transactions =
        sym (ap (λ (s : MempoolSnapshot). s.transactions) is_made) in
      let tips : ending_tip ≡ snapshot.chain_tip =
        sym (ap (λ (s : MempoolSnapshot). s.chain_tip) is_made) in
      (
        (
          items,
          decoded,
          e,
          subst (IsDecoded items) kept (visit_from-IsDecoded items maximum 0 f no_error),
          subst (λ x. Perm x decoded) ids other,
          limit,
          subst IsSorted ids sorted,
          subst (λ x. IsFresh x []) ids fresh,
        ),
        (starting_chain, ending_chain, a, k, b ∙ ap ok (same ∙ tips), m ∙ ap ok tips),
      )
