-- ===== src/Runtime/Turns.antt =====
-- src/runtime.rs: the round-robin of classification slices. The sets of source indices are lists
-- that rise strictly.
use mempool_atlas.Prelude.{
  ℕ, ◌+◌, ◌%◌, Bool, true, false, Option, none, some, List, [], ◌∷◌, ltb, ◌==◌, if◌then◌else◌,
}

-- `BTreeSet::insert`
unfoldable pub insert_index : ℕ → List ℕ → List ℕ
insert_index i [] = i ∷ []
insert_index i (j ∷ js) =
    let rest = insert_index i js in
    if ltb i j then i ∷ j ∷ js else if i == j then j ∷ js else j ∷ rest

-- `BTreeSet::remove`
unfoldable pub remove_index : ℕ → List ℕ → List ℕ
remove_index i [] = []
remove_index i (j ∷ js) = let rest = remove_index i js in if i == j then js else j ∷ rest

-- `BTreeSet::append`: the pending indices are taken.
unfoldable pub take_pending : List ℕ → List ℕ → List ℕ
unfolding insert_index
take_pending [] active = active
take_pending (i ∷ pending) active = take_pending pending (insert_index i active)

-- `active.range(next..).next()`
unfoldable pub first_from : ℕ → List ℕ → Option ℕ
first_from next [] = none
first_from next (i ∷ active) =
    let rest = first_from next active in if ltb i next then rest else some i

abbrev pub lowest : List ℕ → Option ℕ
lowest [] = none
lowest (i ∷ active) = some i

abbrev pub or_lowest : Option ℕ → Option ℕ → Option ℕ
or_lowest none other = other
or_lowest (some i) other = some i

unfoldable pub select : ℕ → List ℕ → Option ℕ
unfolding first_from
select next active = or_lowest (first_from next active) (lowest active)

-- What a turn is given: the indices that became pending, and whether the slice asks for more.
pub record Turn : Type 0 where
  pub pending : List ℕ
  pub continues : Bool

-- The index is removed for its slice, and inserted again when the slice asks for more.
abbrev pub after_slice : Bool → ℕ → List ℕ → List ℕ
after_slice true i waiting = insert_index i (remove_index i waiting)
after_slice false i waiting = remove_index i waiting

-- The inner loop over `source_count` sources: the sources that had a slice, in turn.
unfoldable pub run_turns : List Turn → (source_count next : ℕ) → (active : List ℕ) → List ℕ
unfolding take_pending select remove_index insert_index
run_turns [] source_count next active = []
run_turns (turn ∷ turns) source_count next active =
    let waiting = take_pending turn.pending active in
    elim (select next waiting) [
      | none ↦ []
      | some i ↦
          i
          ∷ run_turns turns source_count ((i + 1) % source_count)
              (after_slice turn.continues i waiting)
    ]
