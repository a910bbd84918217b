-- ===== src/Bip110/ScriptRules/Parts.antt =====
-- The parts of rules 2 to 7 return proven matches only.
use mempool_atlas.Prelude.{
  ℕ, ◌+◌, ◌≡◌, refl, Bool, true, false, ◌⊎◌, inl, inr, Option, none, some, List, [], ◌∷◌, ◌++◌, map,
  Bytes, traverse, ltb, arith, Bool-cases, All,
}
use mempool_atlas.Bitcoin.{Item, decoded, malformed, push_bytes, op}
use mempool_atlas.Bip110.ScriptScan.{
  pushes_over_items, op_successes_items, first_op_if_items, is_op_success, op_if, op_notif,
}
use mempool_atlas.Bip110.Verdict.{ScriptKind, PrimaryViolation}
use mempool_atlas.Bip110.ScriptRules.{
  push_match, violation_opcode_pos, witness_items_from, witness_item_violations, insert_by_key,
  sort_onto, with_opcode_pos, annex_matches, control_block_matches, op_success_match, op_if_entries,
}
use mempool_atlas.Bip110.ScriptRules.Proven.{IsProven, AllProven}

witness_items_from-AllProven :
    (i n : ℕ) (items : List Bytes) → AllProven i (witness_items_from i n items)
unfolding witness_items_from
witness_items_from-AllProven i n [] = tt
witness_items_from-AllProven i n (item ∷ items) =
    ground (arith, witness_items_from-AllProven i (n + 1) items)

pub witness_item_violations-AllProven :
    (i : ℕ) (items : List Bytes) → AllProven i (witness_item_violations i items)
unfolding witness_item_violations
witness_item_violations-AllProven i items = witness_items_from-AllProven i 0 items

pub pushes-AllProven :
    (i : ℕ) (kind : ScriptKind) (items : List Item)
    → AllProven i (map (λ e. push_match i kind e.0 e.1) (pushes_over_items 256 items))
unfolding pushes_over_items push_match
pushes-AllProven i kind [] = tt
pushes-AllProven i kind (decoded pos (push_bytes pb) ∷ items) =
    ground (arith, pushes-AllProven i kind items)
pushes-AllProven i kind (decoded pos (op o) ∷ items) = pushes-AllProven i kind items
pushes-AllProven i kind (malformed ∷ items) = tt

pub op_successes-AllProven :
    (i : ℕ) (items : List Item) → AllProven i (map (op_success_match i) (op_successes_items items))
unfolding op_successes_items op_success_match
op_successes-AllProven i [] = tt
op_successes-AllProven i (decoded pos (op o) ∷ items) = elim (Bool-cases (is_op_success o)) [
  | inl e ↦ rw e ((refl, refl, e), op_successes-AllProven i items)
  | inr e ↦ rw e (op_successes-AllProven i items)
]
op_successes-AllProven i (decoded pos (push_bytes pb) ∷ items) = op_successes-AllProven i items
op_successes-AllProven i (malformed ∷ items) = tt

-- Entries with their positions: the second parts stay proven through the sort.
abbrev pub EntriesProven : ℕ → List (ℕ × PrimaryViolation) → Type 0
EntriesProven i entries = All (λ e. IsProven i e.1) entries

insert_by_key-EntriesProven :
    (i : ℕ) (e : ℕ × PrimaryViolation) (es : List (ℕ × PrimaryViolation))
    → IsProven i e.1
    → EntriesProven i es
    → EntriesProven i (insert_by_key e es)
unfolding insert_by_key
insert_by_key-EntriesProven i e [] h hs = (h, tt)
insert_by_key-EntriesProven i e (x ∷ xs) h hs = elim (Bool-cases (ltb e.0 x.0)) [
  | inl t ↦ rw t (h, hs)
  | inr t ↦ rw t (hs.0, insert_by_key-EntriesProven i e xs h hs.1)
]

pub sort_onto-EntriesProven :
    (i : ℕ) (sorted es : List (ℕ × PrimaryViolation))
    → EntriesProven i sorted
    → EntriesProven i es
    → EntriesProven i (sort_onto sorted es)
unfolding sort_onto
sort_onto-EntriesProven i sorted [] hs h = hs
sort_onto-EntriesProven i sorted (e ∷ es) hs h =
    sort_onto-EntriesProven i (insert_by_key e sorted) es
      (insert_by_key-EntriesProven i e sorted h.0 hs) h.1

pub EntriesProven-map :
    (i : ℕ) (es : List (ℕ × PrimaryViolation))
    → EntriesProven i es
    → AllProven i (map (λ e. e.1) es)
EntriesProven-map i [] h = tt
EntriesProven-map i (e ∷ es) h = (h.0, EntriesProven-map i es h.1)

pub EntriesProven-append :
    (i : ℕ) (xs ys : List (ℕ × PrimaryViolation))
    → EntriesProven i xs
    → EntriesProven i ys
    → EntriesProven i (xs ++ ys)
EntriesProven-append i [] ys hx hy = hy
EntriesProven-append i (x ∷ xs) ys hx hy = (hx.0, EntriesProven-append i xs ys hx.1 hy)

-- Every push match has an opcode position, so the sort key is never missing.
abbrev pub with_position : ℕ → ScriptKind → ℕ × ℕ → ℕ × PrimaryViolation
with_position i kind e = (e.0, push_match i kind e.0 e.1)

pub traverse-with_opcode_pos :
    (i : ℕ) (kind : ScriptKind) (ps : List (ℕ × ℕ))
    → traverse with_opcode_pos (map (λ e. push_match i kind e.0 e.1) ps)
      ≡ some (map (with_position i kind) ps)
unfolding push_match violation_opcode_pos
traverse-with_opcode_pos i kind [] = refl
traverse-with_opcode_pos i kind (p ∷ ps) = rw (traverse-with_opcode_pos i kind ps)

pub EntriesProven-with_position :
    (i : ℕ) (kind : ScriptKind) (ps : List (ℕ × ℕ))
    → AllProven i (map (λ e. push_match i kind e.0 e.1) ps)
    → EntriesProven i (map (with_position i kind) ps)
EntriesProven-with_position i kind [] h = tt
EntriesProven-with_position i kind (p ∷ ps) h = (h.0, EntriesProven-with_position i kind ps h.1)

abbrev pub IsOpIf : Option (ℕ × ℕ) → Type 0
IsOpIf none = Unit
IsOpIf (some (_, opcode)) = (opcode ≡ op_if) ⊎ (opcode ≡ op_notif)

pub first_op_if_items-IsOpIf : (items : List Item) → IsOpIf (first_op_if_items items)
unfolding first_op_if_items
first_op_if_items-IsOpIf [] = tt
first_op_if_items-IsOpIf (decoded pos (op o) ∷ items) =
    ground (arith, first_op_if_items-IsOpIf items)
first_op_if_items-IsOpIf (decoded pos (push_bytes pb) ∷ items) = first_op_if_items-IsOpIf items
first_op_if_items-IsOpIf (malformed ∷ items) = tt

pub op_if_entries-EntriesProven :
    (i : ℕ) (b : Bool) (found : Option (ℕ × ℕ))
    → IsOpIf found
    → EntriesProven i (op_if_entries i b found)
unfolding op_if_entries
op_if_entries-EntriesProven i true found h = tt
op_if_entries-EntriesProven i false none h = tt
op_if_entries-EntriesProven i false (some (pos, o)) h = ((refl, refl, h), tt)

pub annex_matches-AllProven : (i : ℕ) (annex : Option Bytes) → AllProven i (annex_matches i annex)
unfolding annex_matches
annex_matches-AllProven i none = tt
annex_matches-AllProven i (some a) = ((refl, refl), tt)

pub control_block_matches-AllProven : (i clen : ℕ) → AllProven i (control_block_matches i clen)
unfolding control_block_matches
control_block_matches-AllProven i clen = ground arith
