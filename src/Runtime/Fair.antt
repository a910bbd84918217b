-- ===== src/Runtime/Fair.antt =====
-- Each source of src/runtime.rs that waits for a classification slice has its turn in a round.
use native.Mathlib.Nat.{mod-eq_of_lt, mod_self}
use mempool_atlas.Prelude.{
  ℕ, ◌+◌, ◌-◌, ◌%◌, ◌≤◌, ◌<◌, ◌≡◌, refl, sym, subst, ◌⊎◌, inl, inr, Bool, true, false, some, List,
  [], ◌∷◌, All, Contains, Option-cases, length, arith, ltb, ◌==◌, Bool-cases, if◌then◌else◌,
}
use mempool_atlas.Runtime.Turns.{
  insert_index, remove_index, take_pending, first_from, lowest, select, Turn, after_slice,
  run_turns,
}

-- The list rises strictly.
abbrev pub IsRising : List ℕ → Type 0
IsRising [] = Unit
IsRising (i ∷ js) = All (λ j. i < j) js × IsRising js

All-lt_trans : (i j : ℕ) (js : List ℕ) → i < j → All (λ k. j < k) js → All (λ k. i < k) js
All-lt_trans i j [] h a = tt
All-lt_trans i j (k ∷ js) h (b, a) = (omega (arith, h, b), All-lt_trans i j js h a)

All-insert_index :
    (P : ℕ → Type 0) (i : ℕ) (js : List ℕ) → P i → All P js → All P (insert_index i js)
unfolding insert_index
All-insert_index P i [] p a = (p, tt)
All-insert_index P i (j ∷ js) p (q, a) = ground (arith, All-insert_index P i js p a)

All-remove_index : (P : ℕ → Type 0) (i : ℕ) (js : List ℕ) → All P js → All P (remove_index i js)
unfolding remove_index
All-remove_index P i [] a = tt
All-remove_index P i (j ∷ js) (q, a) = ground (arith, All-remove_index P i js a)

insert_index-IsRising : (i : ℕ) (js : List ℕ) → IsRising js → IsRising (insert_index i js)
unfolding insert_index
insert_index-IsRising i [] r = (tt, tt)
insert_index-IsRising i (j ∷ js) (a, r) =
    let ih = insert_index-IsRising i js r in
    elim (Bool-cases (ltb i j)) [
      | inl t ↦ let h : i < j = ground arith in rw t ((h, All-lt_trans i j js h a), (a, r))
      | inr f ↦ elim (Bool-cases (i == j)) [
        | inl e ↦ rw (f, e) (a, r)
        | inr n ↦
            let h : j < i = ground arith in rw (f, n) (All-insert_index (λ k. j < k) i js h a, ih)
      ]
    ]

remove_index-IsRising : (i : ℕ) (js : List ℕ) → IsRising js → IsRising (remove_index i js)
unfolding remove_index
remove_index-IsRising i [] r = tt
remove_index-IsRising i (j ∷ js) (a, r) =
    ground (arith, remove_index-IsRising i js r, All-remove_index (λ k. j < k) i js a)

Contains-insert_index : (k i : ℕ) (js : List ℕ) → Contains k js → Contains k (insert_index i js)
unfolding insert_index
Contains-insert_index k i [] c = absurd c
Contains-insert_index k i (j ∷ js) c = ground (arith, Contains-insert_index k i js)

Contains-remove_index :
    (k i : ℕ) (js : List ℕ) → (i == k) ≡ false → Contains k js → Contains k (remove_index i js)
unfolding remove_index
Contains-remove_index k i [] n c = absurd c
Contains-remove_index k i (j ∷ js) n c = ground (arith, Contains-remove_index k i js n)

take_pending-keeps :
    (n k : ℕ) (pending active : List ℕ)
    → All (λ i. i < n) pending
    → IsRising active
    → All (λ i. i < n) active
    → Contains k active
    → IsRising (take_pending pending active)
      × All (λ i. i < n) (take_pending pending active)
      × Contains k (take_pending pending active)
unfolding take_pending
take_pending-keeps n k [] active p r a c = (r, a, c)
take_pending-keeps n k (i ∷ pending) active (p, ps) r a c =
    take_pending-keeps n k pending (insert_index i active) ps (insert_index-IsRising i active r)
      (All-insert_index (λ j. j < n) i active p a) (Contains-insert_index k i active c)

All-of : (P : ℕ → Type 0) (k : ℕ) (js : List ℕ) → All P js → Contains k js → P k
All-of P k [] a c = absurd c
All-of P k (j ∷ js) (p, a) (inl e) = subst P e p
All-of P k (j ∷ js) (p, a) (inr c) = All-of P k js a c

-- The index that is taken is the first that waits, from `next` on and around.
first_from-some :
    (next : ℕ) (js : List ℕ) (i : ℕ)
    → IsRising js
    → Contains i js
    → next ≤ i
    → (j : ℕ) × (first_from next js ≡ some j) × (next ≤ j) × (j ≤ i) × Contains j js
unfolding first_from
first_from-some next [] i r c h = absurd c
first_from-some next (k ∷ js) i (a, r) (inl e) h =
    (k, ground (arith, e), omega (arith, e, h), omega (arith, e), inl refl)
first_from-some next (k ∷ js) i (a, r) (inr c) h = elim (Bool-cases (ltb k next)) [
  | inl t ↦
      let (j, found, low, high, inside) = first_from-some next js i r c h in
      (j, rw t found, low, high, inr inside)
  | inr f ↦
      let below = All-of (λ x. k < x) i js a c in
      (k, rw f refl, ground arith, omega (arith, below), inl refl)
]

first_from-Contains :
    (next : ℕ) (js : List ℕ) (j : ℕ) → first_from next js ≡ some j → (next ≤ j) × Contains j js
unfolding first_from
first_from-Contains next [] j h = cc
first_from-Contains next (k ∷ js) j h = ground (arith, first_from-Contains next js j)

-- How many sources stand between the next turn and the index, around `n`.
abbrev pub distance : (n next i : ℕ) → ℕ
distance n next i = if ltb i next then i + n - next else i - next

lowest-some :
    (js : List ℕ) (i : ℕ)
    → IsRising js
    → Contains i js
    → (j : ℕ) × (lowest js ≡ some j) × (j ≤ i) × Contains j js
lowest-some [] i r c = absurd c
lowest-some (k ∷ js) i (a, r) (inl e) = (k, refl, omega (arith, e), inl refl)
lowest-some (k ∷ js) i (a, r) (inr c) =
    (k, refl, omega (arith, All-of (λ x. k < x) i js a c), inl refl)

select-nearest :
    (n next : ℕ) (js : List ℕ) (i : ℕ)
    → next < n
    → All (λ j. j < n) js
    → IsRising js
    → Contains i js
    → (j : ℕ) × (select next js ≡ some j)
      × (j < n)
      × Contains j js
      × (distance n next j ≤ distance n next i)
unfolding select
select-nearest n next js i small a r c = elim (Bool-cases (ltb i next)) [
  | inl before ↦ elim (Option-cases (first_from next js)) [
    | inl none_from ↦
        let (j, found, low, inside) = lowest-some js i r c in
        let under = All-of (λ x. x < n) j js a inside in
        (j, rw none_from found, under, inside, ground arith)
    | inr (j, found) ↦
        let (low, inside) = first_from-Contains next js j found in
        let under = All-of (λ x. x < n) j js a inside in
        (j, rw found refl, under, inside, ground arith)
  ]
  | inr after ↦
      let (j, found, low, high, inside) = first_from-some next js i r c (ground arith) in
      let under = All-of (λ x. x < n) j js a inside in
      (j, rw found refl, under, inside, ground arith)
]

next_turn :
    (n j : ℕ) → j < n → ((j + 1) % n ≡ j + 1) × (j + 1 < n) ⊎ ((j + 1) % n ≡ 0) × (j + 1 ≡ n)
next_turn n j h = elim (Bool-cases (ltb (j + 1) n)) [
  | inl t ↦ let lt : j + 1 < n = ground arith in inl (mod-eq_of_lt lt, lt)
  | inr f ↦
      let eq : j + 1 ≡ n = ground (arith, h) in
      inr (subst (λ m. (j + 1) % m ≡ 0) eq (mod_self (j + 1)), eq)
]

-- Past the source that had its turn, every other one is nearer.
distance-lt :
    (n next i j : ℕ)
    → next < n
    → i < n
    → j < n
    → (j == i) ≡ false
    → distance n next j ≤ distance n next i
    → ((j + 1) % n < n) × (distance n ((j + 1) % n) i < distance n next i)
distance-lt n next i j a b c d e = elim (next_turn n j c) [
  | inl (m, lt) ↦ rw m (lt, ground arith)
  | inr (m, eq) ↦ rw m (omega (arith, c), ground (arith, eq))
]

abbrev pub AreBelow : ℕ → List Turn → Type 0
AreBelow n = All (λ turn. All (λ i. i < n) turn.pending)

run_turns-cons :
    (turn : Turn) (turns : List Turn) (n next j : ℕ) (active : List ℕ)
    → select next (take_pending turn.pending active) ≡ some j
    → run_turns (turn ∷ turns) n next active
      ≡ j
        ∷ run_turns turns n
            ((j + 1) % n)
            (after_slice turn.continues j (take_pending turn.pending active))
unfolding run_turns
run_turns-cons turn turns n next j active h = ground arith

after_slice-keeps :
    (n k j : ℕ) (waiting : List ℕ) (continues : Bool)
    → j < n
    → (j == k) ≡ false
    → IsRising waiting
    → All (λ i. i < n) waiting
    → Contains k waiting
    → IsRising (after_slice continues j waiting)
      × All (λ i. i < n) (after_slice continues j waiting)
      × Contains k (after_slice continues j waiting)
after_slice-keeps n k j waiting false low other r a c = (
  remove_index-IsRising j waiting r,
  All-remove_index (λ i. i < n) j waiting a,
  Contains-remove_index k j waiting other c,
)
after_slice-keeps n k j waiting true low other r a c =
    let rest = remove_index j waiting in
    (
      insert_index-IsRising j rest (remove_index-IsRising j waiting r),
      All-insert_index (λ i. i < n) j rest low (All-remove_index (λ i. i < n) j waiting a),
      Contains-insert_index k j rest (Contains-remove_index k j waiting other c),
    )

-- A source index that waits has its slice within as many turns as it stands from the next one,
-- whatever becomes pending and whichever slices ask for more; so in `n` turns of `n` sources, every
-- index that waits has a turn.
pub run_turns-serves :
    (turns : List Turn) (n next i : ℕ) (active : List ℕ)
    → next < n
    → IsRising active
    → All (λ j. j < n) active
    → AreBelow n turns
    → Contains i active
    → distance n next i < length turns
    → Contains i (run_turns turns n next active)
run_turns-serves [] n next i active small r a b c d = absurd (omega (arith, d))
run_turns-serves (turn ∷ turns) n next i active small r a (p, b) c d =
    let waiting = take_pending turn.pending active in
    let (rising, under, waits) = take_pending-keeps n i turn.pending active p r a c in
    let (j, found, low, inside, near) = select-nearest n next waiting i small under rising waits in
    let ilow = All-of (λ x. x < n) i waiting under waits in
    let step = run_turns-cons turn turns n next j active found in
    subst (Contains i) (sym step) (elim (Bool-cases (j == i)) [
      | inl same ↦ inl (ground arith)
      | inr other ↦
          let (small', nearer) = distance-lt n next i j small ilow low other near in
          let (r', a', c') =
            after_slice-keeps n i j waiting turn.continues low other rising under waits in
          inr (
            run_turns-serves turns n ((j + 1) % n) i (after_slice turn.continues j waiting) small'
              r' a' b c' (omega (arith, nearer, d)))
    ])
