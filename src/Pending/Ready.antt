-- ===== src/Pending/Ready.antt =====
-- The candidates that src/classification.rs evaluates have all their facts.
use Prim.Native.String.{String}
use text.Mathlib.Text.{◌==◌ as str_eq}
use text.Mathlib.TextEquality.{eq_iff}
use text.Mathlib.TextPositions.{eq_refl}
use mempool_atlas.Prelude.{
  if◌then◌else◌, ◌≡◌, refl, sym, ◌∙◌, subst, inl, inr, Bool, true, false, Option, none, some, List,
  [], ◌∷◌, All, all, Bool-cases, arith,
}
use mempool_atlas.Results.{ok}
use mempool_atlas.Bitcoin.{TxIn, Bitcoin}
use mempool_atlas.Bip110.Prevout.{PrevoutFacts}
use mempool_atlas.Classification.Cache.{OutPoint, outpoint_eq, outpoint_lt}
use mempool_atlas.Classification.CacheEntries.{outpoint_eq_sound}
use mempool_atlas.Pending.State.{
  FactState, ready, awaiting, capacity_blocked, operationally_deferred, explicitly_missing,
  PendingCandidate, Facts, Active, PendingSlice, get_fact, get_active, remove_active,
  insert_outpoint,
}
use mempool_atlas.Pending.Candidates.{
  previous_output, required_outpoints, is_terminal, has_all_facts, keys_where, prevout_of,
  prevouts_of, ready_candidate, ReadyCandidate, ready_coinbase, ready_with, take_candidates,
  take_ready, without_candidates,
}

abbrev is_known_in : Facts → OutPoint → Bool
is_known_in facts o = is_terminal (get_fact o facts)

all-insert_outpoint :
    (test : OutPoint → Bool) (o : OutPoint) (os : List OutPoint)
    → all test (insert_outpoint o os) ≡ true
    → (test o ≡ true) × (all test os ≡ true)
all-insert_outpoint test o [] h = ground arith
all-insert_outpoint test o (x ∷ xs) h = elim (Bool-cases (outpoint_eq x o)) [
  | inl e ↦
      let kept : all test (x ∷ xs) ≡ true = rw (e, insert_outpoint) at h in
      let same = outpoint_eq_sound x o e in
      let first : test x ≡ true = ground arith in (subst (λ y. test y ≡ true) same first, kept)
  | inr n ↦ elim (Bool-cases (outpoint_lt o x)) [
    | inl lt ↦
        let all_of : all test (o ∷ x ∷ xs) ≡ true = rw (n, lt, insert_outpoint) at h in ground arith
    | inr ge ↦
        let rest : all test (x ∷ insert_outpoint o xs) ≡ true = rw (n, ge, insert_outpoint) at h in
        let ih = all-insert_outpoint test o xs (ground arith) in (ih.0, ground arith)
  ]
]

prevout_of-ok :
    (state : Option FactState)
    → is_terminal state ≡ true
    → (p : Option PrevoutFacts) × (prevout_of state ≡ ok p)
prevout_of-ok none h = cc
prevout_of-ok (some (ready s)) h = (_, refl)
prevout_of-ok (some (awaiting source attempts)) h = cc
prevout_of-ok (some (capacity_blocked source)) h = cc
prevout_of-ok (some operationally_deferred) h = cc
prevout_of-ok (some explicitly_missing) h = (none, refl)

-- Inputs without a null outpoint, whose outpoints are all known.
abbrev pub HasNoNull : (OutPoint → Bool) → List TxIn → Type 0
HasNoNull is_null = All (λ input. is_null (previous_output input) ≡ false)

prevouts_of-ok :
    (is_null : OutPoint → Bool) (inputs : List TxIn) (facts : Facts)
    → HasNoNull is_null inputs
    → all (is_known_in facts) (required_outpoints is_null inputs) ≡ true
    → (ps : List (Option PrevoutFacts)) × (prevouts_of inputs facts ≡ ok ps)
unfolding prevouts_of required_outpoints
prevouts_of-ok is_null [] facts n h = ([], refl)
prevouts_of-ok is_null (input ∷ inputs) facts (n, ns) h =
    let (now, later) =
      all-insert_outpoint (is_known_in facts) (previous_output input)
        (required_outpoints is_null inputs) (rw n at h) in
    let (p, e) = prevout_of-ok (get_fact (previous_output input) facts) now in
    let (ps, es) = prevouts_of-ok is_null inputs facts ns later in (p ∷ ps, rw (e, es) refl)

-- What `activate_waiting` makes: the outpoints that the inputs spend, of a transaction that is a
-- coinbase or has no null outpoint.
pub record IsAdmitted (bitcoin : Bitcoin) (is_null : OutPoint → Bool) (candidate : PendingCandidate)
    : Type 0 where
  pub requires : candidate.required ≡ required_outpoints is_null candidate.transaction.input
  pub spends :
      bitcoin.is_coinbase candidate.transaction ≡ false
      → HasNoNull is_null candidate.transaction.input

-- A candidate as it is taken out, and the candidates of a list.
abbrev pub IsTaken : PendingCandidate → ReadyCandidate → Type 0
IsTaken candidate r = (r.expected ≡ candidate.expected) × (r.transaction ≡ candidate.transaction)

abbrev pub AreTaken : List PendingCandidate → List ReadyCandidate → Type 0
AreTaken [] [] = Unit
AreTaken (c ∷ cs) (r ∷ rs) = IsTaken c r × AreTaken cs rs
AreTaken _ _ = ⊥

abbrev pub candidates_where : (PendingCandidate → Bool) → Active → List PendingCandidate
candidates_where test [] = []
candidates_where test (p ∷ active) =
    let rest = candidates_where test active in if test p.1 then p.1 ∷ rest else rest

ready_candidate-ok :
    (bitcoin : Bitcoin) (is_null : OutPoint → Bool) (candidate : PendingCandidate) (facts : Facts)
    → IsAdmitted bitcoin is_null candidate
    → has_all_facts facts candidate ≡ true
    → (r : ReadyCandidate) × (ready_candidate bitcoin candidate facts ≡ ok r) × IsTaken candidate r
unfolding ready_candidate has_all_facts
ready_candidate-ok bitcoin is_null candidate facts a h =
    elim (Bool-cases (bitcoin.is_coinbase candidate.transaction)) [
      | inl t ↦ (ready_coinbase candidate, rw t refl, (refl, refl))
      | inr f ↦
          let known : all (is_known_in facts)
                (required_outpoints is_null candidate.transaction.input)
              ≡ true =
            subst (λ os. all (is_known_in facts) os ≡ true) a.requires h in
          let (ps, e) =
            prevouts_of-ok is_null candidate.transaction.input facts (a.spends f) known in
          (ready_with candidate ps, rw (f, e) refl, (refl, refl))
    ]

-- The keys of the map differ.
abbrev pub AreKeysDistinct : Active → Type 0
AreKeysDistinct [] = Unit
AreKeysDistinct (p ∷ rest) = All (λ q. str_eq p.0 q.0 ≡ false) rest × AreKeysDistinct rest

get_active-remove_active :
    (key other : String) (active : Active)
    → str_eq key other ≡ false
    → get_active other (remove_active key active) ≡ get_active other active
get_active-remove_active key other [] h = refl
get_active-remove_active key other (p ∷ ps) h = elim (Bool-cases (str_eq p.0 key)) [
  | inl t ↦
      let same = (eq_iff p.0 key).0 t in
      let apart : str_eq p.0 other ≡ false = subst (λ x. str_eq x other ≡ false) (sym same) h in
      rw (t, remove_active) (rw apart refl)
  | inr f ↦ rw (f, remove_active) (rw (get_active-remove_active key other ps h) refl)
]

-- Each candidate of a part of the map that passes the test is found in the map.
abbrev AreFound : (PendingCandidate → Bool) → Active → Active → Type 0
AreFound test sub active = All (λ p. test p.1 ≡ true → get_active p.0 active ≡ some p.1) sub

AreFound-remove :
    (test : PendingCandidate → Bool) (key : String) (sub active : Active)
    → All (λ q. str_eq key q.0 ≡ false) sub
    → AreFound test sub active
    → AreFound test sub (remove_active key active)
AreFound-remove test key [] active d f = tt
AreFound-remove test key (p ∷ sub) active (d, ds) (f, fs) = (
  λ t. get_active-remove_active key p.0 active d ∙ f t,
  AreFound-remove test key sub active ds fs,
)

take_candidates-ok :
    (bitcoin : Bitcoin) (is_null : OutPoint → Bool) (facts : Facts) (sub active : Active)
    → AreKeysDistinct sub
    → AreFound (has_all_facts facts) sub active
    → All (λ p. IsAdmitted bitcoin is_null p.1) sub
    → (rs : List ReadyCandidate) × (take_candidates bitcoin
          (keys_where (has_all_facts facts) sub)
          active
          facts
        ≡ ok rs)
      × AreTaken (candidates_where (has_all_facts facts) sub) rs
unfolding keys_where take_candidates
take_candidates-ok bitcoin is_null facts [] active d f a = ([], refl, tt)
take_candidates-ok bitcoin is_null facts (p ∷ sub) active (d, ds) (f, fs) (a, rest) =
    elim (Bool-cases (has_all_facts facts p.1)) [
      | inl t ↦
          let (r, e, k) = ready_candidate-ok bitcoin is_null p.1 facts a t in
          let (rs, es, ks) =
            take_candidates-ok bitcoin is_null facts sub (remove_active p.0 active) ds
              (AreFound-remove (has_all_facts facts) p.0 sub active d fs) rest in
          (r ∷ rs, rw (t, f t, e, es) refl, rw t (k, ks))
      | inr n ↦
          let (rs, es, ks) = take_candidates-ok bitcoin is_null facts sub active ds fs rest in
          (rs, rw (n, es) refl, rw n ks)
    ]

AreFound-later :
    (test : PendingCandidate → Bool) (p : String × PendingCandidate) (sub active : Active)
    → All (λ q. str_eq p.0 q.0 ≡ false) sub
    → AreFound test sub active
    → AreFound test sub (p ∷ active)
AreFound-later test p [] active d f = tt
AreFound-later test p (q ∷ sub) active (d, ds) (f, fs) =
    (λ t. rw d (f t), AreFound-later test p sub active ds fs)

AreFound-self :
    (test : PendingCandidate → Bool) (active : Active)
    → AreKeysDistinct active
    → AreFound test active active
AreFound-self test [] d = tt
AreFound-self test (p ∷ active) (d, ds) = (
  λ t. rw (eq_refl p.0) refl,
  AreFound-later test p active active d (AreFound-self test active ds),
)

-- Of a map of candidates under different keys, each of which requires the outpoints that its
-- transaction spends, and is a coinbase or spends no null outpoint, the ready ones are always taken
-- out with their prevouts: every key that is found ready still has its candidate, and every fact
-- of its inputs is terminal.
pub take_ready-ok :
    (bitcoin : Bitcoin) (is_null : OutPoint → Bool) (pending : PendingSlice)
    → AreKeysDistinct pending.active
    → All (λ p. IsAdmitted bitcoin is_null p.1) pending.active
    → (rs : List ReadyCandidate) × (take_ready bitcoin pending
        ≡ ok (
          rs,
          without_candidates (keys_where (has_all_facts pending.facts) pending.active) pending,
        ))
      × AreTaken (candidates_where (has_all_facts pending.facts) pending.active) rs
unfolding take_ready
take_ready-ok bitcoin is_null pending d a =
    let (rs, e, taken) =
      take_candidates-ok bitcoin is_null pending.facts pending.active pending.active d
        (AreFound-self (has_all_facts pending.facts) pending.active d) a in
    (rs, rw e refl, taken)
