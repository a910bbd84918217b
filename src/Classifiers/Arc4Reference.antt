-- ===== src/Classifiers/Arc4Reference.antt =====
-- ARC4 as it is published, on a permutation that is a function, and that the code computes it.
use Prim.Native.Nat.{bit_xor}
use mempool_atlas.Prelude.{
  ℕ, zero, suc, ◌+◌, ◌%◌, ◌<◌, ◌≡◌, refl, ◌∙◌, ap, ap₂, subst, [], ◌∷◌, Bytes, length, get_or, ◌==◌,
  ==_iff, if◌then◌else◌, arith, Bool-cases, inl, inr,
}
use mempool_atlas.Classifiers.Arc4.{
  apply, crypt, schedule, swap, set_cell, cell, identity_from, wrapping_add,
}
use mempool_atlas.Classifiers.Arc4Symmetric.{apply-apply}

abbrev pub exchanged : (i j : ℕ) → (ℕ → ℕ) → ℕ → ℕ
exchanged i j f k = if k == i then f j else if k == j then f i else f k

-- The permutation and the index after `n` steps of the key schedule.
abbrev pub scheduled : Bytes → ℕ → (ℕ → ℕ) × ℕ
scheduled key zero = (λ k. k, 0)
scheduled key (suc n) =
    let before = scheduled key n in
    let j = (before.1 + before.0 n + get_or key (n % length key) 0) % 256 in
    (exchanged n j before.0, j)

abbrev pub arc4_from : (f : ℕ → ℕ) (i j : ℕ) → Bytes → Bytes
arc4_from f i j [] = []
arc4_from f i j (byte ∷ data') =
    let i' = (i + 1) % 256 in
    let j' = (j + f i') % 256 in
    let g = exchanged i' j' f in bit_xor byte (g ((g i' + g j') % 256)) ∷ arc4_from g i' j' data'

-- An empty key leaves the data.
abbrev pub arc4_reference : (key data' : Bytes) → Bytes
arc4_reference [] data' = data'
arc4_reference (k ∷ ks) data' = arc4_from (scheduled (k ∷ ks) 256).0 0 0 data'

Agrees : Bytes → (ℕ → ℕ) → Type 0
Agrees state f = (length state ≡ 256) × ((k : ℕ) → k < 256 → cell state k ≡ f k)

cell-set_cell :
    (i x : ℕ) (s : Bytes) (k : ℕ)
    → i < length s
    → cell (set_cell i x s) k ≡ (if k == i then x else cell s k)
cell-set_cell i x [] k h = absurd (omega (arith, h))
cell-set_cell zero x (y ∷ s) zero h = refl
cell-set_cell zero x (y ∷ s) (suc k) h = ground arith
cell-set_cell (suc i) x (y ∷ s) zero h = ground arith
cell-set_cell (suc i) x (y ∷ s) (suc k) h = cell-set_cell i x s k (omega (arith, h)) ∙ ground arith

length-set_cell : (i x : ℕ) (s : Bytes) → length (set_cell i x s) ≡ length s
length-set_cell i x [] = refl
length-set_cell zero x (y ∷ s) = refl
length-set_cell (suc i) x (y ∷ s) = ap suc (length-set_cell i x s)

swap-Agrees :
    (i j : ℕ) (s : Bytes) (f : ℕ → ℕ)
    → i < 256
    → j < 256
    → Agrees s f
    → Agrees (swap i j s) (exchanged i j f)
unfolding swap Agrees
swap-Agrees i j s f p q (len, same) = (
  length-set_cell j (cell s i) (set_cell i (cell s j) s) ∙ length-set_cell i (cell s j) s ∙ len,
  λ k r.
      let outer =
        cell-set_cell j (cell s i) (set_cell i (cell s j) s) k
          (omega (arith, length-set_cell i (cell s j) s, len, q)) in
      let inner = cell-set_cell i (cell s j) s k (omega (arith, len, p)) in
      elim (Bool-cases (k == j)) [
        | inr other ↦ ground (arith, outer, inner, same k r, same j q)
        | inl second ↦
            let moved : f k ≡ f j = ap f ((==_iff k j).0 second) in
            elim (Bool-cases (k == i)) [
              | inr other ↦ ground (arith, outer, same i p)
              | inl first ↦
                  let still : f k ≡ f i = ap f ((==_iff k i).0 first) in
                  ground (arith, outer, same i p, moved, still)
            ]
      ],
)

cell-identity_from : (n m k : ℕ) → k < n → cell (identity_from n m) k ≡ m + k
unfolding identity_from
cell-identity_from zero m k h = absurd (omega (arith, h))
cell-identity_from (suc n) m zero h = omega arith
cell-identity_from (suc n) m (suc k) h =
    cell-identity_from n (m + 1) k (omega (arith, h)) ∙ omega arith

length-identity_from : (n m : ℕ) → length (identity_from n m) ≡ n
unfolding identity_from
length-identity_from zero m = refl
length-identity_from (suc n) m = ap suc (length-identity_from n (m + 1))

-- From the state after `index` steps, `n` more steps lead to the state after all of them.
schedule-Agrees :
    (key : Bytes) (n index j : ℕ) (state : Bytes)
    → index + n ≡ 256
    → j ≡ (scheduled key index).1
    → Agrees state (scheduled key index).0
    → Agrees (schedule key n index j state) (scheduled key 256).0
unfolding schedule Agrees
schedule-Agrees key zero index j state e at_index agrees =
    let last : index ≡ 256 = omega (arith, e) in
    subst (λ m. Agrees state (scheduled key m).0) last agrees
schedule-Agrees key (suc n) index j state e at_index agrees =
    let byte = get_or key (index % length key) 0 in
    let next = wrapping_add (wrapping_add j (cell state index)) byte in
    let f = (scheduled key index).0 in
    let same : cell state index ≡ f index = agrees.1 index (omega (arith, e)) in
    let at_next : next ≡ (scheduled key (suc index)).1 = omega (arith, same, at_index) in
    let more : suc index ≡ index + 1 = omega arith in
    let after : Agrees (swap index next state) (exchanged index next f) =
      swap-Agrees index next state f (omega (arith, e)) (omega arith) agrees in
    let after : Agrees (swap index next state) (scheduled key (suc index)).0 =
      subst (λ x. Agrees (swap index next state) (exchanged index x f)) at_next after in
    schedule-Agrees key n (index + 1) next (swap index next state) (omega (arith, e))
      (subst (λ m. next ≡ (scheduled key m).1) more at_next)
      (subst (λ m. Agrees (swap index next state) (scheduled key m).0) more after)

abbrev next_byte : (f : ℕ → ℕ) (i' j' byte : ℕ) → Bytes → Bytes
next_byte f i' j' byte data' =
    let g = exchanged i' j' f in bit_xor byte (g ((g i' + g j') % 256)) ∷ arc4_from g i' j' data'

crypt-arc4_from :
    (data' state : Bytes) (f : ℕ → ℕ) (i j : ℕ)
    → Agrees state f
    → crypt state i j data' ≡ arc4_from f i j data'
unfolding crypt Agrees
crypt-arc4_from [] state f i j agrees = refl
crypt-arc4_from (b ∷ bs) state f i j agrees =
    let i' = (i + 1) % 256 in
    let j' = wrapping_add j (cell state i') in
    let g = exchanged i' j' f in
    let t = swap i' j' state in
    let after : Agrees t g = swap-Agrees i' j' state f (omega arith) (omega arith) agrees in
    let sum : (cell t i' + cell t j') % 256 ≡ (g i' + g j') % 256 =
      ap₂ (λ x y. (x + y) % 256) (after.1 i' (omega arith)) (after.1 j' (omega arith)) in
    ap₂ (◌∷◌) (ap (bit_xor b) (after.1 ((cell t i' + cell t j') % 256) (omega arith) ∙ ap g sum))
      (crypt-arc4_from bs t g i' j' after)
    ∙ ap (λ x. next_byte f i' x b bs) (ap (λ x. (j + x) % 256) (agrees.1 i' (omega arith)))

-- The code computes ARC4 as it is published: from the permutation that maps each number to itself,
-- 256 exchanges of cell n with the cell at a running sum of cells and key bytes, and then for each
-- byte an exchange and the cell at the sum of the two exchanged, with which the byte is combined by
-- exclusive or. An empty key leaves the data. Applied twice with the same key it gives the data
-- back.
pub apply-arc4_reference :
    (key data' : Bytes)
    → (apply key data' ≡ arc4_reference key data') × (apply key (apply key data') ≡ data')
unfolding apply Agrees
apply-arc4_reference [] data' = (refl, refl)
apply-arc4_reference (k ∷ ks) data' = (
  crypt-arc4_from data' (schedule (k ∷ ks) 256 0 0 (identity_from 256 0)) (scheduled (k ∷ ks) 256).0
      0 0
      (schedule-Agrees (k ∷ ks) 256 0 0 (identity_from 256 0) (omega arith) refl
        (length-identity_from 256 0, λ n h. cell-identity_from 256 0 n h ∙ omega arith)),
  (apply-apply (k ∷ ks) data').1,
)
