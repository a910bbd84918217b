-- ===== src/Classifiers/Arc4.antt =====
-- src/classifiers/arc4.rs: the ARC4 keystream.
use Prim.Native.Nat.{bit_xor}
use mempool_atlas.Prelude.{ℕ, zero, suc, ◌+◌, ◌%◌, ◌^◌, [], ◌∷◌, Bytes, length, get_or}

-- `u8::wrapping_add`
abbrev pub wrapping_add : ℕ → ℕ → ℕ
wrapping_add a b = (a + b) % 2 ^ 8

abbrev pub set_cell : ℕ → ℕ → Bytes → Bytes
set_cell i x [] = []
set_cell zero x (y ∷ ys) = x ∷ ys
set_cell (suc i) x (y ∷ ys) = y ∷ set_cell i x ys

-- An index into the 256 cells is a byte.
abbrev pub cell : Bytes → ℕ → ℕ
cell state i = get_or state i 0

unfoldable pub swap : ℕ → ℕ → Bytes → Bytes
swap i j state = set_cell j (cell state i) (set_cell i (cell state j) state)

-- The cells from `index` on: `u8::try_from(index)`.
unfoldable pub identity_from : ℕ → ℕ → Bytes
identity_from zero index = []
identity_from (suc n) index = index ∷ identity_from n (index + 1)

-- The loop over the indices from `index` on, `n` of them.
unfoldable pub schedule : Bytes → (n index swap_index : ℕ) → Bytes → Bytes
unfolding swap
schedule key zero index swap_index state = state
schedule key (suc n) index swap_index state =
    let next =
      wrapping_add (wrapping_add swap_index (cell state index))
        (get_or key (index % length key) 0) in
    schedule key n (index + 1) next (swap index next state)

-- The loop over the data.
unfoldable pub crypt : Bytes → (i j : ℕ) → Bytes → Bytes
unfolding swap
crypt state i j [] = []
crypt state i j (byte ∷ data') =
    let i' = wrapping_add i 1 in
    let j' = wrapping_add j (cell state i') in
    let state' = swap i' j' state in
    let keystream = cell state' (wrapping_add (cell state' i') (cell state' j')) in
    bit_xor byte keystream ∷ crypt state' i' j' data'

unfoldable pub apply : Bytes → Bytes → Bytes
unfolding identity_from schedule crypt
apply [] data' = data'
apply (k ∷ ks) data' = crypt (schedule (k ∷ ks) 256 0 0 (identity_from 256 0)) 0 0 data'
