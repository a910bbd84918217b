-- ===== src/Classifiers/Arc4Symmetric.antt =====
-- The keystream twice is nothing.
use Prim.Native.Nat.{bit_xor, bit_xor-bitwise, digits, differ}
use mempool_atlas.Prelude.{
  ℕ, zero, suc, ◌+◌, ◌*◌, ◌/◌, ◌%◌, ◌≤◌, ◌<◌, ◌≡◌, refl, sym, ◌∙◌, ap, ap₂, [], ◌∷◌, Bytes, length,
  arith,
}
use mempool_atlas.Classifiers.Arc4.{apply, crypt}

-- The binary digits of an exclusive or, with as many steps as are needed.
abbrev xor_digits : ℕ → ℕ → ℕ → ℕ
xor_digits n a b = digits (λ b. b) differ n a b

xor_digits-zero : (m b : ℕ) → xor_digits m 0 b ≡ b
xor_digits-zero zero b = refl
xor_digits-zero (suc m) b = refl

xor_digits-steps : (n m a b : ℕ) → a ≤ n → a ≤ m → xor_digits n a b ≡ xor_digits m a b
xor_digits-steps zero m zero b p q = sym (xor_digits-zero m b)
xor_digits-steps zero m (suc a) b p q = absurd (omega arith)
xor_digits-steps (suc n) m zero b p q = sym (xor_digits-zero m b)
xor_digits-steps (suc n) zero (suc a) b p q = absurd (omega arith)
xor_digits-steps (suc n) (suc m) (suc a) b p q =
    ap (λ x. x * 2 + differ (suc a % 2) (b % 2))
      (xor_digits-steps n m (suc a / 2) (b / 2) (omega arith) (omega arith))

-- The law of the lowest digit.
xor_step : (a b : ℕ) → bit_xor a b ≡ bit_xor (a / 2) (b / 2) * 2 + differ (a % 2) (b % 2)
xor_step zero b = omega (arith, bit_xor-bitwise 0 b, bit_xor-bitwise 0 (b / 2))
xor_step (suc a) b = omega (
  arith,
  bit_xor-bitwise (suc a) b,
  bit_xor-bitwise (suc a / 2) (b / 2),
  xor_digits-steps a (suc a / 2) (suc a / 2) (b / 2) (omega arith) (omega arith),
)

differ_bits : (x y : ℕ) → x < 2 → y < 2 → (differ x y < 2) × (differ (differ x y) y ≡ x)
differ_bits zero zero p q = (omega arith, refl)
differ_bits zero (suc zero) p q = (omega arith, refl)
differ_bits zero (suc (suc y)) p q = absurd (omega arith)
differ_bits (suc zero) zero p q = (omega arith, refl)
differ_bits (suc zero) (suc zero) p q = (omega arith, refl)
differ_bits (suc zero) (suc (suc y)) p q = absurd (omega arith)
differ_bits (suc (suc x)) y p q = absurd (omega arith)

xor_twice_steps : (n a b : ℕ) → a ≤ n → b ≤ n → bit_xor (bit_xor a b) b ≡ a
xor_twice_steps zero zero zero p q = refl
xor_twice_steps zero zero (suc b) p q = absurd (omega arith)
xor_twice_steps zero (suc a) b p q = absurd (omega arith)
xor_twice_steps (suc n) a b p q =
    let (small, twice) = differ_bits (a % 2) (b % 2) (omega arith) (omega arith) in
    let h = xor_step a b in
    let half : bit_xor a b / 2 ≡ bit_xor (a / 2) (b / 2) = omega (arith, h, small) in
    let last : bit_xor a b % 2 ≡ differ (a % 2) (b % 2) = omega (arith, h, small) in
    xor_step (bit_xor a b) b
    ∙ ap₂ (λ x y. bit_xor x (b / 2) * 2 + differ y (b % 2)) half last
    ∙ ap₂ (λ x y. x * 2 + y) (xor_twice_steps n (a / 2) (b / 2) (omega arith) (omega arith)) twice
    ∙ omega arith

xor_twice : (a b : ℕ) → bit_xor (bit_xor a b) b ≡ a
xor_twice a b = xor_twice_steps (a + b) a b (omega arith) (omega arith)

crypt_twice :
    (data' : Bytes) (state : Bytes) (i j : ℕ) → crypt state i j (crypt state i j data') ≡ data'
unfolding crypt
crypt_twice [] state i j = refl
crypt_twice (b ∷ bs) state i j = ap₂ (◌∷◌) (xor_twice b _) (crypt_twice bs _ _ _)

length-crypt :
    (data' : Bytes) (state : Bytes) (i j : ℕ) → length (crypt state i j data') ≡ length data'
unfolding crypt
length-crypt [] state i j = refl
length-crypt (b ∷ bs) state i j = ap suc (length-crypt bs _ _ _)

-- Applying the keystream keeps the length, and applying it twice with the same key gives the data
-- back.
pub apply-apply :
    (key data' : Bytes)
    → (length (apply key data') ≡ length data') × (apply key (apply key data') ≡ data')
unfolding apply
apply-apply [] data' = (refl, refl)
apply-apply (k ∷ ks) data' = (length-crypt data' _ 0 0, crypt_twice data' _ 0 0)
