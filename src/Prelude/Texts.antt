-- ===== src/Prelude/Texts.antt =====
-- The order of the native strings.
use Prim.Native.Nat.{ℕ, Ordering, compare as compare_ℕ}
use Prim.Native.Char.{code}
use Prim.Native.String.{String, compare, then}
use Prim.Native.String.compare
use mathlib.Core.Path.{◌≡◌, sym, ◌∙◌, subst}
use mathlib.Core.Logic.{◌≢◌}
use text.Mathlib.TextPositions.{compare_refl}
use native.Mathlib.Omega.{arith}

lt-ne-eq : Ordering.lt ≢ Ordering.eq
lt-ne-eq h = cc

lt-ne-gt : Ordering.lt ≢ Ordering.gt
lt-ne-gt h = cc

eq-ne-gt : Ordering.eq ≢ Ordering.gt
eq-ne-gt h = cc

then_trans :
    (a b c : ℕ) (x y z : Ordering)
    → (x ≡ Ordering.lt → y ≡ Ordering.lt → z ≡ Ordering.lt)
    → then (compare_ℕ a b) x ≡ Ordering.lt
    → then (compare_ℕ b c) y ≡ Ordering.lt
    → then (compare_ℕ a c) z ≡ Ordering.lt
then_trans a b c x y z h p q = ground arith

pub compare_trans :
    (s t u : String)
    → compare s t ≡ Ordering.lt
    → compare t u ≡ Ordering.lt
    → compare s u ≡ Ordering.lt
compare_trans String.[] String.[] u p q = absurd (lt-ne-eq (sym p ∙ compare.nil-nil))
compare_trans String.[] (String.◌∷◌ d t) String.[] p q =
    absurd (lt-ne-gt (sym q ∙ compare.cons-nil d t))
compare_trans String.[] (String.◌∷◌ d t) (String.◌∷◌ e u) p q = compare.nil-cons e u
compare_trans (String.◌∷◌ c s) String.[] u p q = absurd (lt-ne-gt (sym p ∙ compare.cons-nil c s))
compare_trans (String.◌∷◌ c s) (String.◌∷◌ d t) String.[] p q =
    absurd (lt-ne-gt (sym q ∙ compare.cons-nil d t))
compare_trans (String.◌∷◌ c s) (String.◌∷◌ d t) (String.◌∷◌ e u) p q =
    compare.cons-cons c e s u
    ∙ then_trans (code c) (code d) (code e) (compare s t) (compare t u) (compare s u)
        (compare_trans s t u) (sym (compare.cons-cons c d s t) ∙ p)
        (sym (compare.cons-cons d e t u) ∙ q)

pub str_lt_irrefl : (s t : String) → compare s t ≡ Ordering.lt → s ≢ t
str_lt_irrefl s t h e = lt-ne-eq (sym h ∙ subst (λ x. compare s x ≡ Ordering.eq) e (compare_refl s))

flip_gt :
    (a b : ℕ) (x y : Ordering)
    → (x ≡ Ordering.lt → y ≡ Ordering.gt)
    → then (compare_ℕ a b) x ≡ Ordering.lt
    → then (compare_ℕ b a) y ≡ Ordering.gt
flip_gt a b x y h p = ground arith

pub compare_flip : (s t : String) → compare s t ≡ Ordering.lt → compare t s ≡ Ordering.gt
compare_flip String.[] String.[] p = absurd (lt-ne-eq (sym p ∙ compare.nil-nil))
compare_flip String.[] (String.◌∷◌ d t) p = compare.cons-nil d t
compare_flip (String.◌∷◌ c s) String.[] p = absurd (lt-ne-gt (sym p ∙ compare.cons-nil c s))
compare_flip (String.◌∷◌ c s) (String.◌∷◌ d t) p =
    compare.cons-cons d c t s
    ∙ flip_gt (code c) (code d) (compare s t) (compare t s) (compare_flip s t)
        (sym (compare.cons-cons c d s t) ∙ p)

flip_lt :
    (a b : ℕ) (x y : Ordering)
    → (x ≡ Ordering.gt → y ≡ Ordering.lt)
    → then (compare_ℕ a b) x ≡ Ordering.gt
    → then (compare_ℕ b a) y ≡ Ordering.lt
flip_lt a b x y h p = ground arith

pub compare_flip_gt : (s t : String) → compare s t ≡ Ordering.gt → compare t s ≡ Ordering.lt
compare_flip_gt String.[] String.[] p = absurd (eq-ne-gt (sym compare.nil-nil ∙ p))
compare_flip_gt String.[] (String.◌∷◌ d t) p = absurd (lt-ne-gt (sym (compare.nil-cons d t) ∙ p))
compare_flip_gt (String.◌∷◌ c s) String.[] p = compare.nil-cons c s
compare_flip_gt (String.◌∷◌ c s) (String.◌∷◌ d t) p =
    compare.cons-cons d c t s
    ∙ flip_lt (code c) (code d) (compare s t) (compare t s) (compare_flip_gt s t)
        (sym (compare.cons-cons c d s t) ∙ p)
