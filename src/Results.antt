-- ===== src/Results.antt =====
-- `Result` and `?`; `panic` is the outcome of a call that panics.
use mempool_atlas.Prelude.{◌≡◌, ◌⊎◌, inl, inr, refl, Bool, true, false}

pub data Result (E A : Type 0) : Type 0 where
  err : E → Result E A
  ok : A → Result E A
  panic : Result E A

infixl 5 ◌>>=◌
abbrev pub ◌>>=◌ : {E A B : Type 0} → Result E A → (A → Result E B) → Result E B
err e >>= f = err e
ok a >>= f = f a
panic >>= f = panic

infixl 5 ◌>>◌
abbrev pub ◌>>◌ : {E A : Type 0} → Result E Unit → Result E A → Result E A
err e >> next = err e
ok _ >> next = next
panic >> next = panic

abbrev pub is_ok : {E A : Type 0} → Result E A → Bool
is_ok (err e) = false
is_ok (ok a) = true
is_ok panic = false

-- `if test { return Err(e); }`
abbrev pub reject : {E : Type 0} → Bool → E → Result E Unit
reject true e = err e
reject false e = ok tt

pub reject-ok : {E : Type 0} (b : Bool) (e : E) → reject b e ≡ ok tt → b ≡ false
reject-ok true e h = cc
reject-ok false e h = refl

pub >>=-ok :
    {E A B : Type 0} (m : Result E A) (f : A → Result E B) {b : B}
    → (m >>= f) ≡ ok b
    → (a : A) × (m ≡ ok a) × (f a ≡ ok b)
>>=-ok (err e) f h = cc
>>=-ok (ok a) f h = (a, refl, h)
>>=-ok panic f h = cc

pub >>-ok :
    {E A : Type 0} (m : Result E Unit) (n : Result E A) {a : A}
    → (m >> n) ≡ ok a
    → (m ≡ ok tt) × (n ≡ ok a)
>>-ok (err e) n h = cc
>>-ok (ok tt) n h = (refl, h)
>>-ok panic n h = cc

pub Result-cases :
    {E A : Type 0} (r : Result E A)
    → ((e : E) × (r ≡ err e)) ⊎ (((a : A) × (r ≡ ok a)) ⊎ (r ≡ panic))
Result-cases (err e) = inl (e, refl)
Result-cases (ok a) = inr (inl (a, refl))
Result-cases panic = inr (inr refl)

pub eq_of_ok : {E A : Type 0} {a b : A} → ◌≡◌ {A = Result E A} (ok a) (ok b) → a ≡ b
eq_of_ok h = cc
