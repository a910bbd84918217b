-- ===== src/Json.antt =====
-- What the program uses of `serde_json::Value`, which is not part of the repository: the values
-- that `json!` builds, and their derived equality.
use Prim.Native.String.{String}
use text.Mathlib.Text.{◌==◌ as str_eq}
use text.Mathlib.TextPositions.{eq_refl}
use mempool_atlas.Prelude.{ℕ, ◌≡◌, refl, Bool, true, false, ◌&&◌, ◌==◌, ==_iff}

mutual
  pub data Value : Type 0 where
    null : Value
    bool : Bool → Value
    number : ℕ → Value
    string : String → Value
    array : Values → Value
    object : Fields → Value

  pub data Values : Type 0 where
    no_values : Values
    value : Value → Values → Values

  pub data Fields : Type 0 where
    no_fields : Fields
    field : String → Value → Fields → Fields

abbrev pub bool_eq : Bool → Bool → Bool
bool_eq true b = b
bool_eq false true = false
bool_eq false false = true

unfoldable mutual
  pub value_eq : Value → Value → Bool
  value_eq null null = true
  value_eq (bool a) (bool b) = bool_eq a b
  value_eq (number a) (number b) = a == b
  value_eq (string a) (string b) = str_eq a b
  value_eq (array a) (array b) = values_eq a b
  value_eq (object a) (object b) = fields_eq a b
  value_eq _ _ = false

  pub values_eq : Values → Values → Bool
  values_eq no_values no_values = true
  values_eq (value a vs) (value b ws) = value_eq a b && values_eq vs ws
  values_eq _ _ = false

  pub fields_eq : Fields → Fields → Bool
  fields_eq no_fields no_fields = true
  fields_eq (field k a fs) (field j b gs) = str_eq k j && (value_eq a b && fields_eq fs gs)
  fields_eq _ _ = false

pub bool_eq_refl : (b : Bool) → bool_eq b b ≡ true
bool_eq_refl true = refl
bool_eq_refl false = refl

mutual
  unfolding value_eq values_eq fields_eq

  pub value_eq_refl : (v : Value) → value_eq v v ≡ true
  value_eq_refl null = refl
  value_eq_refl (bool b) = bool_eq_refl b
  value_eq_refl (number n) = (==_iff n n).1 refl
  value_eq_refl (string s) = eq_refl s
  value_eq_refl (array vs) = values_eq_refl vs
  value_eq_refl (object fs) = fields_eq_refl fs

  values_eq_refl : (vs : Values) → values_eq vs vs ≡ true
  values_eq_refl no_values = refl
  values_eq_refl (value v vs) = rw (value_eq_refl v) (values_eq_refl vs)

  fields_eq_refl : (fs : Fields) → fields_eq fs fs ≡ true
  fields_eq_refl no_fields = refl
  fields_eq_refl (field k v fs) = rw (eq_refl k, value_eq_refl v) (fields_eq_refl fs)
