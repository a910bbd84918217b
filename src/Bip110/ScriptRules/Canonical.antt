-- ===== src/Bip110/ScriptRules/Canonical.antt =====
-- The canonical single push of a redeem script.
use mathlib.Core.Bool.{false≢true}
use mempool_atlas.Prelude.{
  ℕ, ◌+◌, ◌*◌, ◌/◌, ◌%◌, ◌^◌, ◌<◌, ◌≤◌, ap, Option, none, ◌≡◌, ap₂, sym, ◌∙◌, ◌↔◌, Bool, true,
  false, not, ◌&&◌, inl, inr, some, [], ◌∷◌, ◌++◌, Bytes, bytes_eq, bytes_eq_sound, bytes_eq_refl,
  length, length-append, take, drop, take-append-drop, take-append, drop-append, ltb, ◌==◌, arith,
  if◌then◌else◌, Option-cases,
}
use mempool_atlas.Bip110.ScriptRules.{header_len, expected_header, is_canonical_single_push}

-- The two ladders of the code agree: a header of `header_len` bytes for each length that fits.
header-Agrees : (len : ℕ) → len < 2 ^ 32 → header_len len ≡ some (length (expected_header len))
unfolding header_len expected_header
header-Agrees len h = ground arith

header_len-fits : (len n : ℕ) → header_len len ≡ some n → len < 2 ^ 32
unfolding header_len
header_len-fits len n h = ground arith

tests-hold : (b c d : Bool) → (if not b then false else c && d) ≡ true → (c ≡ true) × (d ≡ true)
tests-hold b c d h = ground arith

split-eq :
    (n : ℕ) (sig hdr redeem : Bytes)
    → bytes_eq (take n sig) hdr ≡ true
    → bytes_eq (drop n sig) redeem ≡ true
    → sig ≡ hdr ++ redeem
split-eq n sig hdr redeem h k =
    sym (take-append-drop n sig)
    ∙ ap₂ ◌++◌ (bytes_eq_sound (take n sig) hdr h) (bytes_eq_sound (drop n sig) redeem k)

canonical-eq :
    (sig redeem : Bytes)
    → is_canonical_single_push sig redeem ≡ true
    → (length redeem < 2 ^ 32) × (sig ≡ expected_header (length redeem) ++ redeem)
unfolding is_canonical_single_push
canonical-eq sig redeem h = elim (Option-cases (header_len (length redeem))) [
  | inl e ↦ absurd (false≢true (rw (e, is_canonical_single_push) at h))
  | inr f ↦
      let (head, tail) =
        tests-hold (length sig == f.0 + length redeem) _ _
          (rw (f.1, is_canonical_single_push) at h) in
      (
        header_len-fits (length redeem) f.0 f.1,
        split-eq f.0 sig (expected_header (length redeem)) redeem head tail,
      )
]

eq-canonical :
    (sig redeem : Bytes)
    → length redeem < 2 ^ 32
    → sig ≡ expected_header (length redeem) ++ redeem
    → is_canonical_single_push sig redeem ≡ true
unfolding is_canonical_single_push
eq-canonical sig redeem h e =
    let hdr = expected_header (length redeem) in
    rw
      (
        header-Agrees (length redeem) h,
        is_canonical_single_push,
        e,
        length-append hdr redeem,
        take-append hdr redeem,
        drop-append hdr redeem,
        bytes_eq_refl hdr,
        bytes_eq_refl redeem,
      )
      (ground arith)

-- The push opcodes of Script for data of a length: the length itself, or OP_PUSHDATA1, 2 or 4 with
-- the length in little-endian bytes.
abbrev pub push_header : ℕ → Bytes
push_header len =
    if ltb len 76
    then len ∷ []
    else if ltb len 256
    then 0x4c ∷ len ∷ []
    else if ltb len 65536
    then 0x4d ∷ len % 256 ∷ len / 256 ∷ []
    else 0x4e ∷ len % 256 ∷ len / 256 % 256 ∷ len / 65536 % 256 ∷ len / 16777216 ∷ []

expected_header-push_header : (len : ℕ) → len < 2 ^ 32 → expected_header len ≡ push_header len
unfolding expected_header
expected_header-push_header len h = ground arith

-- A scriptSig is accepted as the canonical single push of a redeem script exactly when the script
-- is shorter than 2 ^ 32 bytes and the scriptSig is the script behind the push opcode for its
-- length: the length below 76, and else 0x4c, 0x4d or 0x4e with the length in one, two or four
-- little-endian bytes, the fewest that hold it.
pub is_canonical_single_push_iff :
    (sig redeem : Bytes)
    → (is_canonical_single_push sig redeem ≡ true)
      ↔ ((length redeem < 2 ^ 32) × (sig ≡ push_header (length redeem) ++ redeem))
is_canonical_single_push_iff sig redeem = (
  λ h.
      let (small, e) = canonical-eq sig redeem h in
      (small, e ∙ ap (λ header. header ++ redeem) (expected_header-push_header _ small)),
  λ (small, e).
      eq-canonical sig redeem small
        (e ∙ ap (λ header. header ++ redeem) (sym (expected_header-push_header _ small))),
)

-- The length that a push header announces, as the interpreter of Script reads it.
abbrev pub announced : Bytes → Option ℕ
announced (opcode ∷ []) = if ltb opcode 76 then some opcode else none
announced (opcode ∷ a ∷ []) = if opcode == 0x4c then some a else none
announced (opcode ∷ a ∷ b ∷ []) = if opcode == 0x4d then some (a + 256 * b) else none
announced (opcode ∷ a ∷ b ∷ c ∷ d ∷ []) =
    if opcode == 0x4e then some (a + 256 * (b + 256 * (c + 256 * d))) else none
announced _ = none

abbrev pub AreBytes : Bytes → Type 0
AreBytes [] = Unit
AreBytes (b ∷ bs) = (b < 256) × AreBytes bs

header-announced :
    (len : ℕ)
    → len < 2 ^ 32
    → (announced (expected_header len) ≡ some len) × AreBytes (expected_header len)
unfolding expected_header
header-announced len h = ground arith

header-shortest :
    (len : ℕ) (other : Bytes)
    → len < 2 ^ 32
    → AreBytes other
    → announced other ≡ some len
    → length (expected_header len) ≤ length other
unfolding expected_header
header-shortest len [] h bytes e = cc
header-shortest len (o ∷ []) h bytes e = ground arith
header-shortest len (o ∷ a ∷ []) h bytes e = ground arith
header-shortest len (o ∷ a ∷ b ∷ []) h bytes e = ground arith
header-shortest len (o ∷ a ∷ b ∷ c ∷ []) h bytes e = cc
header-shortest len (o ∷ a ∷ b ∷ c ∷ d ∷ more) h bytes e = ground arith

-- The push header of a length below 2 ^ 32 is bytes that the interpreter of Script reads as this
-- length, and no other bytes that it reads so are fewer.
pub expected_header-announced :
    (len : ℕ) (other : Bytes)
    → len < 2 ^ 32
    → AreBytes other
    → announced other ≡ some len
    → (announced (expected_header len) ≡ some len)
      × AreBytes (expected_header len)
      × (length (expected_header len) ≤ length other)
expected_header-announced len other h bytes e =
    let (read, valid) = header-announced len h in (read, valid, header-shortest len other h bytes e)
