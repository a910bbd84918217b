-- ===== src/Rpc/Envelope.antt =====
-- Which answers a call takes (src/rpc.rs).
use Prim.Native.String.{String}
use text.Mathlib.TextEquality.{eq_iff}
use mempool_atlas.Prelude.{
  ℕ, ℤ, ◌≡◌, ◌↔◌, refl, ap, true, not, ◌||◌, Option, none, some, Bytes, arith, inl, inr,
}
use mempool_atlas.Results.{
  Result, ok, err, panic, reject, ◌>>=◌, ◌>>◌, Result-cases, >>=-ok, >>-ok, reject-ok,
}
use mempool_atlas.Rpc.Error.{decode_response, decode_result, mismatched_response_envelope}
use mempool_atlas.Rpc.Call.{
  MembershipWireResponse, is_version, is_id, map_error, raw_result, check_error, result_in,
  answer_of,
}

is_version-ok : (v : Option String) → is_version v ≡ true → v ≡ some "2.0"
is_version-ok none h = cc
is_version-ok (some version) h = ap some ((eq_iff version "2.0").0 h)

is_id-ok : (id : ℕ) (other : Option ℕ) → is_id id other ≡ true → other ≡ some id
is_id-ok id none h = cc
is_id-ok id (some other) h = let same : other ≡ id = ground arith in ap some same

is_id_refl : (id : ℕ) → is_id id (some id) ≡ true
is_id_refl id = ground arith

map_error-ok :
    {E F A : Type 0} (wrap : E → F) (r : Result E A) {a : A} → map_error wrap r ≡ ok a → r ≡ ok a
map_error-ok wrap (err e) h = cc
map_error-ok wrap (ok x) {a} h = let same : x ≡ a = cc in ap ok same
map_error-ok wrap panic h = cc

raw_result-ok : (r : Option String) {raw : String} → raw_result r ≡ ok raw → r ≡ some raw
raw_result-ok none h = cc
raw_result-ok (some x) {raw} h = let same : x ≡ raw = cc in ap some same

module _ (read_response : Bytes → Result String MembershipWireResponse)
    (read_code : String → Result String ℤ) {T : Type 0}
    (read_result : String → Result String T) where
  check_error-ok :
      (status_code : ℕ) (error : Option String)
      → check_error read_response read_code read_result status_code error ≡ ok tt
      → error ≡ none
  check_error-ok status_code none h = refl
  check_error-ok status_code (some error) h = elim (Result-cases (read_code error)) [
    | inl (e, p) ↦ let q = (rw p at h) in cc
    | inr (inl (a, p)) ↦ let q = (rw p at h) in cc
    | inr (inr p) ↦ let q = (rw p at h) in cc
  ]

  -- An answer is taken exactly when it is a response of the version 2.0 to the request with this id,
  -- that reports no error and whose result decodes, and it is that result.
  pub answer_of_iff :
      (id status_code : ℕ) (body : Bytes) (value : T)
      → (answer_of read_response read_code read_result id status_code body ≡ ok value) ↔ (
          (response : MembershipWireResponse) × (raw : String) × (read_response body ≡ ok response)
          × (response.jsonrpc ≡ some "2.0")
          × (response.id ≡ some id)
          × (response.error ≡ none)
          × (response.result ≡ some raw)
          × (read_result raw ≡ ok value))
  unfolding answer_of
  answer_of_iff id status_code body value = (
    λ h.
        let rest = result_in read_response read_code read_result id status_code in
        let (response, a, h) =
          >>=-ok (map_error (decode_response status_code) (read_response body)) rest h in
        let decoded = λ (raw : String). map_error decode_result (read_result raw) in
        let found = raw_result response.result >>= decoded in
        let checked = check_error read_response read_code read_result status_code response.error in
        let foreign = not (is_version response.jsonrpc) || not (is_id id response.id) in
        let (b, h) = >>-ok (reject foreign mismatched_response_envelope) (checked >> found) h in
        let (c, h) = >>-ok checked found h in
        let (raw, d, h) = >>=-ok (raw_result response.result) decoded h in
        let own = reject-ok foreign mismatched_response_envelope b in
        (
          response,
          raw,
          map_error-ok (decode_response status_code) (read_response body) a,
          is_version-ok response.jsonrpc (ground (arith, own)),
          is_id-ok id response.id (ground (arith, own)),
          check_error-ok status_code response.error c,
          raw_result-ok response.result d,
          map_error-ok decode_result (read_result raw) h,
        ),
    λ (response, raw, a, b, c, d, e, f). rw (a, b, c, d, e, f, is_id_refl id) refl,
  )
