-- ===== src/Rpc/Transport.antt =====
-- src/rpc_transport.rs: the bounded reading of a response. The HTTP client is the minreq crate: its
-- answer is an argument, and so is how its body is read.
use Prim.Native.String.{String}
use mempool_atlas.Prelude.{
  ℕ, suc, zero, ◌+◌, ◌*◌, ◌-◌, ◌^◌, min, inl, inr, ◌⊎◌, Bool, ◌&&◌, Option, none, some, List, [],
  ◌∷◌, ◌++◌, Bytes, any, length, is_empty, ltb, ◌==◌, if◌then◌else◌, bytes_eq, map, within, not,
  map_option,
}
use mempool_atlas.Results.{Result, ok, err, panic, reject, ◌>>=◌, ◌>>◌}
use mempool_atlas.Model.Source.{codes, is_whitespace}
use mempool_atlas.Rpc.Error.{
  RpcTransportError, transport, unexpected_http_status, unsupported_transfer_encoding,
  incomplete_response_body, response_too_large,
}

-- What minreq gives once the headers are there; `S` is the state of the connection.
pub record Response (S : Type 0) : Type 0 where
  pub status_code : ℕ
  pub headers : List (String × String)
  pub connection : S

abbrev lower : ℕ → ℕ
lower c = if within 65 90 c then c + 32 else c

-- `str::eq_ignore_ascii_case`
abbrev pub eq_ignore_ascii_case : String → String → Bool
eq_ignore_ascii_case a b = bytes_eq (map lower (codes a)) (map lower (codes b))

-- `str::trim`
abbrev pub trim_start : List ℕ → List ℕ
trim_start [] = []
trim_start (c ∷ cs) = let rest = trim_start cs in if is_whitespace c then rest else c ∷ cs

abbrev pub trim_end : List ℕ → List ℕ
trim_end [] = []
trim_end (c ∷ cs) =
    let rest = trim_end cs in if is_whitespace c && is_empty rest then [] else c ∷ rest

-- The digits of a number below 2 ^ 64 after the value `n`.
abbrev pub parse_digits : (n : ℕ) → List ℕ → Option ℕ
parse_digits n [] = some n
parse_digits n (c ∷ cs) =
    let rest = parse_digits (n * 10 + (c - 48)) cs in
    if within 48 57 c && ltb (n * 10 + (c - 48)) (2 ^ 64) then rest else none

abbrev without_sign : List ℕ → List ℕ
without_sign [] = []
without_sign (c ∷ cs) = if c == 0x2b then cs else c ∷ cs

-- `parse::<usize>().ok()`
abbrev pub parse_usize : List ℕ → Option ℕ
parse_usize text =
    let digits = without_sign text in if is_empty digits then none else parse_digits 0 digits

abbrev pub header : String → List (String × String) → Option String
header name [] = none
header name ((n, value) ∷ headers) =
    let rest = header name headers in if eq_ignore_ascii_case n name then some value else rest

abbrev pub announced_length : List (String × String) → Option ℕ
announced_length headers = elim (header "content-length" headers) [
  | none ↦ none
  | some value ↦ parse_usize (trim_end (trim_start (codes value)))
]

abbrev pub is_transfer_encoding : String × String → Bool
is_transfer_encoding (name, value) = eq_ignore_ascii_case name "transfer-encoding"

abbrev pub check_announced : Option ℕ → (maximum : ℕ) → Result RpcTransportError Unit
check_announced none maximum = ok tt
check_announced (some actual) maximum =
    reject (ltb maximum actual) (response_too_large actual maximum)

abbrev pub check_complete : Option ℕ → (actual : ℕ) → Result RpcTransportError Unit
check_complete none actual = ok tt
check_complete (some expected) actual =
    reject (not (actual == expected)) (incomplete_response_body expected actual)

-- A call that reads at most so many bytes into the buffer of 8 KiB: an error, or the bytes and the
-- connection after them.
module _ {S : Type 0} (read : S → ℕ → String ⊎ (Bytes × S)) where
  -- The loop; `none` where the rounds do not suffice.
  unfoldable pub read_loop :
      (rounds maximum : ℕ) → (body : Bytes) → S → Option (Result RpcTransportError Bytes)
  read_loop zero maximum body s = none
  read_loop (suc rounds) maximum body s =
      let remaining = maximum - length body in
      elim (read s (min (min (remaining + 1) (2 ^ 64 - 1)) (8 * 1024))) [
        | inl e ↦ some (err (transport e))
        | inr (bytes, s') ↦
            let rest = read_loop rounds maximum (body ++ bytes) s' in
            if length bytes == 0
            then some (ok body)
            else if ltb remaining (length bytes)
            then some (err (response_too_large (min (maximum + 1) (2 ^ 64 - 1)) maximum))
            else rest
      ]

  abbrev pub with_status :
      (status_code : ℕ)
      → (announced : Option ℕ) → Result RpcTransportError Bytes
      → Result RpcTransportError (ℕ × Bytes)
  with_status status_code announced body = do
    bytes ← body
    check_complete announced (length bytes)
    ok (status_code, bytes)

  abbrev pub read_announced :
      (rounds : ℕ)
      → Response S
      → (announced : Option ℕ) → (maximum : ℕ) → Result RpcTransportError Unit
      → Option (Result RpcTransportError (ℕ × Bytes))
  read_announced rounds response announced maximum (err e) = some (err e)
  read_announced rounds response announced maximum panic = some panic
  read_announced rounds response announced maximum (ok checked) =
      map_option (with_status response.status_code announced)
        (read_loop rounds maximum [] response.connection)

  unfoldable pub read_bounded_response :
      (rounds : ℕ) → Response S → (maximum : ℕ) → Option (Result RpcTransportError (ℕ × Bytes))
  unfolding read_loop
  read_bounded_response rounds response maximum =
      let announced = announced_length response.headers in
      read_announced rounds response announced maximum (
        reject (any is_transfer_encoding response.headers) unsupported_transfer_encoding
        >> check_announced announced maximum)

  -- `send_lazy` has answered, or has failed.
  unfoldable pub post_json_bounded :
      (rounds : ℕ)
      → Result String (Response S)
      → (maximum : ℕ) → Option (Result RpcTransportError (ℕ × Bytes))
  unfolding read_bounded_response
  post_json_bounded rounds (err e) maximum = some (err (transport e))
  post_json_bounded rounds panic maximum = some panic
  post_json_bounded rounds (ok response) maximum =
      let answer = read_bounded_response rounds response maximum in
      if not (response.status_code == 200)
      then some (err (unexpected_http_status response.status_code))
      else answer
