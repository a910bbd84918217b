-- ===== src/Rpc/Bounded.antt =====
-- How a bounded response ends (src/rpc_transport.rs).
use Prim.Native.String.{String}
use mempool_atlas.Prelude.{
  ℕ, suc, zero, ◌+◌, ◌*◌, ◌-◌, ◌^◌, ◌<◌, ◌≤◌, ◌≡◌, ◌≢◌, refl, min, inl, inr, ◌⊎◌, Bool, true, false,
  Option, none, some, [], ◌++◌, Bytes, any, length, length-append, Sum-cases, ltb, ◌==◌, arith,
  Bool-cases,
}
use mempool_atlas.Results.{Result, ok, err, panic, reject, ◌>>◌, Result-cases, >>-ok, reject-ok}
use mempool_atlas.Rpc.Error.{
  RpcTransportError, transport, response_too_large, unsupported_transfer_encoding,
}
use mempool_atlas.Rpc.Transport.{
  Response, announced_length, is_transfer_encoding, check_announced, check_complete, read_loop,
  with_status, read_bounded_response,
}

abbrev pub IsAtMost : ℕ → Result RpcTransportError Bytes → Type 0
IsAtMost maximum (ok body) = length body ≤ maximum
IsAtMost maximum (err e) = Unit
IsAtMost maximum panic = ⊥

abbrev pub IsAnnounced : Option ℕ → ℕ → Type 0
IsAnnounced none actual = Unit
IsAnnounced (some expected) actual = actual ≡ expected

-- An answer has the status of the response and all the bytes that were announced, if any were; no
-- more than the limit, and no transfer encoding.
abbrev pub IsWhole : {S : Type 0} → Response S → ℕ → Result RpcTransportError (ℕ × Bytes) → Type 0
IsWhole response maximum (ok (status_code, body)) =
    (status_code ≡ response.status_code)
    × (length body ≤ maximum)
    × IsAnnounced (announced_length response.headers) (length body)
    × (any is_transfer_encoding response.headers ≡ false)
IsWhole response maximum (err e) = Unit
IsWhole response maximum panic = ⊥

check_complete-IsAnnounced :
    (announced : Option ℕ) (actual : ℕ)
    → check_complete announced actual ≡ ok tt
    → IsAnnounced announced actual
check_complete-IsAnnounced none actual h = tt
check_complete-IsAnnounced (some expected) actual h = ground arith

check_complete-ne-panic :
    (announced : Option ℕ) (actual : ℕ) → check_complete announced actual ≢ panic
check_complete-ne-panic none actual h = cc
check_complete-ne-panic (some expected) actual h = ground arith

checks-ne-panic :
    (coded : Bool) (announced : Option ℕ) (maximum : ℕ)
    → (reject coded unsupported_transfer_encoding >> check_announced announced maximum) ≢ panic
checks-ne-panic true announced maximum h = cc
checks-ne-panic false none maximum h = cc
checks-ne-panic false (some actual) maximum h = ground arith

module _ {S : Type 0} (read : S → ℕ → String ⊎ (Bytes × S)) where
  read_loop-some :
      (rounds maximum : ℕ) (body : Bytes) (s : S)
      → length body ≤ maximum
      → maximum - length body < rounds
      → (r : Result RpcTransportError Bytes) × (read_loop read rounds maximum body s ≡ some r)
        × IsAtMost maximum r
  unfolding read_loop
  read_loop-some zero maximum body s most enough = absurd (omega (arith, enough))
  read_loop-some (suc rounds) maximum body s most enough =
      let n = min (min (maximum - length body + 1) (2 ^ 64 - 1)) (8 * 1024) in
      elim (Sum-cases (read s n)) [
        | inl (e, failed) ↦ (err (transport e), rw (failed, read_loop) refl, tt)
        | inr ((bytes, s'), got) ↦ elim (Bool-cases (length bytes == 0)) [
          | inl last ↦ (ok body, rw (got, last, read_loop) refl, most)
          | inr more ↦ elim (Bool-cases (ltb (maximum - length body) (length bytes))) [
            | inl over ↦ (
              err (response_too_large (min (maximum + 1) (2 ^ 64 - 1)) maximum),
              rw (got, more, over, read_loop) refl,
              tt,
            )
            | inr fits ↦
                let joined = length-append body bytes in
                let some_more : 0 < length bytes = ground (arith, more) in
                let room : length bytes ≤ maximum - length body = ground (arith, fits) in
                let (r, e, bounded) =
                  read_loop-some rounds maximum (body ++ bytes) s'
                    (omega (arith, joined, room, most))
                    (omega (arith, joined, room, some_more, most, enough)) in
                (r, rw (got, more, fits, read_loop) e, bounded)
          ]
        ]
      ]

  with_status-IsWhole :
      (response : Response S) (maximum : ℕ) (r : Result RpcTransportError Bytes)
      → IsAtMost maximum r
      → any is_transfer_encoding response.headers ≡ false
      → IsWhole response maximum
          (with_status read response.status_code (announced_length response.headers) r)
  with_status-IsWhole response maximum (err e) bounded plain = tt
  with_status-IsWhole response maximum panic bounded plain = bounded
  with_status-IsWhole response maximum (ok body) bounded plain =
      let announced = announced_length response.headers in
      elim (Result-cases (check_complete announced (length body))) [
        | inl (e, failed) ↦ rw failed tt
        | inr (inl (checked, passed)) ↦
            rw passed
              (refl, bounded, check_complete-IsAnnounced announced (length body) passed, plain)
        | inr (inr out) ↦ absurd (check_complete-ne-panic announced (length body) out)
      ]

  -- With more rounds than the limit has bytes, the reading of a response ends, in an error or with
  -- the status of the response and a body that is no longer than the limit, is as long as was
  -- announced, if a length was, and came without a transfer encoding.
  pub read_bounded_response-some :
      (rounds : ℕ) (response : Response S) (maximum : ℕ)
      → maximum < rounds
      → (r : Result RpcTransportError (ℕ × Bytes)) × (read_bounded_response read rounds response
            maximum
          ≡ some r)
        × IsWhole response maximum r
  unfolding read_bounded_response
  read_bounded_response-some rounds response maximum enough =
      let coded = any is_transfer_encoding response.headers in
      let announced = announced_length response.headers in
      let checks =
        reject coded unsupported_transfer_encoding >> check_announced announced maximum in
      elim (Result-cases checks) [
        | inl (e, failed) ↦ (err e, rw failed refl, tt)
        | inr (inr out) ↦ absurd (checks-ne-panic coded announced maximum out)
        | inr (inl (checked, passed)) ↦
            let (r, e, bounded) =
              read_loop-some rounds maximum [] response.connection (omega arith)
                (omega (arith, enough)) in
            let plain = reject-ok coded unsupported_transfer_encoding (>>-ok _ _ passed).0 in
            (
              with_status read response.status_code announced r,
              rw (passed, e) refl,
              with_status-IsWhole response maximum r bounded plain,
            )
      ]
