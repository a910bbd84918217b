-- ===== src/Bip110/Rules/Outputs.antt =====
-- Rule 1: the outputs that are too large.
use mempool_atlas.Prelude.{
  ℕ, zero, suc, ◌+◌, ◌<◌, ◌≡◌, refl, sym, subst, ◌↔◌, inl, inr, some, List, [], ◌∷◌, Bytes, length,
  get_elem?, Contains, Contains-append, Contains-append_left, Contains-append_right, eq_of_some,
  ◌==◌, arith, if◌then◌else◌,
}
use mempool_atlas.Bitcoin.{TxOut, Transaction}
use mempool_atlas.Bip110.Context.{op_return, max_output_data_size, max_output_script_size}
use mempool_atlas.Bip110.Verdict.{Violation, output_script_too_large}
use mempool_atlas.Bip110.Rules.{output_size_match, output_sizes_from, output_size_violations}

-- The script of output `vout` starts with some opcode, and is longer than the limit that the
-- opcode selects; the violation states these numbers.
pub record TooLarge (vout : ℕ) (script : Bytes) (v : Violation) : Type 0 where
  pub opcode : ℕ
  pub rest : Bytes
  pub limit : ℕ
  pub starts : script ≡ opcode ∷ rest
  pub selects :
      limit ≡ (if opcode == op_return then max_output_data_size else max_output_script_size)
  pub exceeds : limit < length script
  pub states : v ≡ output_script_too_large vout (length script) (opcode == op_return) limit

match-TooLarge :
    (vout : ℕ) (script : Bytes) (v : Violation)
    → Contains v (output_size_match vout script)
    → TooLarge vout script v
unfolding output_size_match
match-TooLarge vout [] v h = absurd h
match-TooLarge vout (b ∷ bs) v h = record {
  opcode = b;
  rest = bs;
  limit = if b == op_return then max_output_data_size else max_output_script_size;
  starts = refl;
  selects = refl;
  exceeds = ground arith;
  states = ground arith;
}

TooLarge-match :
    (vout : ℕ) (script : Bytes) (v : Violation)
    → TooLarge vout script v
    → Contains v (output_size_match vout script)
unfolding output_size_match
TooLarge-match vout [] v t = absurd (nil t.starts)
  where
    nil : {b : ℕ} {bs : Bytes} → [] ≡ b ∷ bs → ⊥
    nil e = cc
TooLarge-match vout (b ∷ bs) v t =
    let s = t.starts in let l = t.selects in let x = t.exceeds in let y = t.states in ground arith

abbrev OutputTooLarge : ℕ → List TxOut → Violation → Type 0
OutputTooLarge vout outs v =
    (j : ℕ) × (out : TxOut) × (get_elem? outs j ≡ some out)
    × TooLarge (vout + j) out.script_pubkey v

here :
    (vout : ℕ) (out : TxOut) (outs : List TxOut) (v : Violation)
    → TooLarge vout out.script_pubkey v
    → OutputTooLarge vout (out ∷ outs) v
here vout out outs v t = (0, out, refl, subst (λ n. TooLarge n out.script_pubkey v) (omega arith) t)

there :
    (vout : ℕ) (out : TxOut) (outs : List TxOut) (v : Violation)
    → OutputTooLarge (vout + 1) outs v
    → OutputTooLarge vout (out ∷ outs) v
there vout out outs v (j, o, e, t) =
    (suc j, o, e, subst (λ n. TooLarge n o.script_pubkey v) (omega arith) t)

from-TooLarge :
    (vout : ℕ) (outs : List TxOut) (v : Violation)
    → Contains v (output_sizes_from vout outs)
    → OutputTooLarge vout outs v
unfolding output_sizes_from
from-TooLarge vout [] v h = absurd h
from-TooLarge vout (out ∷ outs) v h =
    elim (Contains-append v (output_size_match vout out.script_pubkey) _ h) [
      | inl l ↦ here vout out outs v (match-TooLarge vout out.script_pubkey v l)
      | inr r ↦ there vout out outs v (from-TooLarge (vout + 1) outs v r)
    ]

TooLarge-from :
    (vout : ℕ) (outs : List TxOut) (v : Violation)
    → OutputTooLarge vout outs v
    → Contains v (output_sizes_from vout outs)
unfolding output_sizes_from
TooLarge-from vout [] v (j, out, e, t) = cc
TooLarge-from vout (out ∷ outs) v (zero, o, e, t) = Contains-append_left v _ _ (
    TooLarge-match vout out.script_pubkey v (
      subst (λ x. TooLarge vout x.script_pubkey v) (sym (eq_of_some e))
        (subst (λ n. TooLarge n o.script_pubkey v) (omega arith) t)))
TooLarge-from vout (out ∷ outs) v (suc j, o, e, t) =
    Contains-append_right v (output_size_match vout out.script_pubkey) _ (
      TooLarge-from (vout + 1) outs v
        (j, o, e, subst (λ n. TooLarge n o.script_pubkey v) (omega arith) t))

-- Rule 1 reports exactly the outputs whose script is longer than its limit, 83 bytes behind an
-- OP_RETURN and 34 otherwise, each with its index, length and limit.
pub output_size_violations_iff :
    (tx : Transaction) (v : Violation)
    → Contains v (output_size_violations tx) ↔ (
        (j : ℕ) × (out : TxOut) × (get_elem? tx.output j ≡ some out)
        × TooLarge (0 + j) out.script_pubkey v)
unfolding output_size_violations
output_size_violations_iff tx v = (from-TooLarge 0 tx.output v, TooLarge-from 0 tx.output v)
