-- ===== src/Classifiers/Envelope.antt =====
-- src/classifiers.rs: the inscription envelope in a script, and the marker looked for in its body.
use mempool_atlas.Prelude.{
  ℕ, Bool, true, false, not, ◌&&◌, ◌||◌, Option, none, some, List, [], ◌∷◌, ◌++◌, Bytes, bytes_eq,
  length, drop, is_empty, retain, ◌==◌, if◌then◌else◌, ◌>>=◌, take,
}
use mempool_atlas.Bitcoin.{Bitcoin, Instruction, push_bytes, op}
use mempool_atlas.Bip110.ScriptScan.{op_if}
use mempool_atlas.Classifiers.Multisig.{decoded_instructions}

-- `"p":"brc-20"`
abbrev pub brc20_protocol_marker : Bytes
brc20_protocol_marker =
    0x22 ∷ 0x70 ∷ 0x22 ∷ 0x3a ∷ 0x22 ∷ 0x62 ∷ 0x72 ∷ 0x63 ∷ 0x2d ∷ 0x32 ∷ 0x30 ∷ 0x22 ∷ []

-- `ord`
abbrev pub ord_protocol_id : Bytes
ord_protocol_id = 0x6f ∷ 0x72 ∷ 0x64 ∷ []

abbrev pub op_endif : ℕ
op_endif = 0x68

-- `u8::is_ascii_whitespace`
abbrev pub is_ascii_whitespace : ℕ → Bool
is_ascii_whitespace b = b == 32 || b == 9 || b == 10 || b == 12 || b == 13

pub record OrdEnvelope : Type 0 where
  pub body_window : Bytes
  pub brc20_marker : Bool

abbrev pub default_envelope : OrdEnvelope
default_envelope = record { body_window = []; brc20_marker = false }

abbrev pub slid : Bytes → ℕ → Bytes
slid window byte =
    (if length window == length brc20_protocol_marker then drop 1 window else window) ++ byte ∷ []

-- One round of the loop, on a byte that is not whitespace.
unfoldable pub push_byte : OrdEnvelope → ℕ → OrdEnvelope
push_byte envelope byte = record {
  body_window = slid envelope.body_window byte;
  brc20_marker =
      bytes_eq (slid envelope.body_window byte) brc20_protocol_marker || envelope.brc20_marker;
}

unfoldable pub push_bytes_of : OrdEnvelope → Bytes → OrdEnvelope
unfolding push_byte
push_bytes_of envelope [] = envelope
push_bytes_of envelope (byte ∷ bytes) = push_bytes_of (push_byte envelope byte) bytes

unfoldable pub push_body : OrdEnvelope → Bytes → OrdEnvelope
unfolding push_bytes_of
push_body envelope bytes = push_bytes_of envelope (retain (λ b. not (is_ascii_whitespace b)) bytes)

-- The window of three that opens an envelope.
abbrev pub opens : Instruction → Instruction → Instruction → Bool
opens (push_bytes a) (op o) (push_bytes b) =
    is_empty a && (o == op_if && bytes_eq b ord_protocol_id)
opens _ _ _ = false

-- What follows the first opening.
unfoldable pub after_opening : List Instruction → Option (List Instruction)
after_opening (a ∷ b ∷ c ∷ rest) =
    let later = after_opening (b ∷ c ∷ rest) in if opens a b c then some rest else later
after_opening _ = none

-- The loop behind the opening: fields come in pairs until an empty push starts the body.
unfoldable pub read_body : OrdEnvelope → Bool → List Instruction → OrdEnvelope
unfolding push_body
read_body envelope in_body [] = envelope
read_body envelope in_body (op opcode ∷ rest) = envelope
read_body envelope true (push_bytes bytes ∷ rest) = read_body (push_body envelope bytes) true rest
read_body envelope false (push_bytes [] ∷ rest) = read_body envelope true rest
read_body envelope false (push_bytes (b ∷ bs) ∷ push_bytes value ∷ rest) =
    read_body envelope false rest
read_body envelope false (push_bytes (b ∷ bs) ∷ rest) = envelope

-- `windows(marker.len()).any(|window| window == marker)`, for a marker that is not empty.
unfoldable pub contains_marker : Bytes → Bytes → Bool
contains_marker marker [] = false
contains_marker marker (b ∷ bs) =
    let later = contains_marker marker bs in
    bytes_eq (take (length marker) (b ∷ bs)) marker || later

unfoldable pub parse_ord_envelope : Bitcoin → Bytes → Option OrdEnvelope
unfolding after_opening read_body
parse_ord_envelope bitcoin script = do
  instructions ← decoded_instructions bitcoin script
  rest ← after_opening instructions
  some (read_body default_envelope false rest)
