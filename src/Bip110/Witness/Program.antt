-- ===== src/Bip110/Witness/Program.antt =====
-- Which scripts are witness programs.
use mempool_atlas.Prelude.{
  ℕ, ◌+◌, ◌-◌, ◌≤◌, ◌≡◌, ◌↔◌, some, [], ◌∷◌, Bytes, length, ◌==◌, arith, if◌then◌else◌,
}
use mempool_atlas.Bip110.Witness.{WitnessProgram, parse_witness_program}

-- The opcode that stands for a witness version.
abbrev pub version_opcode : ℕ → ℕ
version_opcode version = if version == 0 then 0 else version + 0x50

-- The script of a witness program: the version, one push of the program, and nothing else.
abbrev pub encode_witness_program : WitnessProgram → Bytes
encode_witness_program wp = version_opcode wp.version ∷ length wp.program ∷ wp.program

abbrev pub IsWitnessProgram : WitnessProgram → Type 0
IsWitnessProgram wp = (wp.version ≤ 16) × (2 ≤ length wp.program) × (length wp.program ≤ 40)

abbrev version_of : ℕ → ℕ
version_of op = if op == 0 then 0 else op - 0x50

parsed :
    (op push : ℕ) (program : Bytes) (wp : WitnessProgram)
    → parse_witness_program (op ∷ push ∷ program) ≡ some wp
    → (op ≡ version_opcode wp.version)
      × (push ≡ length program)
      × (program ≡ wp.program)
      × (wp.version ≤ 16)
      × (2 ≤ length program)
      × (length program ≤ 40)
unfolding parse_witness_program
parsed op push program wp h = ground arith

parse-encode :
    (wp : WitnessProgram)
    → IsWitnessProgram wp
    → parse_witness_program (encode_witness_program wp) ≡ some wp
unfolding parse_witness_program
parse-encode wp v = ground arith

encode-parse :
    (bytes : Bytes) (wp : WitnessProgram)
    → parse_witness_program bytes ≡ some wp
    → (bytes ≡ encode_witness_program wp) × IsWitnessProgram wp
unfolding parse_witness_program
encode-parse [] wp h = cc
encode-parse (op ∷ []) wp h = cc
encode-parse (op ∷ push ∷ program) wp h =
    let p = parsed op push program wp h in (ground arith, ground arith)

-- A script is read as a witness program exactly when it is that program's encoding, with a version
-- of at most 16 and 2 to 40 bytes: what is read determines the script, and every such program is
-- read back.
pub parse_witness_program_iff :
    (bytes : Bytes) (wp : WitnessProgram)
    → (parse_witness_program bytes ≡ some wp)
      ↔ ((bytes ≡ encode_witness_program wp) × IsWitnessProgram wp)
parse_witness_program_iff bytes wp = (encode-parse bytes wp, λ p. rw p.0 (parse-encode wp p.1))
