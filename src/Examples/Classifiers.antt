-- ===== src/Examples/Classifiers.antt =====
-- The theorems about the classifiers at concrete inputs, and published ARC4 vectors.
use mempool_atlas.Prelude.{◌≡◌, refl, ◌↔◌, true, some, List, [], ◌∷◌, Bytes}
use mempool_atlas.Classifiers.Arc4.{apply}
use mempool_atlas.Classifiers.Arc4Reference.{arc4_reference, apply-arc4_reference}
use mempool_atlas.Classifiers.Multisig.{parse_bare_multisig, decoded_instructions}
use mempool_atlas.Classifiers.MultisigShape.{
  DecodesTo, multisig_script, IsMultisig, parse_bare_multisig_iff,
}
use mempool_atlas.Classifiers.Envelope.{default_envelope, brc20_protocol_marker}
use mempool_atlas.Classifiers.MarkerScan.{Occurs, visible, push_bodies, push_bodies-Occurs}
use mempool_atlas.Examples.{sample}

-- "Wiki" and "pedia"
abbrev wiki : Bytes
wiki = 0x57 ∷ 0x69 ∷ 0x6b ∷ 0x69 ∷ []

abbrev pedia : Bytes
pedia = 0x70 ∷ 0x65 ∷ 0x64 ∷ 0x69 ∷ 0x61 ∷ []

wiki_vector : apply wiki pedia ≡ 0x10 ∷ 0x21 ∷ 0xbf ∷ 0x04 ∷ 0x20 ∷ []
unfolding apply
wiki_vector = refl

apply-arc4_reference_example :
    (apply wiki pedia ≡ arc4_reference wiki pedia) × (apply wiki (apply wiki pedia) ≡ pedia)
apply-arc4_reference_example = apply-arc4_reference wiki pedia

-- One of two keys, of two bytes each.
abbrev carrier : Bytes
carrier = 0x51 ∷ 2 ∷ 7 ∷ 8 ∷ 2 ∷ 9 ∷ 9 ∷ 0x52 ∷ 0xae ∷ []

abbrev keys : List Bytes
keys = (7 ∷ 8 ∷ []) ∷ (9 ∷ 9 ∷ []) ∷ []

carrier-decoded : decoded_instructions sample carrier ≡ some (multisig_script 1 keys)
unfolding decoded_instructions
carrier-decoded = refl

parse_bare_multisig_iff_example :
    (parse_bare_multisig sample carrier ≡ some (1, keys))
    ↔ (DecodesTo (sample.instruction_indices carrier) (multisig_script 1 keys) × IsMultisig 1 keys)
parse_bare_multisig_iff_example = parse_bare_multisig_iff sample carrier 1 keys

-- The marker with a space in it, over two bodies.
abbrev bodies : List Bytes
bodies =
    (0x7b ∷ 0x22 ∷ 0x70 ∷ 0x22 ∷ 0x3a ∷ 0x20 ∷ 0x22 ∷ 0x62 ∷ [])
    ∷ (0x72 ∷ 0x63 ∷ 0x2d ∷ 0x32 ∷ 0x30 ∷ 0x22 ∷ 0x7d ∷ [])
    ∷ []

push_bodies-Occurs_example :
    ((push_bodies default_envelope bodies).brc20_marker ≡ true)
    ↔ Occurs brc20_protocol_marker (visible bodies)
push_bodies-Occurs_example = push_bodies-Occurs bodies
