-- ===== src/Classifiers/MultisigShape.antt =====
-- Which scripts are bare multisig.
use mempool_atlas.Prelude.{
  ℕ, ◌+◌, ◌≤◌, ◌≡◌, refl, sym, ◌∙◌, ap, ◌↔◌, inl, inr, Bool, true, false, ◌&&◌, none, some, List,
  [], ◌∷◌, ◌++◌, map, Bytes, Option-cases, append_assoc, subst, length, split_last, none_left,
  last_is, split_last-LastView, traverse, leb, ◌==◌, ==_iff, arith, >>=-eq-some, eq_of_some,
}
use mempool_atlas.Bitcoin.{Bitcoin, Instruction, Item, decoded, malformed, push_bytes, op}
use mempool_atlas.Classifiers.Multisig.{
  instruction_of, pushnum, as_op, as_push, is_op, then_some, multisig_of, decoded_instructions,
  parse_bare_multisig, op_checkmultisig,
}

-- `OP_m <key> … <key> OP_n OP_CHECKMULTISIG`
abbrev pub multisig_script : ℕ → List Bytes → List Instruction
multisig_script required keys =
    op (required + 0x50) ∷ map push_bytes keys ++ (op (length keys + 0x50) ∷ op 0xae ∷ [])

abbrev pub IsMultisig : ℕ → List Bytes → Type 0
IsMultisig required keys = (1 ≤ required) × (required ≤ length keys) × (length keys ≤ 16)

none-ne-some : {A : Type 0} {a : A} → none ≡ some a → ⊥
none-ne-some h = cc

split_last-append : {A : Type 0} (xs : List A) (x : A) → split_last (xs ++ x ∷ []) ≡ some (xs, x)
split_last-append [] x = refl
split_last-append (y ∷ ys) x = rw (split_last-append ys x) refl

traverse-as_push : (keys : List Bytes) → traverse as_push (map push_bytes keys) ≡ some keys
traverse-as_push [] = refl
traverse-as_push (k ∷ ks) = rw (traverse-as_push ks) refl

as_push-traverse :
    (instructions : List Instruction) (keys : List Bytes)
    → traverse as_push instructions ≡ some keys
    → instructions ≡ map push_bytes keys
as_push-traverse [] keys h = cc
as_push-traverse (op o ∷ is) keys h = cc
as_push-traverse (push_bytes b ∷ is) keys h = elim (Option-cases (traverse as_push is)) [
  | inl n ↦ absurd (none-ne-some (rw n at h))
  | inr (ks, e) ↦
      ap (◌∷◌ (push_bytes b)) (as_push-traverse is ks e)
      ∙ ap (map push_bytes) (eq_of_some (rw e at h))
]

split_last-eq :
    {A : Type 0} (xs front : List A) (x : A)
    → split_last xs ≡ some (front, x)
    → xs ≡ front ++ x ∷ []
split_last-eq xs front x h = elim (split_last-LastView xs) [
  | none_left e p ↦ absurd (none-ne-some (sym e ∙ h))
  | last_is f y e p ↦ let q = eq_of_some (sym e ∙ h) in p ∙ ap (λ r. r.0 ++ r.1 ∷ []) q
]

is_op-eq : (o : ℕ) (i : Instruction) → is_op o i ≡ true → i ≡ op o
is_op-eq o (push_bytes b) h = cc
is_op-eq o (op x) h = ap op ((==_iff x o).0 h)

as_op-eq : (o : ℕ) (i : Instruction) → as_op i ≡ some o → i ≡ op o
as_op-eq o (push_bytes b) h = cc
as_op-eq o (op x) h = ap op (eq_of_some h)

pushnum_iff : (o n : ℕ) → (pushnum o ≡ some n) ↔ ((o ≡ n + 0x50) × (1 ≤ n) × (n ≤ 16))
unfolding pushnum
pushnum_iff o n = ground arith

then_some-eq : {A : Type 0} (b : Bool) (x y : A) → then_some b x ≡ some y → (b ≡ true) × (x ≡ y)
then_some-eq true x y h = (refl, eq_of_some h)
then_some-eq false x y h = cc

counts :
    (total n required : ℕ)
    → (total == n && (leb 1 required && leb required total)) ≡ true
    → (total ≡ n) × (1 ≤ required) × (required ≤ n)
counts total n required h = ground arith

parts-script :
    (o required total opcode : ℕ) (is head ks : List Instruction) (last tail : Instruction)
    (found : List Bytes)
    → o ≡ required + 0x50
    → is ≡ head ++ last ∷ []
    → last ≡ op op_checkmultisig
    → head ≡ ks ++ tail ∷ []
    → tail ≡ op opcode
    → opcode ≡ total + 0x50
    → ks ≡ map push_bytes found
    → total ≡ length found
    → op o ∷ is ≡ multisig_script required found
parts-script o required total opcode is head ks last tail found a b c d e f g h =
    rw (a, b, d, c, e, f, g, h)
      (ap (◌∷◌ (op (required + 0x50))) (
        append_assoc (map push_bytes found) (op (length found + 0x50) ∷ [])
          (op op_checkmultisig ∷ [])))

multisig_of-shape :
    (is : List Instruction) (m : ℕ) (keys : List Bytes)
    → multisig_of is ≡ some (m, keys)
    → (is ≡ multisig_script m keys) × IsMultisig m keys
unfolding multisig_of
multisig_of-shape [] m keys h = cc
multisig_of-shape (push_bytes b ∷ is) m keys h = cc
multisig_of-shape (op o ∷ is) m keys h =
    let (required, p, h1) = >>=-eq-some (pushnum o) _ h in
    let ((head, last), q, h2) = >>=-eq-some (split_last is) _ h1 in
    let (t, r, h3) = >>=-eq-some (then_some (is_op op_checkmultisig last) true) _ h2 in
    let ((ks, tail), u, h4) = >>=-eq-some (split_last head) _ h3 in
    let (total_opcode, v, h5) = >>=-eq-some (as_op tail) _ h4 in
    let (total, w, h6) = >>=-eq-some (pushnum total_opcode) _ h5 in
    let (found, x, h7) = >>=-eq-some (traverse as_push ks) _ h6 in
    let (y, z) = then_some-eq _ (required, found) (m, keys) h7 in
    let c = counts total (length found) required y in
    let (po, p1, p2) = (pushnum_iff o required).0 p in
    let (wo, w1, w2) = (pushnum_iff total_opcode total).0 w in
    subst (λ r. (op o ∷ is ≡ multisig_script r.0 r.1) × IsMultisig r.0 r.1) z
      (
        parts-script o required total total_opcode is head ks last tail found po
            (split_last-eq is head last q)
            (is_op-eq op_checkmultisig last (then_some-eq _ true t r).0)
            (split_last-eq head ks tail u) (as_op-eq total_opcode tail v) wo
            (as_push-traverse ks found x) c.0,
        (c.1, c.2, omega (arith, c.0, w2)),
      )

shape-multisig_of :
    (m : ℕ) (keys : List Bytes)
    → IsMultisig m keys
    → multisig_of (multisig_script m keys) ≡ some (m, keys)
unfolding multisig_of
shape-multisig_of m keys (a, b, c) =
    rw
      (
        (pushnum_iff (m + 0x50) m).1 (refl, a, omega (arith, b, c)),
        sym (
            append_assoc (map push_bytes keys) (op (length keys + 0x50) ∷ [])
              (op op_checkmultisig ∷ [])),
        split_last-append (map push_bytes keys ++ op (length keys + 0x50) ∷ [])
            (op op_checkmultisig),
        split_last-append (map push_bytes keys) (op (length keys + 0x50)),
        (pushnum_iff (length keys + 0x50) (length keys)).1 (refl, omega (arith, a, b), c),
        traverse-as_push keys,
      )
      (ground arith)

-- The items of a script are these instructions, and none of them is malformed.
abbrev pub DecodesTo : List Item → List Instruction → Type 0
DecodesTo [] [] = Unit
DecodesTo (decoded position i ∷ items) (j ∷ is) = (i ≡ j) × DecodesTo items is
DecodesTo _ _ = ⊥

traverse-DecodesTo :
    (items : List Item) (is : List Instruction)
    → traverse instruction_of items ≡ some is
    → DecodesTo items is
traverse-DecodesTo [] [] h = tt
traverse-DecodesTo [] (j ∷ is) h = cc
traverse-DecodesTo (malformed ∷ items) is h = cc
traverse-DecodesTo (decoded position i ∷ items) is h =
    elim (Option-cases (traverse instruction_of items)) [
      | inl n ↦ absurd (none-ne-some (rw n at h))
      | inr (rest, e) ↦
          let same : i ∷ rest ≡ is = eq_of_some (rw e at h) in
          subst (DecodesTo (decoded position i ∷ items)) same
            (refl, traverse-DecodesTo items rest e)
    ]

DecodesTo-traverse :
    (items : List Item) (is : List Instruction)
    → DecodesTo items is
    → traverse instruction_of items ≡ some is
DecodesTo-traverse [] [] h = refl
DecodesTo-traverse [] (j ∷ is) h = absurd h
DecodesTo-traverse (malformed ∷ items) is h = absurd h
DecodesTo-traverse (decoded position i ∷ items) [] h = absurd h
DecodesTo-traverse (decoded position i ∷ items) (j ∷ is) (e, h) =
    rw (DecodesTo-traverse items is h, e) refl

-- A script is parsed as bare multisig exactly when all of it decodes, to a small number of required
-- keys, the pushes of the keys, their number and the opcode that checks them, with at least one key
-- required and at most 16 keys; the keys are returned as they were pushed.
pub parse_bare_multisig_iff :
    (bitcoin : Bitcoin) (script : Bytes) (m : ℕ) (keys : List Bytes)
    → (parse_bare_multisig bitcoin script ≡ some (m, keys)) ↔ (
        DecodesTo (bitcoin.instruction_indices script) (multisig_script m keys) × IsMultisig m keys)
unfolding parse_bare_multisig
parse_bare_multisig_iff bitcoin script m keys = (
  λ h. elim (Option-cases (decoded_instructions bitcoin script)) [
    | inl n ↦ absurd (none-ne-some (rw n at h))
    | inr (instructions, d) ↦
        let (shape, is_multisig) = multisig_of-shape instructions m keys (rw d at h) in
        (
          traverse-DecodesTo (bitcoin.instruction_indices script) (multisig_script m keys)
              (d ∙ ap some shape),
          is_multisig,
        )
  ],
  λ (decodes, is_multisig).
      let d : decoded_instructions bitcoin script ≡ some (multisig_script m keys) =
        DecodesTo-traverse (bitcoin.instruction_indices script) (multisig_script m keys) decodes in
      rw d (shape-multisig_of m keys is_multisig),
)
