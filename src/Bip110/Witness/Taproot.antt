-- ===== src/Bip110/Witness/Taproot.antt =====
-- The parts of a Taproot witness stack.
use mathlib.Core.Bool.{false≢true}
use mempool_atlas.Prelude.{
  ap, ◌≤◌, ◌⊎◌, Bool, ◌≡◌, refl, sym, ◌∙◌, subst, append-nil, ◌≢◌, true, false, inl, inr, ◌&&◌,
  Option, none, some, List, [], ◌∷◌, ◌++◌, append_assoc, Bytes, length, LastView, none_left,
  last_is, split_last-LastView, ==_iff, leb, ◌==◌, arith, Bool-cases,
}
use mempool_atlas.Bip110.Witness.{
  TaprootScriptPath, TaprootSpend, is_annex, spend_of_stack, decompose_taproot,
}

-- The annex as the elements that it adds behind the rest of the stack.
abbrev pub annex_items : Option Bytes → List Bytes
annex_items none = []
annex_items (some annex) = annex ∷ []

-- Whether an element has the form of an annex: its first byte is 0x50.
abbrev pub is_tagged : Bytes → Bool
is_tagged [] = false
is_tagged (b ∷ _) = b == 0x50

-- A stack has no annex if it has fewer than two elements, or if its last has another form.
abbrev pub HasNoAnnex : List Bytes → Type 0
HasNoAnnex items =
    (length items ≤ 1)
    ⊎ ((front : List Bytes) × (last : Bytes) × (items ≡ front ++ last ∷ [])
        × (is_tagged last ≡ false))

abbrev pub IsAnnexOf : List Bytes → Option Bytes → Type 0
IsAnnexOf items none = HasNoAnnex items
IsAnnexOf items (some annex) = (payload : Bytes) × (annex ≡ 0x50 ∷ payload)

-- How the parts make up the stack that was taken apart.
abbrev pub Decomposes : List Bytes → TaprootSpend → Type 0
Decomposes items TaprootSpend.empty = items ≡ []
Decomposes items (TaprootSpend.key_path annex) =
    (signature : Bytes) × (items ≡ signature ∷ annex_items annex) × IsAnnexOf items annex
Decomposes items (TaprootSpend.script_path sp) =
    (items ≡ sp.args ++ (sp.script ∷ sp.control ∷ annex_items sp.annex)) × IsAnnexOf items sp.annex

-- The stack is taken apart with no index out of range.
pub data Decomposed (items : List Bytes) (r : Option TaprootSpend) : Type 0 where
  parts : (spend : TaprootSpend) → r ≡ some spend → Decomposes items spend → Decomposed items r

rejoin :
    (xs front args rest : List Bytes) (c s : Bytes)
    → xs ≡ front ++ c ∷ []
    → front ≡ args ++ s ∷ []
    → xs ++ rest ≡ args ++ (s ∷ c ∷ rest)
rejoin xs front args rest c s p q = rw (p, q) (simp append_assoc)

abbrev path_of : List Bytes → Bytes → Bytes → Option Bytes → TaprootScriptPath
path_of args script control annex = record {
  args = args;
  script = script;
  control = control;
  annex = annex;
}

spend_of_long-Decomposed :
    (stack : List Bytes) (annex : Option Bytes)
    → (length stack == 1) ≡ false
    → stack ≢ []
    → IsAnnexOf (stack ++ annex_items annex) annex
    → LastView stack
    → Decomposed (stack ++ annex_items annex) (spend_of_stack stack annex)
unfolding spend_of_stack
spend_of_long-Decomposed stack annex l h tag (none_left e p) = absurd (h p)
spend_of_long-Decomposed stack annex l h tag (last_is front control e p) =
    elim (split_last-LastView front) [
      | none_left f q ↦ absurd (false≢true (sym l ∙ rw (p, q)))
      | last_is args script f q ↦
          parts (TaprootSpend.script_path (path_of args script control annex))
            (rw (l, e, spend_of_stack) (rw f))
            (rejoin stack front args (annex_items annex) control script p q, tag)
    ]

key_path-Decomposes :
    (stack : List Bytes) (annex : Option Bytes)
    → (length stack == 1) ≡ true
    → IsAnnexOf (stack ++ annex_items annex) annex
    → Decomposes (stack ++ annex_items annex) (TaprootSpend.key_path annex)
key_path-Decomposes [] annex l tag = cc
key_path-Decomposes (x ∷ []) annex l tag = (x, refl, tag)
key_path-Decomposes (x ∷ y ∷ ys) annex l tag = absurd (omega (arith, (==_iff _ 1).0 l))

spend_of_stack-Decomposed :
    (stack : List Bytes) (annex : Option Bytes)
    → stack ≢ []
    → IsAnnexOf (stack ++ annex_items annex) annex
    → Decomposed (stack ++ annex_items annex) (spend_of_stack stack annex)
unfolding spend_of_stack
spend_of_stack-Decomposed stack annex h tag = elim (Bool-cases (length stack == 1)) [
  | inl t ↦ parts (TaprootSpend.key_path annex) (rw t) (key_path-Decomposes stack annex t tag)
  | inr t ↦ spend_of_long-Decomposed stack annex t h tag (split_last-LastView stack)
]

append-ne-nil : (xs : List Bytes) (x : Bytes) → xs ++ x ∷ [] ≢ []
append-ne-nil [] x e = cc
append-ne-nil (y ∷ ys) x e = cc

short : (x : Bytes) → leb 2 (length (x ∷ [])) ≡ true → ⊥
short x h = cc

front-ne-nil :
    (items front : List Bytes) (last : Bytes)
    → items ≡ front ++ last ∷ []
    → leb 2 (length items) ≡ true
    → front ≢ []
front-ne-nil items front last p h q = short last (rw (p, q) at h)

is_annex-tagged :
    (last : Bytes) → is_annex last ≡ true → (payload : Bytes) × (last ≡ 0x50 ∷ payload)
is_annex-tagged [] h = cc
is_annex-tagged (b ∷ payload) h = (payload, ap (λ x. x ∷ payload) ((==_iff b 0x50).0 h))

no_annex :
    (items front : List Bytes) (last : Bytes)
    → items ≡ front ++ last ∷ []
    → (leb 2 (length items) && is_annex last) ≡ false
    → HasNoAnnex items
no_annex items front [] e h = inr (front, [], e, refl)
no_annex items front (b ∷ bs) e h = elim (Bool-cases (leb 2 (length items))) [
  | inl long ↦ inr (front, b ∷ bs, e, ground (arith, h, long))
  | inr short ↦ inl (ground (arith, short))
]

-- Every witness stack is taken apart with no index out of range: into nothing, or into the
-- signature and the annex, or into the arguments, the script, the control block and the annex.
-- Put together again, the parts are the stack. The annex is the last element, and there is one
-- exactly when there are two elements or more and the first byte of the last is 0x50.
pub decompose_taproot-Decomposed : (items : List Bytes) → Decomposed items (decompose_taproot items)
unfolding decompose_taproot
decompose_taproot-Decomposed items = elim (split_last-LastView items) [
  | none_left e p ↦ parts TaprootSpend.empty (rw (e, decompose_taproot)) p
  | last_is front last e p ↦ elim (Bool-cases (leb 2 (length items) && is_annex last)) [
    | inl t ↦
        rw (e, decompose_taproot)
          (rw t (
            subst (λ xs. Decomposed xs (spend_of_stack front (some last))) (sym p)
              (spend_of_stack-Decomposed front (some last)
                (front-ne-nil items front last p (ground arith))
                (is_annex-tagged last (ground arith)))))
    | inr t ↦
        rw (e, decompose_taproot)
          (rw t (
            subst (λ xs. Decomposed xs (spend_of_stack items none)) (append-nil items)
              (spend_of_stack-Decomposed items none (λ q. append-ne-nil front last (sym p ∙ q))
                (subst HasNoAnnex (sym (append-nil items)) (no_annex items front last p t)))))
  ]
]
