-- ===== src/Classifiers/MarkerScan.antt =====
-- The sliding window finds the marker exactly where the stream has it.
use mathlib.Core.Bool.{false≢true}
use mempool_atlas.Prelude.{
  ℕ, zero, suc, ◌-◌, ◌≤◌, ◌<◌, ◌≡◌, refl, sym, ◌∙◌, ap, subst, ◌↔◌, ◌⊎◌, inl, inr, Bool, true,
  false, not, ◌||◌, List, [], ◌∷◌, ◌++◌, append_assoc, append-nil, Bytes, bytes_eq, bytes_eq_sound,
  bytes_eq_refl, length, length-append, take, drop, take-append-drop, drop-append, none_left,
  last_is, split_last-LastView, retain, ◌==◌, ==_iff, arith, Bool-cases,
}
use mempool_atlas.Classifiers.Envelope.{
  OrdEnvelope, default_envelope, brc20_protocol_marker, is_ascii_whitespace, slid, push_byte,
  push_bytes_of, push_body,
}

-- The marker stands somewhere in the stream.
abbrev pub Occurs : Bytes → Bytes → Type 0
Occurs marker stream = (before : Bytes) × (after : Bytes) × (stream ≡ before ++ (marker ++ after))

-- The last 12 bytes, or all of a shorter stream.
abbrev last12 : Bytes → Bytes
last12 s = drop (length s - 12) s

drop-snoc : (n : ℕ) (s : Bytes) (b : ℕ) → n ≤ length s → drop n (s ++ b ∷ []) ≡ drop n s ++ b ∷ []
drop-snoc zero s b h = refl
drop-snoc (suc n) [] b h = absurd (omega (arith, h))
drop-snoc (suc n) (x ∷ s) b h = drop-snoc n s b (omega (arith, h))

drop-one : (n : ℕ) (s : Bytes) → drop 1 (drop n s) ≡ drop (suc n) s
drop-one zero [] = refl
drop-one zero (x ∷ s) = refl
drop-one (suc n) [] = refl
drop-one (suc n) (x ∷ s) = drop-one n s

length-drop : (n : ℕ) (s : Bytes) → length (drop n s) ≡ length s - n
length-drop zero s = omega arith
length-drop (suc n) [] = omega arith
length-drop (suc n) (x ∷ s) = omega (arith, length-drop n s)

length-snoc : (s : Bytes) (b : ℕ) → length (s ++ b ∷ []) ≡ suc (length s)
length-snoc s b = omega (arith, length-append s (b ∷ []))

slid-last12 : (s : Bytes) (b : ℕ) → slid (last12 s) b ≡ last12 (s ++ b ∷ [])
slid-last12 s b = elim (Bool-cases (length (last12 s) == 12)) [
  | inl t ↦
      let full = (==_iff (length (last12 s)) 12).0 t in
      let len = length-drop (length s - 12) s in
      let n : suc (length s - 12) ≡ length (s ++ b ∷ []) - 12 =
        omega (arith, full, len, length-snoc s b) in
      rw t (
        ap (λ w. w ++ b ∷ []) (drop-one (length s - 12) s)
        ∙ sym (drop-snoc (suc (length s - 12)) s b (omega (arith, full, len)))
        ∙ ap (λ k. drop k (s ++ b ∷ [])) n)
  | inr f ↦
      let short : length s < 12 = ground (arith, length-drop (length s - 12) s) in
      let n : length s - 12 ≡ length (s ++ b ∷ []) - 12 = omega (arith, short, length-snoc s b) in
      rw f (sym (drop-snoc (length s - 12) s b (omega arith)) ∙ ap (λ k. drop k (s ++ b ∷ [])) n)
]

-- `init` and `last` of a list that ends in `b`.
init_of : Bytes → Bytes
init_of [] = []
init_of (x ∷ []) = []
init_of (x ∷ y ∷ ys) = x ∷ init_of (y ∷ ys)

init_of-snoc : (s : Bytes) (b : ℕ) → init_of (s ++ b ∷ []) ≡ s
unfolding init_of
init_of-snoc [] b = refl
init_of-snoc (x ∷ []) b = refl
init_of-snoc (x ∷ y ∷ ys) b = ap (◌∷◌ x) (init_of-snoc (y ∷ ys) b)

snoc-injective : (s t : Bytes) (a b : ℕ) → s ++ a ∷ [] ≡ t ++ b ∷ [] → s ≡ t
snoc-injective s t a b h = sym (init_of-snoc s a) ∙ ap init_of h ∙ init_of-snoc t b

Occurs-snoc : (m s : Bytes) (b : ℕ) → Occurs m s → Occurs m (s ++ b ∷ [])
Occurs-snoc m s b (before, after, e) = (
  before,
  after ++ b ∷ [],
  ap (λ x. x ++ b ∷ []) e
      ∙ append_assoc before (m ++ after) (b ∷ [])
      ∙ ap (λ x. before ++ x) (append_assoc m after (b ∷ [])),
)

-- At the end, or before.
snoc-Occurs :
    (m s : Bytes) (b : ℕ)
    → Occurs m (s ++ b ∷ [])
    → Occurs m s ⊎ ((before : Bytes) × (s ++ b ∷ [] ≡ before ++ m))
snoc-Occurs m s b (before, after, e) = elim (split_last-LastView after) [
  | none_left n p ↦
      inr (before, e ∙ ap (λ x. before ++ (m ++ x)) p ∙ ap (λ x. before ++ x) (append-nil m))
  | last_is front x n p ↦ inl (
    before,
    front,
    snoc-injective s (before ++ (m ++ front)) b x (
        e
        ∙ ap (λ y. before ++ (m ++ y)) p
        ∙ ap (λ y. before ++ y) (sym (append_assoc m front (x ∷ [])))
        ∙ sym (append_assoc before (m ++ front) (x ∷ []))),
  )
]

ends-last12 :
    (s before : Bytes) → s ≡ before ++ brc20_protocol_marker → last12 s ≡ brc20_protocol_marker
ends-last12 s before e =
    let n : length s - 12 ≡ length before =
      omega (arith, ap length e, length-append before brc20_protocol_marker) in
    ap (λ k. drop k s) n ∙ ap (drop (length before)) e ∙ drop-append before brc20_protocol_marker

last12-Occurs : (s : Bytes) → last12 s ≡ brc20_protocol_marker → Occurs brc20_protocol_marker s
last12-Occurs s e = (
  take (length s - 12) s,
  [],
  sym (take-append-drop (length s - 12) s)
      ∙ ap (λ x. take (length s - 12) s ++ x) (e ∙ sym (append-nil brc20_protocol_marker)),
)

-- What the envelope knows of the stream so far.
record Scanned (s : Bytes) (e : OrdEnvelope) : Type 0 where
  window : e.body_window ≡ last12 s
  found : (e.brc20_marker ≡ true) ↔ Occurs brc20_protocol_marker s

orb_iff : (a b : Bool) → ((a || b) ≡ true) ↔ ((a ≡ true) ⊎ (b ≡ true))
orb_iff a b = ground arith

push_byte-Scanned :
    (s : Bytes) (e : OrdEnvelope) (b : ℕ) → Scanned s e → Scanned (s ++ b ∷ []) (push_byte e b)
unfolding push_byte
push_byte-Scanned s e b k =
    let w : slid e.body_window b ≡ last12 (s ++ b ∷ []) =
      ap (λ x. slid x b) k.window ∙ slid-last12 s b in
    record {
      window = w;
      found = (
        λ h.
            elim ((orb_iff (bytes_eq (slid e.body_window b) brc20_protocol_marker) e.brc20_marker).0
              h) [
                | inl t ↦ last12-Occurs (s ++ b ∷ []) (sym w ∙ bytes_eq_sound _ _ t)
                | inr t ↦ Occurs-snoc brc20_protocol_marker s b (k.found.0 t)
              ],
        λ o.
            (orb_iff (bytes_eq (slid e.body_window b) brc20_protocol_marker) e.brc20_marker).1
              (elim (snoc-Occurs brc20_protocol_marker s b o) [
                | inl p ↦ inr (k.found.1 p)
                | inr (before, p) ↦ inl (
                    rw (w ∙ ends-last12 (s ++ b ∷ []) before p)
                      (bytes_eq_refl brc20_protocol_marker))
              ]),
      );
    }

push_bytes_of-Scanned :
    (bs s : Bytes) (e : OrdEnvelope) → Scanned s e → Scanned (s ++ bs) (push_bytes_of e bs)
unfolding push_bytes_of
push_bytes_of-Scanned [] s e k = subst (λ x. Scanned x e) (sym (append-nil s)) k
push_bytes_of-Scanned (b ∷ bs) s e k =
    subst (λ x. Scanned x (push_bytes_of (push_byte e b) bs)) (append_assoc s (b ∷ []) bs)
      (push_bytes_of-Scanned bs (s ++ b ∷ []) (push_byte e b) (push_byte-Scanned s e b k))

-- The bytes of all bodies that are no whitespace.
abbrev pub visible : List Bytes → Bytes
visible [] = []
visible (body ∷ bodies) = retain (λ b. not (is_ascii_whitespace b)) body ++ visible bodies

abbrev pub push_bodies : OrdEnvelope → List Bytes → OrdEnvelope
push_bodies e [] = e
push_bodies e (body ∷ bodies) = push_bodies (push_body e body) bodies

push_bodies-Scanned :
    (bodies : List Bytes) (s : Bytes) (e : OrdEnvelope)
    → Scanned s e
    → Scanned (s ++ visible bodies) (push_bodies e bodies)
unfolding push_body
push_bodies-Scanned [] s e k = subst (λ x. Scanned x e) (sym (append-nil s)) k
push_bodies-Scanned (body ∷ bodies) s e k =
    let shown = retain (λ b. not (is_ascii_whitespace b)) body in
    subst (λ x. Scanned x (push_bodies (push_body e body) bodies))
      (append_assoc s shown (visible bodies))
      (push_bodies-Scanned bodies (s ++ shown) (push_body e body)
        (push_bytes_of-Scanned shown s e k))

marker-absent : Occurs brc20_protocol_marker [] → false ≡ true
marker-absent (before, after, e) = absurd (
    omega (
      arith,
      ap length e,
      length-append before (brc20_protocol_marker ++ after),
      length-append brc20_protocol_marker after,
    ))

-- After any bodies, the envelope has seen the BRC-20 marker exactly when it stands somewhere in
-- their joined bytes without the whitespace, also across two of them. The window of 12 bytes loses
-- nothing.
pub push_bodies-Occurs :
    (bodies : List Bytes)
    → ((push_bodies default_envelope bodies).brc20_marker ≡ true)
      ↔ Occurs brc20_protocol_marker (visible bodies)
push_bodies-Occurs bodies =
    (push_bodies-Scanned bodies [] default_envelope
      (record { window = refl; found = (λ h. absurd (false≢true h), marker-absent) })).found
