-- ===== src/Bip110/Rules/Slots.antt =====
-- The accumulator arrays of the evaluation, as one list for each input-scoped rule.
use mempool_atlas.Prelude.{
  ℕ, ◌≡◌, refl, ap, sym, subst, ◌∙◌, fun_ext, Bool, true, false, ◌||◌, some, List, [], ◌∷◌, ◌++◌,
  append-nil, append_assoc, map, arith, All, Bool-cases, inl, inr, if◌then◌else◌,
}
use mempool_atlas.Bip110.Verdict.{
  RuleId, Violation, PrimaryViolation, Missing, rule_eq, output_script_too_large,
  witness_item_too_large, push_too_large, undefined_witness_version, undefined_tapleaf_version,
  taproot_annex_present, control_block_too_large, op_success_present,
}
use mempool_atlas.Bip110.Rules.{
  input_scoped, rule_slot, push_at, push_unknown_all, record_evidence, affected_rules, mark,
  push_affected,
}
use mempool_atlas.Bip110.Rules.Spec.{evidence_of, breaks}
use mempool_atlas.Bip110.ScriptRules.Proven.{Proves, AllProven}

-- The array whose slot for a rule holds the value of `f` at it.
abbrev pub slots {ℓ} : {A : Type ℓ} → (RuleId → A) → List A
slots f = map f input_scoped

-- A rule that is scoped to inputs, so that it has a slot.
abbrev pub IsInputScoped : RuleId → Type 0
IsInputScoped RuleId.output_size = ⊥
IsInputScoped _ = Unit

abbrev pub push_for : RuleId → Violation → (RuleId → List Violation) → RuleId → List Violation
push_for rule v f r = if rule_eq rule r then f r ++ v ∷ [] else f r

push_at-slots :
    (rule : RuleId) (v : Violation) (f : RuleId → List Violation)
    → IsInputScoped rule
    → (n : ℕ) × (rule_slot rule ≡ some n) × (push_at n v (slots f) ≡ slots (push_for rule v f))
unfolding rule_slot push_at
push_at-slots RuleId.output_size v f h = absurd h
push_at-slots RuleId.element_size v f h = (0, refl, refl)
push_at-slots RuleId.undefined_version v f h = (1, refl, refl)
push_at-slots RuleId.taproot_annex v f h = (2, refl, refl)
push_at-slots RuleId.control_block_size v f h = (3, refl, refl)
push_at-slots RuleId.op_success v f h = (4, refl, refl)
push_at-slots RuleId.tapscript_op_if v f h = (5, refl, refl)

mark-slots :
    (rule : RuleId) (b : RuleId → Bool)
    → IsInputScoped rule
    → (n : ℕ) × (rule_slot rule ≡ some n) × (mark n (slots b) ≡ slots (λ r. rule_eq rule r || b r))
unfolding rule_slot mark
mark-slots RuleId.output_size b h = absurd h
mark-slots RuleId.element_size b h = (0, refl, refl)
mark-slots RuleId.undefined_version b h = (1, refl, refl)
mark-slots RuleId.taproot_annex b h = (2, refl, refl)
mark-slots RuleId.control_block_size b h = (3, refl, refl)
mark-slots RuleId.op_success b h = (4, refl, refl)
mark-slots RuleId.tapscript_op_if b h = (5, refl, refl)

Proves-IsInputScoped :
    (i : ℕ) (rule : RuleId) (v : Violation) → Proves i rule v → IsInputScoped rule
Proves-IsInputScoped i rule (output_script_too_large _ _ _ _) h = absurd h
Proves-IsInputScoped i rule (taproot_annex_present _ _) h = subst IsInputScoped (sym h.0) tt
Proves-IsInputScoped i rule (witness_item_too_large _ _ _ _) h = subst IsInputScoped (sym h.0) tt
Proves-IsInputScoped i rule (push_too_large _ _ _ _ _) h = subst IsInputScoped (sym h.0) tt
Proves-IsInputScoped i rule (undefined_witness_version _ _ _ _) h = subst IsInputScoped (sym h.0) tt
Proves-IsInputScoped i rule (undefined_tapleaf_version _ _) h = subst IsInputScoped (sym h.0) tt
Proves-IsInputScoped i rule (control_block_too_large _ _ _ _) h = subst IsInputScoped (sym h.0) tt
Proves-IsInputScoped i rule (op_success_present _ _ _) h = subst IsInputScoped (sym h.0) tt
Proves-IsInputScoped i rule (Violation.tapscript_op_if _ _ _) h = subst IsInputScoped (sym h.0) tt

abbrev pub AllInputScoped : List PrimaryViolation → Type 0
AllInputScoped ms = All (λ m. IsInputScoped m.rule) ms

-- Proven matches belong to input-scoped rules.
pub AllProven-AllInputScoped :
    (i : ℕ) (ms : List PrimaryViolation) → AllProven i ms → AllInputScoped ms
AllProven-AllInputScoped i [] h = tt
AllProven-AllInputScoped i (m ∷ ms) h =
    (Proves-IsInputScoped i m.rule m.evidence h.0, AllProven-AllInputScoped i ms h.1)

evidence-push :
    (m : PrimaryViolation) (ms : List PrimaryViolation) (f : RuleId → List Violation) (r : RuleId)
    → push_for m.rule m.evidence f r ++ evidence_of r ms ≡ f r ++ evidence_of r (m ∷ ms)
evidence-push m ms f r = elim (Bool-cases (rule_eq m.rule r)) [
  | inl e ↦ rw e (append_assoc (f r) (m.evidence ∷ []) (evidence_of r ms))
  | inr e ↦ rw e refl
]

pub record_evidence-slots :
    (ms : List PrimaryViolation) (f : RuleId → List Violation)
    → AllInputScoped ms
    → record_evidence ms (slots f) ≡ some (slots (λ r. f r ++ evidence_of r ms))
unfolding record_evidence
record_evidence-slots [] f h = simp append-nil
record_evidence-slots (m ∷ ms) f h =
    let (n, e, p) = push_at-slots m.rule m.evidence f h.0 in
    rw (e, p)
      (record_evidence-slots ms (push_for m.rule m.evidence f) h.1
        ∙ ap (λ g. some (slots g)) (fun_ext (evidence-push m ms f)))

breaks-mark :
    (m : PrimaryViolation) (ms : List PrimaryViolation) (b : RuleId → Bool) (r : RuleId)
    → ((rule_eq m.rule r || b r) || breaks r ms) ≡ (b r || breaks r (m ∷ ms))
breaks-mark m ms b r = ground arith

or_false : (b : Bool) → b ≡ (b || false)
or_false true = refl
or_false false = refl

pub affected_rules-slots :
    (ms : List PrimaryViolation) (b : RuleId → Bool)
    → AllInputScoped ms
    → affected_rules ms (slots b) ≡ some (slots (λ r. b r || breaks r ms))
unfolding affected_rules
affected_rules-slots [] b h = ap (λ g. some (slots g)) (fun_ext (λ r. or_false (b r)))
affected_rules-slots (m ∷ ms) b h =
    let (n, e, p) = mark-slots m.rule b h.0 in
    rw (e, p)
      (affected_rules-slots ms (λ r. rule_eq m.rule r || b r) h.1
        ∙ ap (λ g. some (slots g)) (fun_ext (breaks-mark m ms b)))

pub push_unknown_all-slots :
    (missing : Missing) (g : RuleId → List Missing)
    → push_unknown_all missing (slots g) ≡ slots (λ r. g r ++ missing ∷ [])
unfolding push_unknown_all
push_unknown_all-slots missing g = refl

append-if :
    (b : Bool) (xs : List Missing) (missing : Missing)
    → (if b then xs ++ missing ∷ [] else xs) ≡ xs ++ (if b then missing ∷ [] else [])
append-if true xs missing = refl
append-if false xs missing = sym (append-nil xs)

pub push_affected-slots :
    (missing : Missing) (b : RuleId → Bool) (g : RuleId → List Missing)
    → push_affected missing (slots b) (slots g)
      ≡ slots (λ r. g r ++ (if b r then missing ∷ [] else []))
unfolding push_affected
push_affected-slots missing b g = ap slots (fun_ext (λ r. append-if (b r) (g r) missing))
