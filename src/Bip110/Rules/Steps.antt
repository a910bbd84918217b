-- ===== src/Bip110/Rules/Steps.antt =====
-- One round of the loop over the inputs adds the contribution of its input.
use mempool_atlas.Prelude.{
  ℕ, ◌≡◌, refl, sym, ap, fun_ext, Bool, true, false, not, ◌&&◌, inl, inr, Option, none, some, List,
  [], ◌++◌, append-nil, is_none, Bool-cases, if◌then◌else◌, ◌>>=◌,
}
use mempool_atlas.Bitcoin.{Bitcoin, TxIn}
use mempool_atlas.Bip110.Prevout
use mempool_atlas.Bip110.Prevout.{PrevoutFacts, PrevoutSet}
use mempool_atlas.Bip110.Verdict.{RuleId, Violation, PrimaryViolation, Missing}
use mempool_atlas.Bip110.ScriptRules.{evaluate_input}
use mempool_atlas.Bip110.ScriptRules.Sound.{ReturnsProven, proven, evaluate_input-ReturnsProven}
use mempool_atlas.Bip110.Rules.{
  Applicability, consensus, mempool_policy, Progress, record_matches, record_unproven,
  record_unclassified, record_input, is_exempt, evaluate_with, evaluate_at, first,
}
use mempool_atlas.Bip110.Rules.Spec.{
  Contribution, evidence_of, breaks, unclassified, exempt, recorded, unproven, known, or_nil,
  contribution_at, contribution,
}
use mempool_atlas.Bip110.Rules.Slots.{
  slots, AllInputScoped, AllProven-AllInputScoped, record_evidence-slots, affected_rules-slots,
  push_affected-slots,
}

-- The state of the loop, by rule.
abbrev pub state :
    (RuleId → List Violation) → (RuleId → List Missing) → Option PrimaryViolation → Bool → Progress
state f g primary blocked = record {
  violations = slots f;
  unknowns = slots g;
  primary = primary;
  blocked = blocked;
}

abbrev pub next_primary : Contribution → Option PrimaryViolation → Bool → Option PrimaryViolation
next_primary c primary blocked = if is_none primary && not blocked then first c.found else primary

abbrev pub next_blocked : Contribution → Option PrimaryViolation → Bool → Bool
next_blocked c primary blocked = if c.blocks && is_none primary then true else blocked

-- The state with one more contribution.
abbrev pub add :
    Contribution
    → (RuleId → List Violation)
    → (RuleId → List Missing)
    → Option PrimaryViolation
    → Bool
    → Progress
add c f g primary blocked =
    state (λ r. f r ++ evidence_of r c.found) (λ r. g r ++ c.missing r)
      (next_primary c primary blocked) (next_blocked c primary blocked)

keeps_primary :
    (primary : Option PrimaryViolation) (blocked : Bool)
    → primary ≡ (if is_none primary && not blocked then none else primary)
keeps_primary none true = refl
keeps_primary none false = refl
keeps_primary (some v) blocked = refl

module _ (f : RuleId → List Violation) (g : RuleId → List Missing)
    (primary : Option PrimaryViolation) (blocked : Bool) where
  same_violations : slots f ≡ slots (λ r. f r ++ [])
  same_violations = ap slots (fun_ext (λ r. sym (append-nil (f r))))

  same_unknowns : slots g ≡ slots (λ r. g r ++ [])
  same_unknowns = ap slots (fun_ext (λ r. sym (append-nil (g r))))

  unclassified-add :
      (i : ℕ)
      → record_unclassified i (state f g primary blocked) ≡ add (unclassified i) f g primary blocked
  unfolding record_unclassified
  unclassified-add i = cc (same_violations, keeps_primary primary blocked)

  exempt-add : state f g primary blocked ≡ add exempt f g primary blocked
  exempt-add = cc (same_violations, same_unknowns, keeps_primary primary blocked)

  recorded-add :
      (ms : List PrimaryViolation)
      → AllInputScoped ms
      → record_matches ms (state f g primary blocked) ≡ some (add (recorded ms) f g primary blocked)
  unfolding record_matches
  recorded-add ms h = rw (record_evidence-slots ms f h) (cc same_unknowns)

  unproven-add :
      (i : ℕ) (ms : List PrimaryViolation)
      → AllInputScoped ms
      → record_unproven i ms (state f g primary blocked)
        ≡ some (add (unproven i ms) f g primary blocked)
  unfolding record_unproven
  unproven-add i ms h = rw (affected_rules-slots ms (λ _. false) h) (
      cc (
        same_violations,
        push_affected-slots (Missing.creation_height i) (λ r. breaks r ms) g,
        keeps_primary primary blocked,
      ))

  known-add :
      (applicability : Applicability) (i : ℕ) (height : Option ℕ) (ms : List PrimaryViolation)
      → AllInputScoped ms
      → record_input applicability i height ms (state f g primary blocked)
        ≡ some (add (known applicability i height ms) f g primary blocked)
  unfolding record_input
  known-add mempool_policy i height ms h = recorded-add ms h
  known-add (consensus ctx) i (some height) ms h = recorded-add ms h
  known-add (consensus ctx) i none ms h = unproven-add i ms h

  module _ (bitcoin : Bitcoin) (applicability : Applicability) (prevouts : PrevoutSet) where
    evaluated-add :
        (i : ℕ) (txin : TxIn) (facts : PrevoutFacts)
        → ReturnsProven i (evaluate_input bitcoin i txin facts.script_pubkey)
        → (evaluate_input bitcoin i txin facts.script_pubkey >>= λ ms.
            record_input applicability i facts.creation_height ms (state f g primary blocked))
          ≡ some (
              add
                (known applicability i facts.creation_height
                  (or_nil (evaluate_input bitcoin i txin facts.script_pubkey)))
                f
                g
                primary
                blocked)
    evaluated-add i txin facts (proven ms e h) =
        rw e (known-add applicability i facts.creation_height ms (AllProven-AllInputScoped i ms h))

    evaluate_with-add :
        (i : ℕ) (txin : TxIn) (facts : Option PrevoutFacts)
        → evaluate_with bitcoin applicability i txin facts (state f g primary blocked)
          ≡ some (
              add (contribution_at bitcoin applicability prevouts i txin facts) f g primary blocked)
    unfolding evaluate_with
    evaluate_with-add i txin none = ap some (unclassified-add i)
    evaluate_with-add i txin (some facts) =
        elim (Bool-cases (is_exempt applicability facts.creation_height)) [
          | inl e ↦ rw e (ap some exempt-add)
          | inr e ↦ rw e (
              evaluated-add i txin facts
                (evaluate_input-ReturnsProven bitcoin i txin facts.script_pubkey))
        ]

    -- A round of the loop adds the contribution of its input.
    pub evaluate_at-add :
        (i : ℕ) (txin : TxIn)
        → evaluate_at bitcoin applicability prevouts i txin (state f g primary blocked)
          ≡ some (add (contribution bitcoin applicability prevouts i txin) f g primary blocked)
    unfolding evaluate_at
    evaluate_at-add i txin = evaluate_with-add i txin (Prevout.get prevouts i)
