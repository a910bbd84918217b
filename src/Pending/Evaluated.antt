-- ===== src/Pending/Evaluated.antt =====
-- Every ready candidate is evaluated (src/classification.rs), with no panic.
use mempool_atlas.Prelude.{
  ℕ, ap, ◌∙◌, ◌≡◌, refl, inl, inr, Bool, List, [], ◌∷◌, All, Bytes, Bool-cases,
}
use mempool_atlas.Results.{ok}
use mempool_atlas.Bitcoin.{Bitcoin, Transaction}
use mempool_atlas.Bip110.Rules.{evaluate_mempool_policy, mempool_policy}
use mempool_atlas.Bip110.Rules.Spec.{spec_evidence}
use mempool_atlas.Bip110.Rules.Refines.{evaluate_applied-spec_evidence}
use mempool_atlas.Model.Entry.{TransactionStructure}
use mempool_atlas.Model.Rules.{validate_rules}
use mempool_atlas.Classification.Batches.{ExpectedVariant}
use mempool_atlas.Classification.Cache.{OutPoint}
use mempool_atlas.Classification.Valid.{validate_rules-assessment_of}
use mempool_atlas.Classifiers.Structure.{transaction_structure}
use mempool_atlas.Pending.State.{PendingCandidate, PendingSlice, Active}
use mempool_atlas.Pending.Candidates.{ReadyCandidate, without_candidates, keys_where, has_all_facts}
use mempool_atlas.Pending.Ready.{
  IsTaken, AreTaken, candidates_where, AreKeysDistinct, IsAdmitted, take_ready-ok,
}
use mempool_atlas.Pending.Evaluate.{
  CachedClassification, classification_from_evidence, evaluate_candidate, evaluate_candidates,
  evaluate_ready,
}

All-candidates_where :
    (P : PendingCandidate → Type 0) (test : PendingCandidate → Bool) (active : Active)
    → All (λ p. P p.1) active
    → All P (candidates_where test active)
All-candidates_where P test [] a = tt
All-candidates_where P test (p ∷ active) (first, rest) = elim (Bool-cases (test p.1)) [
  | inl t ↦ rw t (first, All-candidates_where P test active rest)
  | inr f ↦ rw f (All-candidates_where P test active rest)
]

module _ (bitcoin : Bitcoin) (is_op_return : Bytes → Bool)
    (total_size base_size : Transaction → ℕ) where
  -- What is verified when a raw transaction is admitted.
  abbrev pub HasStructure : Transaction → Type 0
  HasStructure transaction =
      (structure : TransactionStructure) × (transaction_structure bitcoin is_op_return total_size
          base_size transaction
        ≡ ok structure)

  -- The classification is of the candidate's variant, with its structure, and what it publishes of
  -- the rules is accepted by the validation of the data model.
  abbrev pub IsEvaluated : PendingCandidate → CachedClassification → Type 0
  IsEvaluated candidate c =
      (c.classification.txid ≡ candidate.expected.txid)
      × (c.classification.wtxid ≡ candidate.expected.wtxid)
      × (transaction_structure bitcoin is_op_return total_size base_size candidate.transaction
          ≡ ok c.classification.structure)
      × (validate_rules c.classification.txid c.classification.assessment c.classification.rules
          ≡ ok tt)

  abbrev pub AreEvaluated : List PendingCandidate → List CachedClassification → Type 0
  AreEvaluated [] [] = Unit
  AreEvaluated (p ∷ ps) (c ∷ cs) = IsEvaluated p c × AreEvaluated ps cs
  AreEvaluated _ _ = ⊥

  evaluate_candidate-ok :
      (p : PendingCandidate) (r : ReadyCandidate)
      → IsTaken p r
      → HasStructure p.transaction
      → (c : CachedClassification) × (evaluate_candidate bitcoin is_op_return total_size base_size r
          ≡ ok c)
        × IsEvaluated p c
  unfolding evaluate_candidate classification_from_evidence evaluate_mempool_policy
  evaluate_candidate-ok p r (expected, transaction) (structure, derived) =
      let evidence = spec_evidence bitcoin mempool_policy r.prevouts r.transaction in
      let e = evaluate_applied-spec_evidence bitcoin mempool_policy r.prevouts r.transaction in
      let of_r : transaction_structure bitcoin is_op_return total_size base_size r.transaction
          ≡ ok structure =
        ap (transaction_structure bitcoin is_op_return total_size base_size) transaction
        ∙ derived in
      (
        record {
          classification =
              classification_from_evidence r.expected.txid r.expected.wtxid structure evidence;
          retryable = r.retryable;
        },
        rw (e, of_r) refl,
        (
          ap (λ (x : ExpectedVariant). x.txid) expected,
          ap (λ (x : ExpectedVariant). x.wtxid) expected,
          derived,
          validate_rules-assessment_of bitcoin r.transaction r.prevouts r.expected.txid evidence e,
        ),
      )

  evaluate_candidates-ok :
      (ps : List PendingCandidate) (rs : List ReadyCandidate)
      → AreTaken ps rs
      → All (λ p. HasStructure p.transaction) ps
      → (cs : List CachedClassification) × (evaluate_candidates bitcoin is_op_return total_size
            base_size rs
          ≡ ok cs)
        × AreEvaluated ps cs
  unfolding evaluate_candidates
  evaluate_candidates-ok [] [] taken a = ([], refl, tt)
  evaluate_candidates-ok [] (r ∷ rs) taken a = absurd taken
  evaluate_candidates-ok (p ∷ ps) [] taken a = absurd taken
  evaluate_candidates-ok (p ∷ ps) (r ∷ rs) (one, others) (first, rest) =
      let (c, e, done) = evaluate_candidate-ok p r one first in
      let (cs, es, all_done) = evaluate_candidates-ok ps rs others rest in
      (c ∷ cs, rw (e, es) refl, (done, all_done))

  -- Of a map of candidates under different keys, each of which requires the outpoints that its
  -- transaction spends, is a coinbase or spends no null outpoint, and has a structure, as is verified
  -- when it is admitted, exactly the ready ones are taken out and evaluated, in their order: no
  -- panic is reached before the results of the four classifiers are made. Each classification has the
  -- ids and the structure of its candidate, and its rules are accepted by the validation of the data
  -- model.
  pub evaluate_ready-ok :
      (is_null : OutPoint → Bool) (pending : PendingSlice)
      → AreKeysDistinct pending.active
      → All (λ p. IsAdmitted bitcoin is_null p.1) pending.active
      → All (λ p. HasStructure p.1.transaction) pending.active
      → (cs : List CachedClassification) × (evaluate_ready bitcoin is_op_return total_size base_size
            pending
          ≡ ok (
            cs,
            without_candidates (keys_where (has_all_facts pending.facts) pending.active) pending,
          ))
        × AreEvaluated (candidates_where (has_all_facts pending.facts) pending.active) cs
  unfolding evaluate_ready
  evaluate_ready-ok is_null pending distinct admitted derivable =
      let ready = candidates_where (has_all_facts pending.facts) pending.active in
      let (rs, e, taken) = take_ready-ok bitcoin is_null pending distinct admitted in
      let (cs, es, done) = evaluate_candidates-ok ready rs taken (
        All-candidates_where (λ p. HasStructure p.transaction) (has_all_facts pending.facts)
          pending.active derivable) in
      (cs, rw (e, es) refl, done)
