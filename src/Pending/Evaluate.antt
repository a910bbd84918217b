-- ===== src/Pending/Evaluate.antt =====
-- src/classification.rs: `classify_ready`, up to the results of the classifiers, which it then fills
-- in.
use Prim.Native.String.{String}
use mempool_atlas.Prelude.{ℕ, Bool, Option, none, some, List, [], ◌∷◌, Bytes}
use mempool_atlas.Results.{Result, ok, err, panic, ◌>>=◌}
use mempool_atlas.Bitcoin.{Bitcoin, Transaction}
use mempool_atlas.Bip110.Verdict.{TxEvidence}
use mempool_atlas.Bip110.Rules.{evaluate_mempool_policy}
use mempool_atlas.Model.Error.{ModelError}
use mempool_atlas.Model.Entry.{TransactionStructure}
use mempool_atlas.Model.Validation.{TransactionClassification}
use mempool_atlas.Classification.Evidence.{assessment_of, details_of}
use mempool_atlas.Classifiers.Structure.{transaction_structure}
use mempool_atlas.Pending.State.{PendingSlice}
use mempool_atlas.Pending.Candidates.{ReadyCandidate, take_ready}

pub record CachedClassification : Type 0 where
  pub classification : TransactionClassification
  pub retryable : Bool

unfoldable pub classification_from_evidence :
    (txid wtxid : String) → TransactionStructure → TxEvidence → TransactionClassification
unfolding assessment_of details_of
classification_from_evidence txid wtxid structure evidence = record {
  txid = txid;
  wtxid = wtxid;
  structure = structure;
  results = [];
  assessment = assessment_of evidence;
  rules = details_of evidence;
}

-- The evaluation has an index out of range.
abbrev pub evaluated : Option TxEvidence → Result Unit TxEvidence
evaluated none = panic
evaluated (some evidence) = ok evidence

-- `expect`
abbrev pub expect_structure :
    Result ModelError TransactionStructure → Result Unit TransactionStructure
expect_structure (err e) = panic
expect_structure (ok structure) = ok structure
expect_structure panic = panic

module _ (bitcoin : Bitcoin) (is_op_return : Bytes → Bool)
    (total_size base_size : Transaction → ℕ) where
  unfoldable pub evaluate_candidate : ReadyCandidate → Result Unit CachedClassification
  unfolding transaction_structure evaluate_mempool_policy classification_from_evidence
  evaluate_candidate candidate = do
    evidence ← evaluated (evaluate_mempool_policy bitcoin candidate.transaction candidate.prevouts)
    structure ←
        expect_structure
          (transaction_structure bitcoin is_op_return total_size base_size candidate.transaction)
    ok (record {
      classification =
          classification_from_evidence candidate.expected.txid candidate.expected.wtxid structure
            evidence;
      retryable = candidate.retryable;
    })

  unfoldable pub evaluate_candidates : List ReadyCandidate → Result Unit (List CachedClassification)
  unfolding evaluate_candidate
  evaluate_candidates [] = ok []
  evaluate_candidates (candidate ∷ candidates) = do
    classification ← evaluate_candidate candidate
    classifications ← evaluate_candidates candidates
    ok (classification ∷ classifications)

  -- A panic in any round is one of the call, so the candidates are taken first and evaluated next.
  unfoldable pub evaluate_ready :
      PendingSlice → Result Unit (List CachedClassification × PendingSlice)
  unfolding take_ready evaluate_candidates
  evaluate_ready pending = do
    ready ← take_ready bitcoin pending
    classifications ← evaluate_candidates ready.0
    ok (classifications, ready.1)
