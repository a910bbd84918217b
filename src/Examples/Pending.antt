-- ===== src/Examples/Pending.antt =====
-- The theorems about the pending slice at concrete inputs.
use Prim.Native.String.{String}
use mempool_atlas.Prelude.{
  bytes_eq, take, ◌*◌, ◌-◌, ◌≤◌, ◌≡◌, refl, sym, ◌⊎◌, Bool, false, Option, none, some, List, [],
  ◌∷◌, Bytes, length, arith,
}
use mempool_atlas.Results.{ok}
use mempool_atlas.Classification.Cache.{OutPoint}
use mempool_atlas.Classification.Report.{ResolverLimits, estimated_gettxout_response_bytes}
use mempool_atlas.Pending.State.{PendingCandidate, PendingSlice, found, ready}
use mempool_atlas.Pending.Facts.{apply_confirmed_value}
use mempool_atlas.Pending.Candidates.{
  activate_waiting, without_candidates, keys_where, has_all_facts, required_outpoints,
}
use mempool_atlas.Pending.Bounds.{IsWithin}
use mempool_atlas.Pending.Reach.{here, next_step, activate_step, confirmed_answer, Reach-IsWithin}
use mempool_atlas.Classifiers.Structure.{transaction_structure}
use mempool_atlas.Model.Entry.{TransactionStructure}
use mempool_atlas.Pending.Ready.{candidates_where}
use mempool_atlas.Pending.Evaluate.{CachedClassification, evaluate_ready}
use mempool_atlas.Pending.Evaluated.{AreEvaluated, evaluate_ready-ok}
use mempool_atlas.Pending.Waves.{next_confirmed_wave}
use mempool_atlas.Pending.WaveEnds.{next_confirmed_wave-some}
use mempool_atlas.Examples.{sample, sample_tx, tapscript_input}

abbrev parse : String → Option Bytes
parse txid = none

abbrev is_null : OutPoint → Bool
is_null o = false

abbrev limits : ResolverLimits
limits = record {
  max_parent_transactions_per_wave = 2;
  max_confirmed_prevouts_per_wave = 3;
  max_unique_prevouts_per_window = 4;
  max_pending_script_bytes = 1_000_000;
}

abbrev spent : OutPoint
spent = record { txid = tapscript_input.txid; vout = 0 }

abbrev queued : PendingSlice
queued = record {
  queued =
      record {
        expected = record { txid = "aa"; wtxid = "ab"; vsize = 200 };
        transaction = sample_tx;
      }
      ∷ [];
  active = [];
  fair_order = [];
  facts = [];
  deferred_facts = [];
  raw_outputs = [];
  pending_script_bytes = 0;
}

abbrev activated : PendingSlice
activated = activate_waiting is_null [] limits queued

abbrev answered : PendingSlice
answered = (apply_confirmed_value spent (found (0x51 ∷ [])) 1_000_000 activated).pending

Reach-IsWithin_example : IsWithin 1_000_000 answered
Reach-IsWithin_example =
    Reach-IsWithin parse is_null limits (omega arith) {s = queued}
      (record { counted = refl; within = omega arith })
      (next_step (next_step here (activate_step [])) (confirmed_answer spent (found (0x51 ∷ []))))

abbrev candidate : PendingCandidate
candidate = record {
  expected = record { txid = "aa"; wtxid = "ab"; vsize = 200 };
  transaction = sample_tx;
  required = spent ∷ [];
  fact_cursor = 0;
}

abbrev waiting : PendingSlice
waiting = record queued {
  queued = [];
  active = ("ab", candidate) ∷ [];
  fair_order = "ab" ∷ [];
  facts = (spent, ready (0x51 ∷ [])) ∷ [];
  pending_script_bytes = 513;
}

required : required_outpoints is_null sample_tx.input ≡ spent ∷ []
unfolding required_outpoints
required = refl

abbrev is_return : Bytes → Bool
is_return script = bytes_eq (take 1 script) (0x6a ∷ [])

abbrev sample_structure : TransactionStructure
sample_structure = record {
  input_count = 1;
  output_count = 2;
  op_return_bytes = 1;
  output_sats = 900;
  witness_bytes = 80;
}

structure_derived :
    transaction_structure sample is_return (λ tx. 200) (λ tx. 120) sample_tx ≡ ok sample_structure
unfolding transaction_structure
structure_derived = refl

evaluate_ready-ok_example :
    (cs : List CachedClassification) × (evaluate_ready sample is_return
        (λ tx. 200)
        (λ tx. 120)
        waiting
      ≡ ok (
        cs,
        without_candidates (keys_where (has_all_facts waiting.facts) waiting.active) waiting,
      ))
    × AreEvaluated sample is_return
        (λ tx. 200)
        (λ tx. 120)
        (candidates_where (has_all_facts waiting.facts) waiting.active)
        cs
evaluate_ready-ok_example =
    evaluate_ready-ok sample is_return (λ tx. 200) (λ tx. 120) is_null waiting (tt, tt)
      (record { requires = sym required; spends = λ c. (refl, tt) }, tt)
      ((sample_structure, structure_derived), tt)

next_confirmed_wave-some_example :
    (os : List OutPoint) × (left : PendingSlice) × (next_confirmed_wave 4 limits waiting
      ≡ some (os, left))
    × (length os ≤ 3)
    × ((length os ≤ 1) ⊎ (length os * estimated_gettxout_response_bytes ≤ 1_000_000 - 513))
next_confirmed_wave-some_example = next_confirmed_wave-some 4 limits waiting (omega arith)
