-- ===== src/Model/EntryBounds.antt =====
-- Which facts make an entry, and that each number of it is exact in JSON.
use Prim.Native.String.{String}
use mempool_atlas.Prelude.{none, [], ℕ, ◌*◌, ◌≤◌, ◌≡◌, unsigned_abs, ◌↔◌, arith}
use mempool_atlas.Results.{ok}
use mempool_atlas.Model.Rules.{max_safe_json_integer}
use mempool_atlas.Model.Entry.{
  MembershipFacts, MempoolEntry, TransactionStructure, entry_of, new_variant, new_entry,
  new_structure, solitary,
}

abbrev pub IsSafe : ℕ → Type 0
IsSafe n = n ≤ max_safe_json_integer

-- What the node must report of a transaction.
abbrev pub AreConsistent : (vsize fee_sats entered_at_ms : ℕ) → MembershipFacts → Type 0
AreConsistent vsize fee_sats entered_at_ms facts =
    (1 ≤ vsize)
    × IsSafe vsize
    × IsSafe fee_sats
    × IsSafe entered_at_ms
    × IsSafe facts.ancestor_count
    × IsSafe facts.ancestor_vsize
    × IsSafe facts.descendant_count
    × IsSafe facts.descendant_vsize
    × IsSafe facts.weight
    × IsSafe (unsigned_abs facts.ancestor_fee_sats)
    × (1 ≤ facts.weight)
    × (facts.weight ≤ vsize * 4)
    × (1 ≤ facts.ancestor_count)
    × (1 ≤ facts.descendant_count)
    × (vsize ≤ facts.ancestor_vsize)
    × (vsize ≤ facts.descendant_vsize)

-- An entry is made exactly of consistent facts: virtual size, weight and counts at least one, a
-- weight of at most four times the virtual size, relatives' sizes that include the transaction's,
-- and every number exact in JSON. The entry then has these facts and no classification.
pub new_variant_iff :
    (txid wtxid : String) (vsize fee_sats entered_at_ms : ℕ) (facts : MembershipFacts)
    (entry : MempoolEntry)
    → (new_variant txid wtxid vsize fee_sats entered_at_ms facts ≡ ok entry) ↔ (
        (entry ≡ record {
          txid = txid;
          wtxid = wtxid;
          vsize = vsize;
          weight = facts.weight;
          fee_sats = fee_sats;
          entered_at_ms = entered_at_ms;
          ancestor_count = facts.ancestor_count;
          ancestor_vsize = facts.ancestor_vsize;
          ancestor_fee_sats = facts.ancestor_fee_sats;
          descendant_count = facts.descendant_count;
          descendant_vsize = facts.descendant_vsize;
          replaceable = facts.replaceable;
          structure = none;
          classifications = [];
          bip110 = none;
        })
        × AreConsistent vsize fee_sats entered_at_ms facts)
unfolding new_variant
new_variant_iff txid wtxid vsize fee_sats entered_at_ms facts entry = ground arith

-- A transaction with no relatives makes an entry exactly when its virtual size is positive and its
-- weight, fee and time are exact in JSON; no sum or product of the code wraps or saturates then.
pub new_entry_iff :
    (txid : String) (vsize fee_sats entered_at_ms : ℕ) (entry : MempoolEntry)
    → (new_entry txid vsize fee_sats entered_at_ms ≡ ok entry) ↔ (
        (entry ≡ entry_of txid txid vsize fee_sats entered_at_ms (solitary vsize fee_sats))
        × (1 ≤ vsize)
        × IsSafe (vsize * 4)
        × IsSafe fee_sats
        × IsSafe entered_at_ms)
unfolding new_entry
new_entry_iff txid vsize fee_sats entered_at_ms entry = ground arith

-- A structure is made exactly of at least one input and one output and of numbers that are exact
-- in JSON, and it has these numbers.
pub new_structure_iff :
    (i o r s w : ℕ) (structure : TransactionStructure)
    → (new_structure i o r s w ≡ ok structure) ↔ (
        (structure ≡ record {
          input_count = i;
          output_count = o;
          op_return_bytes = r;
          output_sats = s;
          witness_bytes = w;
        })
        × (1 ≤ i)
        × (1 ≤ o)
        × IsSafe i
        × IsSafe o
        × IsSafe r
        × IsSafe s
        × IsSafe w)
unfolding new_structure
new_structure_iff i o r s w structure = ground arith
