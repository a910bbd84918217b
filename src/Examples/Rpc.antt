-- ===== src/Examples/Rpc.antt =====
-- Answers of a node at which the theorems on snapshots and calls are used.
use Prim.Native.String.{String}
use mathlib.Core.List.{Perm}
use mempool_atlas.Prelude.{
  arith, ℕ, ℤ, none, inr, ◌⊎◌, ◌↔◌, Bytes, take, drop, pos, ◌≡◌, ◌≤◌, refl, Option, some, List, [],
  ◌∷◌, length, false,
}
use mempool_atlas.Results.{Result, ok}
use mempool_atlas.Model.Entry.{MempoolEntry, entry_of}
use mempool_atlas.Model.Source.{validate_source_id, validate_source_label}
use mempool_atlas.Model.Snapshot.{MempoolSnapshot, snapshot_of}
use mempool_atlas.Model.Window.{IsSorted}
use mempool_atlas.Rpc.Membership.{
  MapItem, pair, RawMempoolEntryWire, BlockchainInfoWire, Answers, decode_chain_tip,
  get_mempool_snapshot,
}
use mempool_atlas.Rpc.Error.{RpcTransportError}
use mempool_atlas.Rpc.Transport.{Response, read_bounded_response}
use mempool_atlas.Rpc.Bounded.{IsWhole, read_bounded_response-some}
use mempool_atlas.Rpc.Call.{MembershipWireResponse, answer_of}
use mempool_atlas.Rpc.Envelope.{answer_of_iff}
use mempool_atlas.Rpc.Snapshot.{IsFresh}
use mempool_atlas.Rpc.Complete.{IsDecoded, get_mempool_snapshot-IsDecoded}

abbrev shown : String → Option String
shown id = some id

abbrev wire : String → RawMempoolEntryWire
wire wtxid = record {
  wtxid = wtxid;
  vsize = 141;
  weight = 561;
  time = 1;
  ancestor_count = 1;
  ancestor_vsize = 141;
  descendant_count = 1;
  descendant_vsize = 141;
  replaceable = false;
  base = 500;
  ancestor = pos 500;
}

abbrev chain : BlockchainInfoWire
chain = record { blocks = 900_000; bestblockhash = "00" }

abbrev answers : Answers
answers = record {
  started = ok 1000;
  starting_chain = ok chain;
  mempool_size = ok (pos 2);
  raw_mempool = ok (pair "bb" (some (wire "b1")) ∷ pair "aa" (some (wire "a1")) ∷ []);
  ending_chain = ok chain;
  completed = ok 1500;
}

abbrev entry : String → String → MempoolEntry
entry txid wtxid = entry_of txid wtxid 141 500 1000 (record {
  weight = 561;
  ancestor_count = 1;
  ancestor_vsize = 141;
  ancestor_fee_sats = pos 500;
  descendant_count = 1;
  descendant_vsize = 141;
  replaceable = false;
})

abbrev collected : MempoolSnapshot
collected =
    snapshot_of "0.1.0" "local-1" "Local node" 1000 1500 500
      (record { height = 900_000; hash = "00" }) (entry "aa" "a1" ∷ entry "bb" "b1" ∷ []) 282

collected-ok :
    get_mempool_snapshot shown shown shown "0.1.0" "local-1" "Local node" 2 answers ≡ ok collected
unfolding get_mempool_snapshot validate_source_id validate_source_label
collected-ok = refl

get_mempool_snapshot-IsDecoded_example :
    ((items : List MapItem) × (entries : List MempoolEntry) × (answers.raw_mempool ≡ ok items)
      × IsDecoded shown shown shown items entries
      × Perm collected.transactions entries
      × (length entries ≤ 2)
      × IsSorted collected.transactions
      × IsFresh collected.transactions [])
    × ((starting_chain : BlockchainInfoWire) × (ending_chain : BlockchainInfoWire)
        × (answers.starting_chain ≡ ok starting_chain)
        × (answers.ending_chain ≡ ok ending_chain)
        × (decode_chain_tip shown shown shown starting_chain ≡ ok collected.chain_tip)
        × (decode_chain_tip shown shown shown ending_chain ≡ ok collected.chain_tip))
get_mempool_snapshot-IsDecoded_example =
    get_mempool_snapshot-IsDecoded shown shown shown "0.1.0" "local-1" "Local node" 2 answers
      collected-ok

-- A connection holds the bytes that are still to come.
abbrev read_bytes : Bytes → ℕ → String ⊎ (Bytes × Bytes)
read_bytes connection limit = inr (take limit connection, drop limit connection)

abbrev response : Response Bytes
response = record {
  status_code = 200;
  headers = ("Content-Length", " 3 ") ∷ [];
  connection = 7 ∷ 8 ∷ 9 ∷ [];
}

whole : read_bounded_response read_bytes 5 response 4 ≡ some (ok (200, 7 ∷ 8 ∷ 9 ∷ []))
unfolding read_bounded_response
whole = refl

read_bounded_response-some_example :
    (r : Result RpcTransportError (ℕ × Bytes)) × (read_bounded_response read_bytes 5 response 4
      ≡ some r)
    × IsWhole response 4 r
read_bounded_response-some_example =
    read_bounded_response-some read_bytes 5 response 4 (omega arith)

abbrev wire_response : MembershipWireResponse
wire_response = record { result = some "7"; error = none; id = some 3; jsonrpc = some "2.0" }

abbrev read_response : Bytes → Result String MembershipWireResponse
read_response body = ok wire_response

abbrev read_code : String → Result String ℤ
read_code raw = ok (pos 1)

abbrev read_number : String → Result String ℕ
read_number raw = ok 7

answer_of_iff_example : (answer_of read_response read_code read_number 3 200 [] ≡ ok 7) ↔ (
    (response : MembershipWireResponse) × (raw : String) × (read_response [] ≡ ok response)
    × (response.jsonrpc ≡ some "2.0")
    × (response.id ≡ some 3)
    × (response.error ≡ none)
    × (response.result ≡ some raw)
    × (read_number raw ≡ ok 7))
answer_of_iff_example = answer_of_iff read_response read_code read_number 3 200 [] 7
