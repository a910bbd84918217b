-- ===== src/Lib.antt =====
-- Mempool Atlas observes a Bitcoin node's mempool and publishes, for each transaction, which of the
-- seven rules of BIP-110 it would break.
--
-- The program's parts. The classification pipeline (src/classification.rs) fetches transactions and
-- the outputs they spend from the node, and hands each to the rule evaluation (src/bip110), whose
-- evidence becomes the published classification. The evaluation is a pure function of the
-- transaction and of what is known of its prevouts. The data model (src/model.rs) makes snapshots of
-- the mempool and joins them with the classifications to the observation that readers see. The
-- runtime (src/runtime.rs) polls the sources and has them classified in turn, and the publisher
-- (src/runtime/publisher.rs) holds what is published of each source behind a lock: a call reads the
-- state, prepares the observation and its encoding outside the lock, and commits when the state is
-- still the one it read, or starts again.
--
-- Which file models which part (a module path is a file path below this directory):
--   Prelude                 lists, options and tests that the modules share
--   Bitcoin                 the types of the bitcoin crate, and its functions as a parameter: the
--                           decoder of scripts, `is_p2sh` and `is_coinbase`
--   Bip110.Context          src/bip110/context.rs
--   Bip110.Prevout          src/bip110/prevout.rs
--   Bip110.ScriptScan       src/bip110/script_scan.rs
--   Bip110.Witness          src/bip110/witness.rs
--   Bip110.Verdict          src/bip110/verdict.rs
--   Bip110.ScriptRules      src/bip110/rules/script_rules.rs
--   Bip110.Rules            src/bip110/rules/mod.rs; Bip110.Rules.Spec is its specification
--   Results, Json           `Result` with a panic, and the JSON values of the evidence
--   Model                   src/model.rs: Catalog, Error, Rules and Validation (the validation of a
--                           classification), Source, Entry, Snapshot, Progress, Observation; the
--                           other modules of the directory are theorems
--   Classification          src/classification.rs: Evidence is `classification_from_evidence`, Cache
--                           is `ConfirmedScriptCache`, Batches are the bounds of slices and requests,
--                           Report are the limits and the reports
--   Pending                 src/classification.rs: State and Facts are what is known of outpoints,
--                           Candidates how candidates enter and leave, Evaluate how the ready ones are
--                           evaluated, Waves what is asked for next
--   Rpc                     src/rpc.rs: Error, Call for one call and Membership for one snapshot from
--                           the answers of the node; src/rpc_transport.rs: Transport, the bounded
--                           reading of a response
--   Runtime                 src/runtime/publisher.rs: State, Publish and Lookup; src/runtime.rs: Sources,
--                           Turns and Outcome; History is the interleaving of the calls
--   Classifiers             src/classifiers/arc4.rs (Arc4); src/classifiers.rs: Multisig (decoded scripts,
--                           payloads and bare multisig), Structure and Envelope (the inscription
--                           envelope)
--   Examples                a decoder for a part of Script, and inputs at which the theorems are used
--
-- How the code is modelled. Functions keep the code's names and argument order. A call that may
-- panic (`expect`, an index, `unreachable!`) returns an Option, and `none` is the panic; a
-- `Result` of the model has a third outcome for it. The mutable
-- arrays of the evaluation are the record Progress, which each round of the loop takes and returns.
-- Bytes are natural numbers. `len as u8` is written `% 2 ^ 8`, and `saturating_add` on u32 is the
-- minimum with 2 ^ 32 - 1. Every other loop is structural recursion,
-- over a list or a count; the loop that asks for batches until there is none, and the loops of the two
-- kinds of waves, run on fuel, and their theorems show how much is enough. The rounds of a call to
-- publish are a list of the states that it finds at the lock, and so are the turns of a loop that waits
-- for others. A call that is not done when they end has the result `again`.
--
-- A history of the publisher is a sequence of commits, each of a call that read any earlier states. A
-- revision that is counted with `wrapping_add` is written `(n + 1) % 2 ^ 64`, and the theorems on
-- histories are about fewer than 2 ^ 64 commits, for which it does not wrap around.
--
-- A `usize` has 64 bits. The stamps of the cache are renewed before they reach the maximum of a u64.
--
-- The node's answers to one collection are the record Answers, a value or an error for each call, and
-- the object of all entries is a list of items, which end with one that is no JSON where the stream
-- breaks. The HTTP client and the JSON decoder are arguments. A read of a body is a function of the
-- connection and the size of the buffer, and its loop has a count of rounds, of which one more than the
-- limit of bytes is enough.
--
-- Assumptions on the bitcoin crate: the theorems hold for any decoder, and `OutPoint` is a
-- transaction id with an index, ordered by both. Whether an outpoint is null or a script an OP_RETURN,
-- the sizes of a transaction, and how an id is parsed and shown, are arguments. The serde_json encoder
-- of a response is an argument, any function: it may fail or panic.
--
-- A BTreeMap is the list of its pairs in the order of the keys, and a search by bisection is the
-- search for the entry with the key. The package version is an argument, since the build sets it.
--
-- Not modelled: the installation of a generation and the loop of a slice, the four classifiers, the
-- membership round, the RPC client for the classification, the HTTP API and the web front end. The
-- tests of the Rust code are not modelled.
pub mod Prelude
pub mod Results
pub mod Json
pub mod Bitcoin
pub mod Bip110
pub mod Model
pub mod Classification
pub mod Classifiers
pub mod Pending
pub mod Rpc
pub mod Runtime
pub mod Examples
