-- ===== src/Pending/Reach.antt =====
-- src/classification.rs: the steps of the resolution in any order.
use Prim.Native.String.{String}
use mempool_atlas.Prelude.{◌^◌, ◌<◌, Bool, Option, List, Bytes, arith}
use mempool_atlas.Bitcoin.{Transaction}
use mempool_atlas.Classification.Batches.{ExpectedVariant}
use mempool_atlas.Classification.Cache.{OutPoint}
use mempool_atlas.Classification.Report.{ResolverLimits}
use mempool_atlas.Pending.State.{RpcValue, Variants, PendingSlice}
use mempool_atlas.Pending.Facts.{
  store_or_block, record_fact_attempt, record_parent_attempt, fall_back_parent_to_gettxout,
  apply_confirmed_value, apply_parent_transaction,
}
use mempool_atlas.Pending.Candidates.{activate_waiting, without_candidates}
use mempool_atlas.Pending.Bounds.{IsWithin}
use mempool_atlas.Pending.Retained.{store_or_block-IsWithin, record_fact_attempt-IsWithin}
use mempool_atlas.Pending.Window.{
  record_parent_attempt-IsWithin, fall_back_parent_to_gettxout-IsWithin,
  apply_confirmed_value-IsWithin, apply_parent_transaction-IsWithin, activate_waiting-IsWithin,
  without_candidates-IsWithin,
}

-- A step of the resolver on its pending slice, with what the node answered.
pub data Step (parse_txid : String → Option Bytes) (is_null : OutPoint → Bool)
    (limits : ResolverLimits) (s : PendingSlice) : PendingSlice → Type 0 where
  activate_step :
      (variants : Variants)
      → Step parse_txid is_null limits s (activate_waiting is_null variants limits s)
  fact_attempt : (o : OutPoint) → Step parse_txid is_null limits s (record_fact_attempt o s)
  parent_attempt : (txid : Bytes) → Step parse_txid is_null limits s (record_parent_attempt txid s)
  parent_answer :
      (expected : ExpectedVariant) (transaction : Transaction)
      → Step parse_txid is_null limits s
          (apply_parent_transaction parse_txid expected transaction limits.max_pending_script_bytes
            s).pending
  parent_failed :
      (txid : Bytes) → Step parse_txid is_null limits s (fall_back_parent_to_gettxout txid s)
  confirmed_answer :
      (o : OutPoint) (value : RpcValue Bytes)
      → Step parse_txid is_null limits s
          (apply_confirmed_value o value limits.max_pending_script_bytes s).pending
  cache_answer :
      (o : OutPoint) (script : Bytes)
      → Step parse_txid is_null limits s
          (store_or_block o script limits.max_pending_script_bytes s).pending
  candidates_left :
      (keys : List String) → Step parse_txid is_null limits s (without_candidates keys s)

pub data Reach (parse_txid : String → Option Bytes) (is_null : OutPoint → Bool)
    (limits : ResolverLimits) (s : PendingSlice) : PendingSlice → Type 0 where
  here : Reach parse_txid is_null limits s s
  next_step :
      {t u : PendingSlice}
      → Reach parse_txid is_null limits s t
      → Step parse_txid is_null limits t u
      → Reach parse_txid is_null limits s u

module _ (parse_txid : String → Option Bytes) (is_null : OutPoint → Bool) (limits : ResolverLimits)
    (small : limits.max_pending_script_bytes < 2 ^ 64) where
  Step-IsWithin :
      {s t : PendingSlice}
      → Step parse_txid is_null limits s t
      → IsWithin limits.max_pending_script_bytes s
      → IsWithin limits.max_pending_script_bytes t
  Step-IsWithin {s = s} (activate_step variants) w =
      activate_waiting-IsWithin is_null variants limits limits.max_pending_script_bytes s small
        (omega (arith, w.counted, w.within))
  Step-IsWithin {s = s} (fact_attempt o) w =
      record_fact_attempt-IsWithin o limits.max_pending_script_bytes s w
  Step-IsWithin {s = s} (parent_attempt txid) w =
      record_parent_attempt-IsWithin txid limits.max_pending_script_bytes s w
  Step-IsWithin {s = s} (parent_answer expected transaction) w =
      apply_parent_transaction-IsWithin parse_txid expected transaction
        limits.max_pending_script_bytes s w
  Step-IsWithin {s = s} (parent_failed txid) w =
      fall_back_parent_to_gettxout-IsWithin txid limits.max_pending_script_bytes s w
  Step-IsWithin {s = s} (confirmed_answer o value) w =
      apply_confirmed_value-IsWithin o value limits.max_pending_script_bytes s w
  Step-IsWithin {s = s} (cache_answer o script) w =
      store_or_block-IsWithin o script limits.max_pending_script_bytes s w
  Step-IsWithin {s = s} (candidates_left keys) w =
      without_candidates-IsWithin keys limits.max_pending_script_bytes s small
        (omega (arith, w.counted, w.within))

  -- Under a limit of fewer than 2^64 bytes, in every order of activations, attempts, answers of the
  -- node and the caches, failures and removals of candidates, from a slice that counts its retained
  -- scripts right and holds no more than the limit, the count stays the sum over the scripts that
  -- are held, and within the limit.
  pub Reach-IsWithin :
      {s t : PendingSlice}
      → IsWithin limits.max_pending_script_bytes s
      → Reach parse_txid is_null limits s t
      → IsWithin limits.max_pending_script_bytes t
  Reach-IsWithin w here = w
  Reach-IsWithin w (next_step r st) = Step-IsWithin st (Reach-IsWithin w r)
