-- ===== src/AuditCheckpoint/Open.antt =====
-- The opening of a checkpoint store: `open` and `open_with_history`.
pub mod Restart
use bloom_service_runtime.Prelude.{ℕ, Bool, List, []}
use bloom_service_runtime.RpcWire.External.{External}
use bloom_service_runtime.RpcWire.Token.{Token}
use bloom_service_runtime.AuditCheckpoint.Record.{CheckpointError}
use bloom_service_runtime.AuditCheckpoint.Keys.{ApplicationKeyHandover, PinnedAuditKey}
use bloom_service_runtime.AuditCheckpoint.Entries.{RecordCodec, Store, validate_root, pinned_store}
use bloom_service_runtime.AuditCheckpoint.Scan.{root_stamp}
use bloom_service_runtime.AuditCheckpoint.Publish.{rescan}
use bloom_service_runtime.AuditCheckpoint.Disk.{
  Action, ◌>>=◌, ◌>>◌, pure, lift, put_cache, root_metadata, syscall, fixed,
}

module _ (x : External) (codec : RecordCodec) where
  -- The root is opened for its lock, and the cache is filled. The cache of the world becomes that
  -- of the new store.
  unfoldable pub load_cache : Store x → Action CheckpointError (Store x)
  unfolding root_stamp syscall rescan
  load_cache store = do
    stamp ← root_stamp x codec store
    syscall (fixed tt)
    put_cache (record { root_stamp = stamp; latest = [] })
    rescan x codec store
    pure store

  unfoldable pub open_with_history :
      Bool
      → ℕ
      → Token
      → List (PinnedAuditKey x)
      → List (PinnedAuditKey x)
      → List ApplicationKeyHandover
      → Action CheckpointError (Store x)
  unfolding root_metadata validate_root pinned_store load_cache
  open_with_history has_parent expected_uid recipient current historical handovers = do
    metadata ← root_metadata
    lift (validate_root metadata expected_uid)
    store ← lift (pinned_store x has_parent expected_uid recipient current historical handovers)
    load_cache store

  unfoldable pub open_store :
      Bool → ℕ → Token → List (PinnedAuditKey x) → Action CheckpointError (Store x)
  unfolding root_metadata validate_root open_with_history
  open_store has_parent expected_uid recipient pinned = do
    metadata ← root_metadata
    lift (validate_root metadata expected_uid)
    open_with_history has_parent expected_uid recipient pinned [] []
