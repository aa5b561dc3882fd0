-- ===== src/PlatformContainment.antt =====
-- crates/bloom-platform-containment/src/lib.rs: the packet-filter health attestation.
pub mod Fresh
mod Examples
use bloom_service_runtime.Prelude.{
  ℕ, ◌+◌, ◌-◌, Bytes, codes, Bool, true, false, not, ◌||◌, Option, none, some, List, Result, ok,
  err, ◌>>=◌, ◌>>◌, ok_or, reject_if, saturating_add, saturating_sub, to_u64, ltb, ◌==◌, ◌!=◌,
  nat_eq, list_eq, lookup, if◌then◌else◌,
}
use bloom_service_runtime.FileSystem.{FileType, Metadata, is_file, is_symlink, permissions}
use bloom_service_runtime.RpcWire.Error.{WireError, wire_error, service_unavailable}
use bloom_service_runtime.RpcWire.Hex.{Digest32, hex_eq}
use bloom_service_runtime.RpcWire.Shape.{Value, boolean}

abbrev pub status_schema : Bytes
status_schema = codes "bloom.macos-platform-status.3"

abbrev pub max_future_skew_ms : ℕ
max_future_skew_ms = 1_000

pub record NetworkContainmentGuard : Type 0 where
  pub path : Bytes
  pub login_uid : ℕ
  pub build_digest : Digest32
  pub maximum_age_ms : ℕ

pub record NetworkContainmentStatus : Type 0 where
  pub schema : Bytes
  pub login_uid : ℕ
  pub build_digest : Digest32
  pub anchor_sha256 : Digest32
  pub trusted_time_source : Bytes
  pub automatic_time_enabled : Bool
  pub timed_service_loaded : Bool
  pub trusted_time_available : Bool
  pub checked_at_unix_ms : ℕ
  pub available : Bool
  pub extension_claims : List (Bytes × Value)

abbrev pub unavailable : WireError
unavailable = wire_error service_unavailable

unfoldable pub guard_new : Bytes → ℕ → Digest32 → ℕ → Result NetworkContainmentGuard WireError
guard_new path login_uid build_digest maximum_age_ms =
    if login_uid == 0 || maximum_age_ms == 0
    then err unavailable
    else ok (record {
      path = path;
      login_uid = login_uid;
      build_digest = build_digest;
      maximum_age_ms = maximum_age_ms;
    })

-- `serde_json::from_slice` of a status
abbrev pub StatusParser : Type 0
StatusParser = Bytes → Option NetworkContainmentStatus

unfoldable pub validate_status :
    StatusParser → Bytes → ℕ → Digest32 → ℕ → ℕ → Result NetworkContainmentStatus WireError
validate_status from_slice bytes login_uid build_digest now_ms maximum_age_ms = do
  status ← ok_or (from_slice bytes) unavailable
  reject_if
      (status.schema != status_schema
        || status.login_uid != login_uid
        || status.build_digest != build_digest
        || not status.available
        || ltb (saturating_add now_ms max_future_skew_ms) status.checked_at_unix_ms
        || ltb maximum_age_ms (saturating_sub now_ms status.checked_at_unix_ms))
      unavailable
  ok status

-- What the system answers during one check: the metadata and the bytes of the status file, and
-- the wall clock in milliseconds since the epoch, each `none` if it could not be read.
pub record Surroundings : Type 0 where
  pub metadata : Option Metadata
  pub clock_ms : Option ℕ
  pub contents : Option Bytes

unfoldable pub read_validated_status :
    StatusParser
    → Surroundings
    → NetworkContainmentGuard
    → Result NetworkContainmentStatus WireError
read_validated_status from_slice around guard = do
  metadata ← ok_or around.metadata unavailable
  reject_if
      (not (is_file metadata.file_type)
        || is_symlink metadata.file_type
        || metadata.uid != 0
        || metadata.gid != 0
        || permissions metadata.mode != 0o644
        || metadata.nlink != 1)
      unavailable
  millis ← ok_or around.clock_ms unavailable
  now_ms ← ok_or (to_u64 millis) unavailable
  bytes ← ok_or around.contents unavailable
  validate_status from_slice bytes guard.login_uid guard.build_digest now_ms guard.maximum_age_ms

unfoldable pub check :
    StatusParser → Surroundings → NetworkContainmentGuard → Result (Unit {0}) WireError
check from_slice around guard = do status ← read_validated_status from_slice around guard; ok tt

abbrev as_bool : Value → Option Bool
as_bool (boolean b) = some b
as_bool _ = none

unfoldable pub boolean_claim :
    StatusParser → Surroundings → NetworkContainmentGuard → Bytes → Result (Option Bool) WireError
boolean_claim from_slice around guard name = do
  status ← read_validated_status from_slice around guard
  ok (elim (lookup name status.extension_claims) [ none ↦ none | some value ↦ as_bool value ])
