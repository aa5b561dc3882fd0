-- ===== src/TrustedTime/Source.antt =====
-- `TrustedTimeSource` and the clock errors of crates/bloom-trusted-time/src/lib.rs.
use bloom_service_runtime.Prelude.{
  Bytes, codes, Bool, true, false, ◌||◌, ◌==◌, ◌≡◌, ◌⊎◌, arith, Result, ok, err, refl,
  if◌then◌else◌, list_beq, list_beq_iff, list_eq, nat_eq,
}

-- `target_os`: `other` is any platform for which the crate has no time source.
pub data Platform : Type 0 where
  linux macos other : Platform

pub data TrustedTimeSource : Type 0 where
  linux_system_clock macos_managed_timed : TrustedTimeSource

pub data TrustedTimeError : Type 0 where
  source_mismatch : Bytes → TrustedTimeError
  wall_clock_range state_poisoned : TrustedTimeError

-- The `match` has the arms that `cfg(target_os)` leaves.
unfoldable pub for_current_platform : Platform → Bytes → Result TrustedTimeSource TrustedTimeError
for_current_platform linux source_id =
    if source_id == codes "linux-system-clock" || source_id == codes "linux-chrony-nts"
    then ok linux_system_clock
    else err (source_mismatch source_id)
for_current_platform macos source_id =
    if source_id == codes "macos-managed-timed"
    then ok macos_managed_timed
    else err (source_mismatch source_id)
for_current_platform other source_id = err (source_mismatch source_id)

unfoldable pub source_id : TrustedTimeSource → Bytes
source_id linux_system_clock = codes "linux-chrony-nts"
source_id macos_managed_timed = codes "macos-managed-timed"

unfoldable pub requires_durable_clock_guard : TrustedTimeSource → Bool
requires_durable_clock_guard linux_system_clock = true
requires_durable_clock_guard macos_managed_timed = false

-- The platform that a source belongs to.
abbrev pub platform_of : TrustedTimeSource → Platform
platform_of linux_system_clock = linux
platform_of macos_managed_timed = macos

-- An ID that a platform accepts as a source names the one source of that platform, and the ID
-- that this source emits is accepted there as the same source. In particular the ID is kept or
-- replaced by the canonical one, and never read as the source of another platform.
pub source_id_roundtrip :
    (p : Platform) (id : Bytes) (s : TrustedTimeSource)
    → for_current_platform p id ≡ ok s
    → (p ≡ platform_of s)
      × (for_current_platform p (source_id s) ≡ ok s)
      × ((id ≡ source_id s) ⊎ (id ≡ codes "linux-system-clock"))
unfolding for_current_platform source_id list_beq
source_id_roundtrip linux id linux_system_clock h = (
  refl,
  refl,
  ground (
    arith,
    list_beq_iff id (codes "linux-system-clock"),
    list_beq_iff id (codes "linux-chrony-nts"),
  ),
)
source_id_roundtrip macos id macos_managed_timed h =
    (refl, refl, ground (arith, list_beq_iff id (codes "macos-managed-timed")))
source_id_roundtrip macos id linux_system_clock h = absurd (ground arith)
source_id_roundtrip linux id macos_managed_timed h = absurd (ground arith)
source_id_roundtrip other id s h = absurd (ground arith)
