-- ===== src/PlatformContainment/Examples.antt =====
-- The containment check on a status like that of the crate's tests, and its theorem there.
use bloom_service_runtime.Prelude.{
  ℕ, codes, true, false, some, [], ok, err, ◌≡◌, ◌↔◌, ◌⊎◌, refl, list_beq,
}
use bloom_service_runtime.FileSystem.{regular}
use bloom_service_runtime.RpcWire.Hex.{Digest32}
use bloom_service_runtime.PlatformContainment.{
  NetworkContainmentGuard, NetworkContainmentStatus, StatusParser, Surroundings, status_schema,
  validate_status, read_validated_status, check, unavailable,
}
use bloom_service_runtime.PlatformContainment.Fresh.{Attested, check_iff}

abbrev build : Digest32
build = record { text = codes "bbbb" }

abbrev status : NetworkContainmentStatus
status = record {
  schema = status_schema;
  login_uid = 501;
  build_digest = build;
  anchor_sha256 = build;
  trusted_time_source = codes "macos-managed-timed";
  automatic_time_enabled = false;
  timed_service_loaded = false;
  trusted_time_available = false;
  checked_at_unix_ms = 10_000;
  available = true;
  extension_claims = [];
}

abbrev guard : NetworkContainmentGuard
guard = record { path = codes "/s"; login_uid = 501; build_digest = build; maximum_age_ms = 5_000 }

abbrev parser : StatusParser
parser bytes = some status

abbrev at_time : ℕ → Surroundings
at_time now = record {
  metadata = some (record {
    file_type = regular;
    uid = 0;
    gid = 0;
    mode = 0o100644;
    nlink = 1;
    device = 1;
    inode = 1;
    modified = (0, 0);
    changed = (0, 0);
  });
  clock_ms = some now;
  contents = some (codes "{}");
}

-- Fresh to the millisecond at both ends.
test_check :
    (check parser (at_time 15_000) guard ≡ ok tt)
    × (check parser (at_time 15_001) guard ≡ err unavailable)
    × (check parser (at_time 9_000) guard ≡ ok tt)
    × (check parser (at_time 8_999) guard ≡ err unavailable)
unfolding check read_validated_status validate_status list_beq
test_check = (refl, refl, refl, refl)

check_iff_example :
    ((check parser (at_time 15_000) guard ≡ ok tt) ↔ Attested parser (at_time 15_000) guard)
    × ((check parser (at_time 15_000) guard ≡ ok tt)
        ⊎ (check parser (at_time 15_000) guard ≡ err unavailable))
check_iff_example = check_iff parser (at_time 15_000) guard
