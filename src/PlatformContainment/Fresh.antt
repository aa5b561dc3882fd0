-- ===== src/PlatformContainment/Fresh.antt =====
-- When a containment status is accepted (crates/bloom-platform-containment/src/lib.rs).
use bloom_service_runtime.Prelude.{
  ℕ, ◌+◌, ◌≤◌, min, Bytes, Bool, true, Option, some, ok, err, >>=-eq-ok, reject_if, ◌≡◌, ◌↔◌, ◌⊎◌,
  inl, inr, refl, arith, u64_max, IsU64, ok_or, ok_or-eq-ok, to_u64, list_beq_iff, nat_eq,
  Result-cases, FailsWith, >>=-FailsWith, ok_or-FailsWith, reject_if-FailsWith, ok-FailsWith, not,
  ◌||◌, ◌!=◌, Bool, sym,
}
use bloom_service_runtime.FileSystem.{Metadata, is_file, is_symlink, regular, permissions}
use bloom_service_runtime.RpcWire.Error.{WireError}
use bloom_service_runtime.RpcWire.Hex.{Digest32, hex_beq_iff}
use bloom_service_runtime.PlatformContainment.{
  NetworkContainmentGuard, NetworkContainmentStatus, StatusParser, Surroundings, status_schema,
  validate_status, read_validated_status, check, unavailable,
}

-- A status of this schema, login and build that says the containment is up, and that was written
-- no more than a second ahead of the clock and no longer ago than the maximum age.
pub record IsFresh (status : NetworkContainmentStatus) (login_uid : ℕ) (build_digest : Digest32)
    (now maximum_age : ℕ) : Type 0 where
  pub schema : status.schema ≡ status_schema
  pub login : status.login_uid ≡ login_uid
  pub build : status.build_digest ≡ build_digest
  pub up : status.available ≡ true
  pub not_ahead : status.checked_at_unix_ms ≤ min (now + 1_000) u64_max
  pub not_old : now ≤ status.checked_at_unix_ms + maximum_age

validate_iff :
    (from_slice : StatusParser) (bytes : Bytes) (login_uid : ℕ) (build_digest : Digest32)
    (now maximum_age : ℕ) (status : NetworkContainmentStatus)
    → (validate_status from_slice bytes login_uid build_digest now maximum_age ≡ ok status)
      ↔ ((from_slice bytes ≡ some status) × IsFresh status login_uid build_digest now maximum_age)
unfolding validate_status
validate_iff from_slice bytes login_uid build_digest now maximum_age status =
    ground (
      arith,
      list_beq_iff status.schema status_schema,
      hex_beq_iff status.build_digest build_digest,
    )

-- The status file is a regular file of root, mode 0644, with one link.
pub record IsRootOwned (metadata : Metadata) : Type 0 where
  pub file : metadata.file_type ≡ regular
  pub uid : metadata.uid ≡ 0
  pub gid : metadata.gid ≡ 0
  pub mode : permissions metadata.mode ≡ 0o644
  pub links : metadata.nlink ≡ 1

pub record Attested (from_slice : StatusParser) (around : Surroundings)
    (guard : NetworkContainmentGuard) : Type 0 where
  pub metadata : Metadata
  pub now : ℕ
  pub bytes : Bytes
  pub status : NetworkContainmentStatus
  pub inspected : around.metadata ≡ some metadata
  pub owned : IsRootOwned metadata
  pub clock : around.clock_ms ≡ some now
  pub in_range : IsU64 now
  pub contents : around.contents ≡ some bytes
  pub parsed : from_slice bytes ≡ some status
  pub fresh : IsFresh status guard.login_uid guard.build_digest now guard.maximum_age_ms

validate_errs :
    (from_slice : StatusParser) (bytes : Bytes) (login_uid : ℕ) (build_digest : Digest32)
    (now maximum_age : ℕ)
    → FailsWith unavailable
        (validate_status from_slice bytes login_uid build_digest now maximum_age)
unfolding validate_status
validate_errs from_slice bytes login_uid build_digest now maximum_age =
    >>=-FailsWith (ok_or-FailsWith (from_slice bytes))
      λ status. >>=-FailsWith (reject_if-FailsWith _) λ _. ok-FailsWith

to_u64_iff : (n m : ℕ) → (to_u64 n ≡ some m) ↔ ((n ≡ m) × IsU64 m)
to_u64_iff n m = ground arith

clock_of :
    (clock : Option ℕ) (n m : ℕ) → clock ≡ some n → to_u64 n ≡ some m → (clock ≡ some m) × IsU64 m
clock_of clock n m e f = ground arith

-- The test by which the status file's metadata is rejected.
foreign : Metadata → Bool
foreign metadata =
    not (is_file metadata.file_type)
    || is_symlink metadata.file_type
    || metadata.uid != 0
    || metadata.gid != 0
    || permissions metadata.mode != 0o644
    || metadata.nlink != 1

owned_iff :
    (metadata : Metadata)
    → (reject_if (foreign metadata) unavailable ≡ ok tt) ↔ IsRootOwned metadata
unfolding foreign
owned_iff metadata = ground arith

module _ (from_slice : StatusParser) (around : Surroundings) (guard : NetworkContainmentGuard) where
  fails : FailsWith unavailable (check from_slice around guard)
  unfolding check read_validated_status
  fails =
      >>=-FailsWith
        (>>=-FailsWith (ok_or-FailsWith around.metadata) λ metadata.
          >>=-FailsWith (reject_if-FailsWith _) λ _.
            >>=-FailsWith (ok_or-FailsWith around.clock_ms) λ millis.
              >>=-FailsWith (ok_or-FailsWith (to_u64 millis)) λ now.
                >>=-FailsWith (ok_or-FailsWith around.contents)
                  λ bytes. validate_errs from_slice bytes _ _ now _)
        (λ status. ok-FailsWith)

  either :
      ((u : Unit {0}) × (check from_slice around guard ≡ ok u))
        ⊎ ((e : WireError) × (check from_slice around guard ≡ err e))
      → (check from_slice around guard ≡ ok tt) ⊎ (check from_slice around guard ≡ err unavailable)
  either (inl (u, h)) = inl h
  either (inr (e, h)) = inr (rw (sym (fails.only e h)) h)

  passed : check from_slice around guard ≡ ok tt → Attested from_slice around guard
  unfolding check read_validated_status foreign
  passed h =
      let (status, e, h1) = >>=-eq-ok (read_validated_status from_slice around guard) _ h in
      let (metadata, f, h2) = >>=-eq-ok (ok_or around.metadata _) _ e in
      let (u, owned, h3) = >>=-eq-ok (reject_if _ _) _ h2 in
      let (millis, g, h4) = >>=-eq-ok (ok_or around.clock_ms _) _ h3 in
      let (now, k, h5) = >>=-eq-ok (ok_or (to_u64 millis) _) _ h4 in
      let (bytes, l, h6) = >>=-eq-ok (ok_or around.contents _) _ h5 in
      let (parsed, fresh) = (validate_iff from_slice bytes _ _ now _ status).0 h6 in
      let clocked = clock_of around.clock_ms millis now (ok_or-eq-ok _ _ g) (ok_or-eq-ok _ _ k) in
      record {
        metadata = metadata;
        now = now;
        bytes = bytes;
        status = status;
        inspected = ok_or-eq-ok _ _ f;
        owned = (owned_iff metadata).0 owned;
        clock = clocked.0;
        in_range = clocked.1;
        contents = ok_or-eq-ok _ _ l;
        parsed = parsed;
        fresh = fresh;
      }

  passes : Attested from_slice around guard → check from_slice around guard ≡ ok tt
  unfolding check read_validated_status foreign
  passes a =
      let v =
        (validate_iff from_slice a.bytes guard.login_uid guard.build_digest a.now
            guard.maximum_age_ms a.status).1
          (a.parsed, a.fresh) in
      rw
        (
          a.inspected,
          (owned_iff a.metadata).1 a.owned,
          a.clock,
          (to_u64_iff a.now a.now).1 (refl, a.in_range),
          a.contents,
          v,
        )
        refl

-- The check passes exactly if the status file could be inspected and read, is a regular file of
-- root with mode 0644 and one link, and holds a status of this schema, login and build that
-- says the containment is up and that is neither more than a second ahead of the clock nor
-- older than the maximum age. Whatever fails, the error is an unavailable service. The time
-- claims of the status take no part.
pub check_iff :
    (from_slice : StatusParser) (around : Surroundings) (guard : NetworkContainmentGuard)
    → ((check from_slice around guard ≡ ok tt) ↔ Attested from_slice around guard)
      × ((check from_slice around guard ≡ ok tt)
          ⊎ (check from_slice around guard ≡ err unavailable))
check_iff from_slice around guard = (
  (passed from_slice around guard, passes from_slice around guard),
  either from_slice around guard (Result-cases (check from_slice around guard)),
)
