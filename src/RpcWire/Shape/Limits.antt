-- ===== src/RpcWire/Shape/Limits.antt =====
-- What a value of an accepted shape is (crates/bloom-rpc-wire/src/codec.rs).
use bloom_service_runtime.Prelude.{ℕ, suc, ◌+◌, ◌≤◌, max, length, ok, err, ◌≡◌, ◌↔◌, ◌⊎◌, arith}
use bloom_service_runtime.RpcWire.Error.{wire_error, limit_exceeded_frame}
use bloom_service_runtime.RpcWire.Shape.{
  Value, null, boolean, number, string, array, object, Values, nil, cons, Entries, end, entry,
  count, validate_json_shape, validate_values, validate_entries,
}

-- How deep a value nests: a scalar is 1 deep.
unfoldable mutual
  pub depth_of : Value → ℕ
  depth_of null = 1
  depth_of (boolean b) = 1
  depth_of (number n) = 1
  depth_of (string s) = 1
  depth_of (array vs) = suc (depth_of_values vs)
  depth_of (object es) = suc (depth_of_entries es)

  pub depth_of_values : Values → ℕ
  depth_of_values nil = 0
  depth_of_values (cons v vs) = max (depth_of v) (depth_of_values vs)

  pub depth_of_entries : Entries → ℕ
  depth_of_entries end = 0
  depth_of_entries (entry key v es) = max (depth_of v) (depth_of_entries es)

-- Every string and key is at most 256 KiB long, and every list at most 256.
abbrev mutual
  pub Fits : Value → Type 0
  Fits null = Unit
  Fits (boolean b) = Unit
  Fits (number n) = Unit
  Fits (string s) = length s ≤ 262_144
  Fits (array vs) = (count vs ≤ 256) × FitsValues vs
  Fits (object es) = FitsEntries es

  pub FitsValues : Values → Type 0
  FitsValues nil = Unit
  FitsValues (cons v vs) = Fits v × FitsValues vs

  pub FitsEntries : Entries → Type 0
  FitsEntries end = Unit
  FitsEntries (entry key v es) = (length key ≤ 262_144) × Fits v × FitsEntries es

mutual
  unfolding validate_json_shape depth_of

  shape_iff :
      (v : Value) (d : ℕ) → (validate_json_shape v d ≡ ok tt) ↔ ((d + depth_of v ≤ 33) × Fits v)
  shape_iff null d = ground arith
  shape_iff (boolean b) d = ground arith
  shape_iff (number n) d = ground arith
  shape_iff (string s) d = ground arith
  shape_iff (array vs) d = ground (arith, values_iff vs d)
  shape_iff (object es) d = ground (arith, entries_iff es d)

  values_iff :
      (vs : Values) (d : ℕ)
      → d ≤ 32
      → (validate_values vs d ≡ ok tt) ↔ ((d + depth_of_values vs ≤ 32) × FitsValues vs)
  values_iff nil d h = ground arith
  values_iff (cons v vs) d h = ground (arith, shape_iff v (d + 1), values_iff vs d)

  entries_iff :
      (es : Entries) (d : ℕ)
      → d ≤ 32
      → (validate_entries es d ≡ ok tt) ↔ ((d + depth_of_entries es ≤ 32) × FitsEntries es)
  entries_iff end d h = ground arith
  entries_iff (entry key v es) d h = ground (arith, shape_iff v (d + 1), entries_iff es d)

mutual
  unfolding validate_json_shape

  shape_error :
      (v : Value) (d : ℕ)
      → (validate_json_shape v d ≡ ok tt)
        ⊎ (validate_json_shape v d ≡ err (wire_error limit_exceeded_frame))
  shape_error null d = ground arith
  shape_error (boolean b) d = ground arith
  shape_error (number n) d = ground arith
  shape_error (string s) d = ground arith
  shape_error (array vs) d = ground (arith, values_error vs d)
  shape_error (object es) d = ground (arith, entries_error es d)

  values_error :
      (vs : Values) (d : ℕ)
      → (validate_values vs d ≡ ok tt)
        ⊎ (validate_values vs d ≡ err (wire_error limit_exceeded_frame))
  values_error nil d = ground arith
  values_error (cons v vs) d = ground (arith, shape_error v (d + 1), values_error vs d)

  entries_error :
      (es : Entries) (d : ℕ)
      → (validate_entries es d ≡ ok tt)
        ⊎ (validate_entries es d ≡ err (wire_error limit_exceeded_frame))
  entries_error end d = ground arith
  entries_error (entry key v es) d = ground (arith, shape_error v (d + 1), entries_error es d)

-- From depth 1, as `decode_frame` calls it, a value is accepted exactly if it nests at most 32
-- deep, every string and key has at most 256 KiB, and every list at most 256 elements; any other
-- value is refused as a frame over a limit.
pub validate_json_shape_iff :
    (v : Value)
    → ((validate_json_shape v 1 ≡ ok tt) ↔ ((depth_of v ≤ 32) × Fits v))
      × ((validate_json_shape v 1 ≡ ok tt)
          ⊎ (validate_json_shape v 1 ≡ err (wire_error limit_exceeded_frame)))
validate_json_shape_iff v = (ground (arith, shape_iff v 1), shape_error v 1)
