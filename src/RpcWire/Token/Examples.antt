-- ===== src/RpcWire/Token/Examples.antt =====
-- Token texts of the crate's tests.
use bloom_service_runtime.Prelude.{codes, ok, err, ◌≡◌, refl}
use bloom_service_runtime.RpcWire.Error.{wire_error, malformed_frame}
use bloom_service_runtime.RpcWire.Token.{token_new}

test_token :
    token_new (codes "aws-kms.eu_west-2") ≡ ok (record { text = codes "aws-kms.eu_west-2" })
unfolding token_new
test_token = refl

test_token_refused :
    (token_new (codes "Upper") ≡ err (wire_error malformed_frame))
    × (token_new (codes ".leading") ≡ err (wire_error malformed_frame))
    × (token_new (codes "a b") ≡ err (wire_error malformed_frame))
    × (token_new (codes "") ≡ err (wire_error malformed_frame))
unfolding token_new
test_token_refused = (refl, refl, refl, refl)
