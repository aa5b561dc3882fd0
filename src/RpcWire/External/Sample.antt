-- ===== src/RpcWire/External/Sample.antt =====
-- A concrete instance of the external crates, which shows that their laws can hold together: a hex
-- codec, the same codec in the place of base64, and a signature that is a padded copy of the
-- public key and the message.
use bloom_service_runtime.Prelude.{
  ℕ, zero, suc, ◌+◌, ◌-◌, ◌*◌, ◌/◌, ◌%◌, ◌<◌, Bytes, IsBytes, All, length, true, ◌&&◌, Option, none,
  some, [], ◌∷◌, ◌++◌, ◌≡◌, ◌≢◌, refl, ap, arith, leb, ltb, ◌==◌, nat_eq, list_eq, eq_refl,
  if◌then◌else◌,
}
use bloom_service_runtime.RpcWire.External.{External, IsHex, IsBase64, IsSigner, is_lower_hex}

unfoldable pub digit : ℕ → ℕ
digit d = if ltb d 10 then b'0' + d else 87 + d

unfoldable pub undigit : ℕ → ℕ
undigit c = if leb c b'9' then c - b'0' else c - 87

unfoldable pub encode : Bytes → Bytes
encode [] = []
encode (b ∷ bs) = digit (b / 16) ∷ digit (b % 16) ∷ encode bs

unfoldable pub cons? : ℕ → Option Bytes → Option Bytes
cons? b none = none
cons? b (some bs) = some (b ∷ bs)

unfoldable pub decode : Bytes → Option Bytes
decode [] = some []
decode (h ∷ []) = none
decode (h ∷ l ∷ bs) =
    let rest = cons? (undigit h * 16 + undigit l) (decode bs) in
    if is_lower_hex h && is_lower_hex l then rest else none

unfoldable pub pad : ℕ → Bytes → Bytes
pad zero bs = []
pad (suc n) [] = 0 ∷ pad n []
pad (suc n) (b ∷ bs) = (b % 256) ∷ pad n bs

abbrev pub sample : External
unfolding encode decode cons? digit undigit pad
sample = record {
  VerifyingKey = Bytes;
  verifying_key = λ key. if length key == 32 then some key else none;
  verify = λ key message signature. signature == pad 64 (key ++ message);
  sign = λ seed message. pad 64 (pad 32 seed ++ message);
  public_key = pad 32;
  sha256 = pad 32;
  base64_encode = encode;
  base64_decode = decode;
  hex_encode = encode;
  hex_decode = decode;
}

length-encode : (bs : Bytes) → length (encode bs) ≡ length bs * 2
unfolding encode
length-encode [] = refl
length-encode (b ∷ bs) = omega (arith, length-encode bs)

digit_lower : (d : ℕ) → d < 16 → is_lower_hex (digit d) ≡ true
unfolding digit
digit_lower d h = ground arith

encode_lower : (bs : Bytes) → IsBytes bs → All (λ b. is_lower_hex b ≡ true) (encode bs)
unfolding encode
encode_lower [] h = tt
encode_lower (b ∷ bs) h =
    (digit_lower (b / 16) (omega arith), (digit_lower (b % 16) (omega arith), encode_lower bs h.1))

undigit-digit : (d : ℕ) → d < 16 → undigit (digit d) ≡ d
unfolding digit undigit
undigit-digit d h = ground arith

decode-encode : (bs : Bytes) → IsBytes bs → decode (encode bs) ≡ some bs
unfolding encode decode cons?
decode-encode [] h = refl
decode-encode (b ∷ bs) h = ground (
  arith,
  digit_lower (b / 16),
  digit_lower (b % 16),
  undigit-digit (b / 16),
  undigit-digit (b % 16),
  decode-encode bs h.1,
)

digit-undigit :
    (h l : ℕ)
    → is_lower_hex h ≡ true
    → is_lower_hex l ≡ true
    → (digit ((undigit h * 16 + undigit l) / 16) ≡ h)
      × (digit ((undigit h * 16 + undigit l) % 16) ≡ l)
unfolding digit undigit
digit-undigit h l p q = ground arith

decode_lower :
    (text : Bytes) (n : ℕ)
    → length text ≡ n * 2
    → All (λ b. is_lower_hex b ≡ true) text
    → (bs : Bytes) × (decode text ≡ some bs) × (length bs ≡ n) × (encode bs ≡ text)
unfolding decode encode cons?
decode_lower [] n e h = ([], refl, omega arith, refl)
decode_lower (c ∷ []) n e h = absurd (omega arith)
decode_lower (h ∷ l ∷ text) zero e low = absurd (omega arith)
decode_lower (h ∷ l ∷ text) (suc n) e low =
    let (bs, decoded, count, encoded) = decode_lower text n (omega arith) low.1.1 in
    let (high, less) = digit-undigit h l low.0 low.1.0 in
    ((undigit h * 16 + undigit l) ∷ bs, ground arith, ap suc count, ground arith)

pub sample-IsHex : IsHex sample
unfolding sample
sample-IsHex = record {
  length-encode = length-encode;
  encode_lower = encode_lower;
  decode-encode = decode-encode;
  decode_lower = decode_lower;
}

unpadded : (bs : Bytes) → All (λ b. is_lower_hex b ≡ true) bs → All (λ b. b ≢ b'=') bs
unpadded [] h = tt
unpadded (b ∷ bs) h = (ground arith, unpadded bs h.1)

pub sample-IsBase64 : IsBase64 sample
unfolding sample
sample-IsBase64 = record {
  encode_unpadded = λ bs h. unpadded (encode bs) (encode_lower bs h);
  decode-encode = decode-encode;
}

length-pad : (n : ℕ) (bs : Bytes) → length (pad n bs) ≡ n
unfolding pad
length-pad zero bs = refl
length-pad (suc n) [] = ap suc (length-pad n [])
length-pad (suc n) (b ∷ bs) = ap suc (length-pad n bs)

IsBytes-pad : (n : ℕ) (bs : Bytes) → IsBytes (pad n bs)
unfolding pad
IsBytes-pad zero bs = tt
IsBytes-pad (suc n) [] = (omega arith, IsBytes-pad n [])
IsBytes-pad (suc n) (b ∷ bs) = (omega arith, IsBytes-pad n bs)

pub sample-IsSigner : IsSigner sample
unfolding sample
sample-IsSigner = record {
  length-sign = λ seed message. length-pad 64 _;
  IsBytes-sign = λ seed message. IsBytes-pad 64 _;
  length-public_key = length-pad 32;
  verify-sign = λ seed message.
      (pad 32 seed, rw (length-pad 32 seed), eq_refl (pad 64 (pad 32 seed ++ message)));
}
