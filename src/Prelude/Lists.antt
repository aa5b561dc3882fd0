-- ===== src/Prelude/Lists.antt =====
-- Lists measured by native numbers, under the library's names, and texts as their UTF-8 bytes.
use Prim.Native.Nat.{ℕ, zero, suc, ◌+◌, ◌<◌}
use Prim.Native.Char.{code}
use Prim.Native.String.{String}
use mathlib.Core.Path.{◌≡◌, refl, sym, ap, ap₂}
use mathlib.Core.Logic.{◌↔◌, ◌≢◌}
use mathlib.Core.Bool.{Bool, true, ◌&&◌}
use mathlib.Core.List.{List, [], ◌∷◌, ◌++◌}
use native.Mathlib.Omega.{arith}

module _ {ℓ} {A : Type ℓ} where
  abbrev pub length : List A → ℕ
  length [] = 0
  length (x ∷ xs) = suc (length xs)

  pub length-append : (xs ys : List A) → length (xs ++ ys) ≡ length xs + length ys
  length-append [] ys = omega arith
  length-append (x ∷ xs) ys = omega (arith, length-append xs ys)

  abbrev pub take : ℕ → List A → List A
  take zero xs = []
  take (suc n) [] = []
  take (suc n) (x ∷ xs) = x ∷ take n xs

  abbrev pub drop : ℕ → List A → List A
  drop zero xs = xs
  drop (suc n) [] = []
  drop (suc n) (x ∷ xs) = drop n xs

  pub take-append : (xs ys : List A) → take (length xs) (xs ++ ys) ≡ xs
  take-append [] ys = refl
  take-append (x ∷ xs) ys = ap (◌∷◌ x) (take-append xs ys)

  pub drop-append : (xs ys : List A) → drop (length xs) (xs ++ ys) ≡ ys
  drop-append [] ys = refl
  drop-append (x ∷ xs) ys = drop-append xs ys

  -- `iter().all(p)`
  unfoldable pub all : (A → Bool) → List A → Bool
  all p [] = true
  all p (x ∷ xs) = p x && all p xs

  abbrev pub All {κ} : (A → Type κ) → List A → Type κ
  All P [] = Unit {κ}
  All P (x ∷ xs) = P x × All P xs

  pub All-append {κ} : (P : A → Type κ) (xs ys : List A) → All P xs → All P ys → All P (xs ++ ys)
  All-append P [] ys h k = k
  All-append P (x ∷ xs) ys h k = (h.0, All-append P xs ys h.1 k)

  pub All-weaken {κ ι} :
      (P : A → Type κ) (Q : A → Type ι) (xs : List A) → ((x : A) → P x → Q x) → All P xs → All Q xs
  All-weaken P Q [] f h = tt
  All-weaken P Q (x ∷ xs) f h = (f x h.0, All-weaken P Q xs f h.1)

  pub all_iff : (p : A → Bool) (xs : List A) → (all p xs ≡ true) ↔ All (λ x. p x ≡ true) xs
  unfolding all
  all_iff p [] = ground arith
  all_iff p (x ∷ xs) = ground (arith, all_iff p xs)

-- Bytes and UTF-8 texts of the source.
abbrev pub Bytes : Type 0
Bytes = List ℕ

abbrev pub IsBytes : Bytes → Type 0
IsBytes = All (λ b. b < 256)

-- An ASCII literal, as its bytes.
abbrev pub codes : String → Bytes
codes String.[] = []
codes (String.◌∷◌ c s) = code c ∷ codes s

module _ {ℓ} {A : Type ℓ} where
  -- Two splits of one list at one length are the same split.
  pub append_injective :
      (xs ys : List A) {us vs : List A}
      → length xs ≡ length ys
      → xs ++ us ≡ ys ++ vs
      → (xs ≡ ys) × (us ≡ vs)
  append_injective [] [] e h = (refl, h)
  append_injective [] (y ∷ ys) e h = absurd (omega arith)
  append_injective (x ∷ xs) [] e h = absurd (omega arith)
  append_injective (x ∷ xs) (y ∷ ys) e h =
      let first : x ≡ y = cc h in
      let rest = append_injective xs ys (omega arith) (cc h) in (ap₂ ◌∷◌ first rest.0, rest.1)

-- Two splits of one text at its first zero byte are the same split.
pub split_injective :
    (xs ys : Bytes) {us vs : Bytes}
    → All (λ b. b ≢ 0) xs
    → All (λ b. b ≢ 0) ys
    → xs ++ 0 ∷ us ≡ ys ++ 0 ∷ vs
    → (xs ≡ ys) × (us ≡ vs)
split_injective [] [] hx hy h = (refl, cc h)
split_injective [] (y ∷ ys) hx hy h = absurd (hy.0 (sym (cc h)))
split_injective (x ∷ xs) [] hx hy h = absurd (hx.0 (cc h))
split_injective (x ∷ xs) (y ∷ ys) hx hy h =
    let first : x ≡ y = cc h in
    let rest = split_injective xs ys hx.1 hy.1 (cc h) in (ap₂ ◌∷◌ first rest.0, rest.1)
