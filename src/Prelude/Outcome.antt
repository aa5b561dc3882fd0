-- ===== src/Prelude/Outcome.antt =====
-- `Result<T, E>` of Rust, with `?` as the bind of a `do` block.
use mathlib.Core.Path.{◌≡◌, refl}
use mathlib.Core.Logic.{◌⊎◌, ◌↔◌, inl, inr}
use mathlib.Core.Bool.{Bool, true, false}
use mathlib.Core.Option.{Option, none, some}

pub data Result {ℓ κ} (A : Type ℓ) (E : Type κ) : Type (ℓ ⊔ κ) where
  ok : A → Result A E
  err : E → Result A E

infixl 5 ◌>>=◌ ◌>>◌
abbrev pub ◌>>=◌ {ℓ κ ι} :
    {A : Type ℓ} {B : Type κ} {E : Type ι} → Result A E → (A → Result B E) → Result B E
ok a >>= next = next a
err e >>= next = err e

-- `if failed { return Err(e) }`
abbrev pub reject_if {ι} : {E : Type ι} → Bool → E → Result (Unit {0}) E
reject_if true e = err e
reject_if false e = ok tt

-- `ok_or`
abbrev pub ok_or {ℓ ι} : {A : Type ℓ} {E : Type ι} → Option A → E → Result A E
ok_or none e = err e
ok_or (some a) e = ok a

-- A check and what follows it.
abbrev pub ◌>>◌ {κ ι} : {B : Type κ} {E : Type ι} → Result (Unit {0}) E → Result B E → Result B E
m >> k = m >>= λ _. k

-- `map_err`
abbrev pub map_err {ℓ κ ι} :
    {A : Type ℓ} {E : Type κ} {F : Type ι} → (E → F) → Result A E → Result A F
map_err f (ok a) = ok a
map_err f (err e) = err (f e)

-- Inversion of a successful bind, for proofs where the parts stay shut.
pub >>=-eq-ok {ℓ κ ι} :
    {A : Type ℓ} {B : Type κ} {E : Type ι} (first : Result A E) (next : A → Result B E) {last : B}
    → (first >>= next) ≡ ok last
    → (value : A) × (first ≡ ok value) × (next value ≡ ok last)
>>=-eq-ok (ok value) next done = (value, refl, done)
>>=-eq-ok (err e) next done = cc

pub Result-cases {ℓ ι} :
    {A : Type ℓ} {E : Type ι} (r : Result A E) → ((a : A) × (r ≡ ok a)) ⊎ ((e : E) × (r ≡ err e))
Result-cases (ok a) = inl (a, refl)
Result-cases (err e) = inr (e, refl)

-- A chain of checks succeeds exactly if each does.
pub >>-eq-ok {ι} :
    {E : Type ι} (m k : Result (Unit {0}) E) → ((m >> k) ≡ ok tt) ↔ ((m ≡ ok tt) × (k ≡ ok tt))
>>-eq-ok (ok tt) k = (λ h. (refl, h), λ h. h.1)
>>-eq-ok (err e) k = (λ h. cc, λ h. cc)

pub ok_or-eq-ok {ℓ ι} :
    {A : Type ℓ} {E : Type ι} (o : Option A) (e : E) {a : A} → ok_or o e ≡ ok a → o ≡ some a
ok_or-eq-ok none e h = cc
ok_or-eq-ok (some a) e h = cc

pub map_err-eq-ok {ℓ κ ι} :
    {A : Type ℓ} {E : Type κ} {F : Type ι} (f : E → F) (m : Result A E) {a : A}
    → map_err f m ≡ ok a
    → m ≡ ok a
map_err-eq-ok f (ok a) h = cc
map_err-eq-ok f (err e) h = cc

pub reject_if-eq-ok {ι} : {E : Type ι} (b : Bool) (e : E) → (reject_if b e ≡ ok tt) ↔ (b ≡ false)
reject_if-eq-ok true e = (λ h. cc, λ h. cc)
reject_if-eq-ok false e = (λ h. refl, λ h. refl)

-- Every error of this result is `e`.
pub record FailsWith {ℓ ι} {A : Type ℓ} {E : Type ι} (e : E) (r : Result A E) : Type (ℓ ⊔ ι) where
  pub only : (e' : E) → r ≡ err e' → e' ≡ e

pub >>=-FailsWith {ℓ κ ι} :
    {A : Type ℓ} {B : Type κ} {E : Type ι} {e : E} {m : Result A E} {f : A → Result B E}
    → FailsWith e m
    → ((a : A) → FailsWith e (f a))
    → FailsWith e (m >>= f)
>>=-FailsWith {m = ok a} p q = q a
>>=-FailsWith {m = err e'} p q = record { only = λ e'' h. p.only e'' cc }

pub ok_or-FailsWith {ℓ ι} :
    {A : Type ℓ} {E : Type ι} {e : E} (o : Option A) → FailsWith e (ok_or o e)
ok_or-FailsWith none = record { only = λ e' h. cc }
ok_or-FailsWith (some a) = record { only = λ e' h. cc }

pub reject_if-FailsWith {ι} : {E : Type ι} {e : E} (b : Bool) → FailsWith e (reject_if b e)
reject_if-FailsWith true = record { only = λ e' h. cc }
reject_if-FailsWith false = record { only = λ e' h. cc }

pub ok-FailsWith {ℓ ι} : {A : Type ℓ} {E : Type ι} {e : E} {a : A} → FailsWith {E = E} e (ok a)
ok-FailsWith = record { only = λ e' h. cc }

pub ok_injective {ℓ ι} :
    {A : Type ℓ} {E : Type ι} {a b : A} → ◌≡◌ {A = Result A E} (ok a) (ok b) → a ≡ b
ok_injective h = cc h

pub some_injective {ℓ} : {A : Type ℓ} {a b : A} → some a ≡ some b → a ≡ b
some_injective h = cc h
