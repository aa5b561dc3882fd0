-- ===== src/ServiceActivation.antt =====
-- The descriptors that a service manager hands over
-- (crates/bloom-service-activation/src/lib.rs). A descriptor is its number. `ACTIVATION` is the
-- state of the process: nothing until the first `take`, then what `load` gave, less the
-- descriptors that were taken. No code can panic while it holds the mutex, so that it is never
-- poisoned. A text that says what was rejected is left out.
pub mod Adopted
pub mod Exclusive
mod Examples
use bloom_service_runtime.Prelude.{
  ℕ, suc, ◌+◌, ◌-◌, ◌^◌, Bytes, codes, Bool, true, false, not, ◌||◌, Option, none, some, List, [],
  ◌∷◌, length, all, Result, ok, err, ◌>>=◌, ◌>>◌, ok_or, reject_if, ltb, ◌==◌, ◌!=◌, nat_eq,
  list_eq, u64_max, lookup, insert, remove, if◌then◌else◌,
}
use bloom_service_runtime.RpcWire.Decimal.{parse_unsigned}

pub data ActivationError : Type 0 where
  rejected : ActivationError

-- `NamedActivation`
abbrev pub Descriptors : Type 0
Descriptors = List (Bytes × ℕ)

abbrev pub is_some : Option ℕ → Bool
is_some none = false
is_some (some _) = true

abbrev pub is_empty : Bytes → Bool
is_empty [] = true
is_empty (_ ∷ _) = false

-- `name.is_empty() || name.as_bytes().contains(&0)`
abbrev pub invalid_name : Bytes → Bool
invalid_name name = is_empty name || not (all (λ b. b != 0) name)

-- The loop of `NamedActivation::new`, with the descriptors so far.
unfoldable pub collect_named : Descriptors → Descriptors → Result Descriptors ActivationError
unfolding all lookup insert
collect_named named [] = ok named
collect_named named ((name, descriptor) ∷ descriptors) = do
  reject_if (invalid_name name) rejected
  reject_if (is_some (lookup name named)) rejected
  collect_named (insert name descriptor named) descriptors

-- `NamedActivation::new`
unfoldable pub named_activation : Descriptors → Result Descriptors ActivationError
unfolding collect_named
named_activation descriptors = collect_named [] descriptors

-- `NamedActivation::take`
unfoldable pub take_named : Bytes → Descriptors → Result ℕ ActivationError × Descriptors
unfolding lookup remove
take_named name named = (ok_or (lookup name named) rejected, remove name named)

-- The process: its number, its environment, and which descriptors are open.
pub record Process : Type 0 where
  pub id : ℕ
  pub listen_pid : Option Bytes
  pub listen_fds : Option Bytes
  pub listen_fdnames : Option Bytes
  pub is_open : ℕ → Bool

abbrev pub u32_max : ℕ
u32_max = 2 ^ 32 - 1

abbrev pub i32_max : ℕ
i32_max = 2 ^ 31 - 1

abbrev pub onto_first : ℕ → List Bytes → List Bytes
onto_first b [] = (b ∷ []) ∷ []
onto_first b (name ∷ names) = (b ∷ name) ∷ names

-- `split(':')`
unfoldable pub split_names : Bytes → List Bytes
split_names [] = [] ∷ []
split_names (b ∷ bs) =
    let names = split_names bs in if b == b':' then [] ∷ names else onto_first b names

-- `parse::<u32>().ok()`, `parse::<usize>().ok()` with 64 bits, of a variable that may be missing.
abbrev pub parse_variable : ℕ → Option Bytes → Option ℕ
parse_variable limit none = none
parse_variable limit (some value) = parse_unsigned limit value

abbrev pub identifies : Option ℕ → ℕ → Bool
identifies none id = false
identifies (some pid) id = pid == id

-- The loop of `load` from this index on.
unfoldable pub adopt_descriptors : Process → ℕ → List Bytes → Result Descriptors ActivationError
adopt_descriptors p index [] = ok []
adopt_descriptors p index (name ∷ names) = do
  reject_if (ltb i32_max index) rejected
  reject_if (ltb i32_max (3 + index)) rejected
  reject_if (not (p.is_open (3 + index))) rejected
  rest ← adopt_descriptors p (suc index) names
  ok ((name, 3 + index) ∷ rest)

-- `load` of a service that systemd started
unfoldable pub load : Process → Result Descriptors ActivationError
unfolding parse_unsigned split_names adopt_descriptors named_activation
load p = do
  count ← ok_or (parse_variable u64_max p.listen_fds) rejected
  reject_if (not (identifies (parse_variable u32_max p.listen_pid) p.id)) rejected
  reject_if (count == 0 || ltb 1_024 count) rejected
  listed ← ok_or p.listen_fdnames rejected
  reject_if (length (split_names listed) != count) rejected
  descriptors ← adopt_descriptors p 0 (split_names listed)
  named_activation descriptors

-- `ACTIVATION`
abbrev pub Activation : Type 0
Activation = Option (Result Descriptors ActivationError)

-- `get_or_init`
unfoldable pub get_or_init : Process → Activation → Result Descriptors ActivationError
unfolding load
get_or_init p none = load p
get_or_init p (some loaded) = loaded

abbrev pub take_loaded :
    Bytes → Result Descriptors ActivationError → Result ℕ ActivationError × Activation
take_loaded name (err e) = (err e, some (err e))
take_loaded name (ok named) = let (taken, rest) = take_named name named in (taken, some (ok rest))

-- `take` of a service that systemd started
unfoldable pub take : Process → Bytes → Activation → Result ℕ ActivationError × Activation
unfolding get_or_init take_named
take p name activation = take_loaded name (get_or_init p activation)

-- `take_fd` on Linux
unfoldable pub take_fd : Process → Bytes → Activation → Result ℕ ActivationError × Activation
unfolding all take
take_fd p name activation =
    if invalid_name name then (err rejected, activation) else take p name activation
