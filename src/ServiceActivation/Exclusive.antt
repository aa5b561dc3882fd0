-- ===== src/ServiceActivation/Exclusive.antt =====
-- Who owns a descriptor (crates/bloom-service-activation/src/lib.rs).
use bloom_service_runtime.Prelude.{
  ℕ, Bytes, Bool, true, false, Option, none, some, some_injective, List, [], ◌∷◌, All, Result, ok,
  err, ok_or, list_eq, nat_eq, lookup, remove, ◌==◌, ◌≡◌, ◌≢◌, ◌⊎◌, inl, inr, refl, sym, subst,
  if◌then◌else◌,
}
use bloom_service_runtime.ServiceActivation.{
  Descriptors, ActivationError, rejected, invalid_name, take_named, Process, load, Activation,
  get_or_init, take, take_fd, split_names,
}
use bloom_service_runtime.ServiceActivation.Adopted.{
  numbers, Distinct, numbered-Distinct, IsInherited, load-Loaded, loaded-IsInherited,
}

abbrev onto : Result ℕ ActivationError → List ℕ → List ℕ
onto (err e) taken = taken
onto (ok d) taken = d ∷ taken

-- The descriptors that a process takes by these names, one after the other.
unfoldable pub takes : Process → List Bytes → Activation → List ℕ
unfolding take_fd
takes p [] activation = []
takes p (name ∷ names) activation =
    let (taken, rest) = take_fd p name activation in onto taken (takes p names rest)

-- What holds of both branches.
both {ℓ} : {A : Type 0} (P : A → Type ℓ) (b : Bool) {x y : A} → P x → P y → P (if b then x else y)
both P true p q = p
both P false p q = q

remove-All :
    (P : ℕ → Type 0) (name : Bytes) (named : Descriptors)
    → All P (numbers named)
    → All P (numbers (remove name named))
unfolding remove
remove-All P name [] h = tt
remove-All P name ((other, d) ∷ named) h =
    let rest = remove-All P name named h.1 in
    both (λ (l : Descriptors). All P (numbers l)) (other == name) rest (h.0, rest)

remove-Distinct :
    (name : Bytes) (named : Descriptors)
    → Distinct (numbers named)
    → Distinct (numbers (remove name named))
unfolding remove Distinct
remove-Distinct name [] h = tt
remove-Distinct name ((other, d) ∷ named) h =
    let rest = remove-Distinct name named h.1 in
    both (λ (l : Descriptors). Distinct (numbers l)) (other == name) rest
      (remove-All (λ e. e ≢ d) name named h.0, rest)

looked_up :
    (b : Bool) (d e : ℕ) (o : Option ℕ)
    → (if b then some e else o) ≡ some d
    → (e ≡ d) ⊎ (o ≡ some d)
looked_up true d e o h = inl (some_injective h)
looked_up false d e o h = inr h

lookup-All :
    (P : ℕ → Type 0) (name : Bytes) (named : Descriptors) {d : ℕ}
    → All P (numbers named)
    → lookup name named ≡ some d
    → P d
unfolding lookup
lookup-All P name [] h k = cc
lookup-All P name ((other, e) ∷ named) {d} h k =
    elim (looked_up (other == name) d e (lookup name named) k) [
      | inl same ↦ subst P same h.0
      | inr later ↦ lookup-All P name named h.1 later
    ]

excluded_step :
    (b : Bool) (other : Bytes) (d e : ℕ) (o : Option ℕ) (rest : Descriptors)
    → (if b then some e else o) ≡ some d
    → (e ≡ d → All (λ n. n ≢ d) (numbers rest))
    → (o ≡ some d → (e ≢ d) × All (λ n. n ≢ d) (numbers rest))
    → All (λ n. n ≢ d) (numbers (if b then rest else (other, e) ∷ rest))
excluded_step true other d e o rest h first later = first (some_injective h)
excluded_step false other d e o rest h first later = later h

-- A descriptor that is taken is not among the ones that are left.
excluded :
    (name : Bytes) (named : Descriptors) {d : ℕ}
    → Distinct (numbers named)
    → lookup name named ≡ some d
    → All (λ n. n ≢ d) (numbers (remove name named))
unfolding lookup remove Distinct
excluded name [] h k = tt
excluded name ((other, e) ∷ named) {d} h k =
    excluded_step (other == name) other d e (lookup name named) (remove name named) k
      (λ same.
        subst (λ (n : ℕ). All (λ m. m ≢ n) (numbers (remove name named))) same
          (remove-All (λ m. m ≢ e) name named h.0))
      (λ later. (
        λ same. lookup-All (λ m. m ≢ e) name named h.0 later (sym same),
        excluded name named h.1 later,
      ))

-- The descriptors that a process still has to give out.
abbrev left : Result Descriptors ActivationError → List ℕ
left (err e) = []
left (ok named) = numbers named

record IsPart (new old : List ℕ) : Type 1 where
  pub all_of : (P : ℕ → Type 0) → All P old → All P new
  pub distinct_of : Distinct old → Distinct new

same-IsPart : (l : List ℕ) → IsPart l l
same-IsPart l = record { all_of = λ P h. h; distinct_of = λ h. h }

remove-IsPart :
    (name : Bytes) (named : Descriptors) → IsPart (numbers (remove name named)) (numbers named)
remove-IsPart name named = record {
  all_of = λ P. remove-All P name named;
  distinct_of = remove-Distinct name named;
}

-- One `take` of a process that has loaded its descriptors.
data Step (loaded : Result Descriptors ActivationError) (r : Result ℕ ActivationError × Activation)
    : Type 1 where
  refused :
      (rest : Result Descriptors ActivationError) (e : ActivationError)
      → r ≡ (err e, some rest)
      → IsPart (left rest) (left loaded)
      → Step loaded r
  gave :
      (rest : Result Descriptors ActivationError) (d : ℕ)
      → r ≡ (ok d, some rest)
      → IsPart (left rest) (left loaded)
      → ((P : ℕ → Type 0) → All P (left loaded) → P d)
      → (Distinct (left loaded) → All (λ n. n ≢ d) (left rest))
      → Step loaded r

step_named :
    (name : Bytes) (named : Descriptors) (o : Option ℕ)
    → lookup name named ≡ o
    → Step (ok named) (ok_or o rejected, some (ok (remove name named)))
step_named name named none h =
    refused (ok (remove name named)) rejected refl (remove-IsPart name named)
step_named name named (some d) h =
    gave (ok (remove name named)) d refl (remove-IsPart name named)
      (λ P k. lookup-All P name named k h) (λ k. excluded name named k h)

step_take :
    (p : Process) (name : Bytes) (loaded : Result Descriptors ActivationError)
    → Step loaded (take p name (some loaded))
unfolding take get_or_init take_named
step_take p name (err e) = refused (err e) e refl (same-IsPart [])
step_take p name (ok named) = step_named name named (lookup name named) refl

step :
    (p : Process) (name : Bytes) (loaded : Result Descriptors ActivationError)
    → Step loaded (take_fd p name (some loaded))
unfolding take_fd
step p name loaded =
    both (Step loaded) (invalid_name name)
      (refused loaded rejected refl (same-IsPart (left loaded))) (step_take p name loaded)

takes-All :
    (P : ℕ → Type 0) (p : Process) (names : List Bytes)
    (loaded : Result Descriptors ActivationError)
    → All P (left loaded)
    → All P (takes p names (some loaded))
unfolding takes
takes-All P p [] loaded h = tt
takes-All P p (name ∷ names) loaded h = elim (step p name loaded) [
  | refused rest e same part ↦ rw same (takes-All P p names rest (part.all_of P h))
  | gave rest d same part owned apart ↦
      rw same (owned P h, takes-All P p names rest (part.all_of P h))
]

takes-Distinct :
    (p : Process) (names : List Bytes) (loaded : Result Descriptors ActivationError)
    → Distinct (left loaded)
    → Distinct (takes p names (some loaded))
unfolding takes Distinct
takes-Distinct p [] loaded h = tt
takes-Distinct p (name ∷ names) loaded h = elim (step p name loaded) [
  | refused rest e same part ↦ rw same (takes-Distinct p names rest (part.distinct_of h))
  | gave rest d same part owned apart ↦ rw same (
    takes-All (λ n. n ≢ d) p names rest (apart h),
    takes-Distinct p names rest (part.distinct_of h),
  )
]

fresh_step :
    (b : Bool) (p : Process) (names : List Bytes) (loaded : Result Descriptors ActivationError)
    (r : Result ℕ ActivationError × Activation)
    → takes p names none ≡ takes p names (some loaded)
    → onto
        (if b then (err rejected, none) else r).0
        (takes p names (if b then (err rejected, none) else r).1)
      ≡ onto
          (if b then (err rejected, some loaded) else r).0
          (takes p names (if b then (err rejected, some loaded) else r).1)
fresh_step true p names loaded r h = h
fresh_step false p names loaded r h = refl

-- The first take loads the descriptors.
takes-fresh :
    (p : Process) (names : List Bytes) → takes p names none ≡ takes p names (some (load p))
unfolding takes take_fd take get_or_init
takes-fresh p [] = refl
takes-fresh p (name ∷ names) =
    fresh_step (invalid_name name) p names (load p) (take p name (some (load p)))
      (takes-fresh p names)

given :
    (p : Process) (loaded : Result Descriptors ActivationError)
    → load p ≡ loaded
    → Distinct (left loaded) × All (IsInherited p) (left loaded)
unfolding Distinct
given p (err e) h = (tt, tt)
given p (ok named) h =
    let l = load-Loaded p h in
    (
      subst (λ (d : Descriptors). Distinct (numbers d)) (sym l.given)
          (numbered-Distinct 3 (split_names l.listed)),
      loaded-IsInherited p l,
    )

-- A process that systemd started takes descriptors by any names, one after the other. Then it
-- takes no descriptor twice, and each is one of its open descriptors with a number from 3 on and
-- below 1027.
pub takes_exclusive :
    (p : Process) (names : List Bytes)
    → Distinct (takes p names none) × All (IsInherited p) (takes p names none)
takes_exclusive p names =
    let (distinct, inherited) = given p (load p) refl in
    rw (takes-fresh p names) (
      takes-Distinct p names (load p) distinct,
      takes-All (IsInherited p) p names (load p) inherited,
    )
