-- ===== src/ServiceActivation/Adopted.antt =====
-- What `load` adopts (crates/bloom-service-activation/src/lib.rs).
use bloom_service_runtime.Prelude.{
  ℕ, suc, ◌+◌, ◌≤◌, ◌<◌, Bytes, true, false, not, Option, none, some, List, [], ◌∷◌, ◌++◌, map, All,
  All-weaken, ok, >>=-eq-ok, ok_or, ok_or-eq-ok, reject_if, reject_if-eq-ok, ok_injective, ltb,
  ◌==◌, ◌!=◌, ◌||◌, length, nat_eq, list_eq, u64_max, lookup, insert, ◌≡◌, ◌≢◌, refl, sym, ap,
  subst, ◌∙◌, arith,
}
use mathlib.Core.List.{append-nil, append_assoc}
use bloom_service_runtime.ServiceActivation.{
  Descriptors, rejected, is_some, invalid_name, collect_named, named_activation, Process, u32_max,
  i32_max, split_names, parse_variable, identifies, adopt_descriptors, load,
}

abbrev pub numbers : Descriptors → List ℕ
numbers = map (λ (d : Bytes × ℕ). d.1)

-- No descriptor stands twice in the list.
unfoldable pub Distinct : List ℕ → Type 0
Distinct [] = Unit
Distinct (d ∷ ds) = All (λ e. e ≢ d) ds × Distinct ds

insert_fresh :
    (name : Bytes) (descriptor : ℕ) (named : Descriptors)
    → lookup name named ≡ none
    → insert name descriptor named ≡ named ++ (name, descriptor) ∷ []
unfolding lookup insert
insert_fresh name descriptor [] h = refl
insert_fresh name descriptor ((other, d) ∷ named) h =
    ground (arith, insert_fresh name descriptor named)

is_some_iff : (o : Option ℕ) → is_some o ≡ false → o ≡ none
is_some_iff none h = refl
is_some_iff (some d) h = cc

collected :
    (named descriptors : Descriptors) {all : Descriptors}
    → collect_named named descriptors ≡ ok all
    → all ≡ named ++ descriptors
unfolding collect_named
collected named [] h = sym (ok_injective h) ∙ sym (append-nil named)
collected named ((name, d) ∷ descriptors) h =
    let (_, a, h1) = >>=-eq-ok (reject_if (invalid_name name) rejected) _ h in
    let (_, b, h2) = >>=-eq-ok (reject_if (is_some (lookup name named)) rejected) _ h1 in
    let fresh =
      insert_fresh name d named (is_some_iff (lookup name named) ((reject_if-eq-ok _ _).0 b)) in
    collected (insert name d named) descriptors h2
    ∙ ap (λ (l : Descriptors). l ++ descriptors) fresh
    ∙ append_assoc named ((name, d) ∷ []) descriptors

-- The names with the numbers from this one on.
unfoldable pub numbered : ℕ → List Bytes → Descriptors
numbered d [] = []
numbered d (name ∷ names) = (name, d) ∷ numbered (suc d) names

numbered-All :
    (least most d : ℕ) (names : List Bytes)
    → least ≤ d
    → d + length names ≤ most
    → All (λ e. (least ≤ e) × (e < most)) (numbers (numbered d names))
unfolding numbered
numbered-All least most d [] low high = tt
numbered-All least most d (name ∷ names) low high = (
  (low, omega (arith, high)),
  numbered-All least most (suc d) names (omega (arith, low)) (omega (arith, high)),
)

pub numbered-Distinct : (d : ℕ) (names : List Bytes) → Distinct (numbers (numbered d names))
unfolding Distinct numbered
numbered-Distinct d [] = tt
numbered-Distinct d (name ∷ names) = (
  All-weaken (λ e. (suc d ≤ e) × (e < suc d + length names)) (λ e. e ≢ d) _
      (λ e bounds same. omega (arith, bounds, same))
      (numbered-All (suc d) (suc d + length names) (suc d) names (omega arith) (omega arith)),
  numbered-Distinct (suc d) names,
)

adopted :
    (p : Process) (index d : ℕ) (names : List Bytes) {descriptors : Descriptors}
    → 3 + index ≡ d
    → adopt_descriptors p index names ≡ ok descriptors
    → (descriptors ≡ numbered d names) × All (λ n. p.is_open n ≡ true) (numbers (numbered d names))
unfolding adopt_descriptors numbered
adopted p index d [] at h = (sym (ok_injective h), tt)
adopted p index d (name ∷ names) at h =
    let (_, a, h1) = >>=-eq-ok (reject_if (ltb i32_max index) rejected) _ h in
    let (_, b, h2) = >>=-eq-ok (reject_if (ltb i32_max (3 + index)) rejected) _ h1 in
    let (_, c, h3) = >>=-eq-ok (reject_if (not (p.is_open (3 + index))) rejected) _ h2 in
    let (rest, f, h4) = >>=-eq-ok (adopt_descriptors p (suc index) names) _ h3 in
    let (same, opened) = adopted p (suc index) (suc d) names (omega (arith, at)) f in
    (
      sym (ok_injective h4)
          ∙ ap (λ (l : Descriptors). (name, 3 + index) ∷ l) same
          ∙ ap (λ (n : ℕ). (name, n) ∷ numbered (suc d) names) at,
      (subst (λ (n : ℕ). p.is_open n ≡ true) at (ground (arith, c)), opened),
    )

-- What a service that systemd started may take: its own descriptors, one for each name that
-- systemd lists, numbered from 3 on, and all of them open.
pub record Loaded (p : Process) (descriptors : Descriptors) : Type 0 where
  pub pid : parse_variable u32_max p.listen_pid ≡ some p.id
  pub listed : Bytes
  pub names : p.listen_fdnames ≡ some listed
  pub count : parse_variable u64_max p.listen_fds ≡ some (length (split_names listed))
  pub some_given : 0 < length (split_names listed)
  pub few_given : length (split_names listed) ≤ 1_024
  pub given : descriptors ≡ numbered 3 (split_names listed)
  pub opened : All (λ d. p.is_open d ≡ true) (numbers descriptors)

identifies_iff : (o : Option ℕ) (id : ℕ) → identifies o id ≡ true → o ≡ some id
identifies_iff none id h = cc
identifies_iff (some pid) id h = ground (arith, h)

pub load-Loaded :
    (p : Process) {descriptors : Descriptors} → load p ≡ ok descriptors → Loaded p descriptors
unfolding load named_activation
load-Loaded p {descriptors} h =
    let (count, a, h1) = >>=-eq-ok (ok_or (parse_variable u64_max p.listen_fds) rejected) _ h in
    let (_, b, h2) =
      >>=-eq-ok (reject_if (not (identifies (parse_variable u32_max p.listen_pid) p.id)) rejected) _
        h1 in
    let (_, c, h3) = >>=-eq-ok (reject_if (count == 0 || ltb 1_024 count) rejected) _ h2 in
    let (listed, d, h4) = >>=-eq-ok (ok_or p.listen_fdnames rejected) _ h3 in
    let (_, e, h5) = >>=-eq-ok (reject_if (length (split_names listed) != count) rejected) _ h4 in
    let (found, f, h6) = >>=-eq-ok (adopt_descriptors p 0 (split_names listed)) _ h5 in
    let (same, opened) = adopted p 0 3 (split_names listed) refl f in
    let all : descriptors ≡ numbered 3 (split_names listed) = collected [] found h6 ∙ same in
    let counted : count ≡ length (split_names listed) = ground (arith, e) in
    record {
      pid = identifies_iff (parse_variable u32_max p.listen_pid) p.id (ground (arith, b));
      listed = listed;
      names = ok_or-eq-ok _ _ d;
      count = ok_or-eq-ok _ _ a ∙ ap some counted;
      some_given = ground (arith, c, counted);
      few_given = ground (arith, c, counted);
      given = all;
      opened =
          subst (λ (l : Descriptors). All (λ d. p.is_open d ≡ true) (numbers l)) (sym all) opened;
    }

-- A descriptor that systemd can have handed over, and that is open.
pub record IsInherited (p : Process) (d : ℕ) : Type 0 where
  pub low : 3 ≤ d
  pub high : d < 1_027
  pub is_open : p.is_open d ≡ true

inherited :
    (p : Process) (ds : List ℕ)
    → All (λ d. (3 ≤ d) × (d < 1_027)) ds
    → All (λ d. p.is_open d ≡ true) ds
    → All (IsInherited p) ds
inherited p [] bounds opened = tt
inherited p (d ∷ ds) bounds opened = (
  record { low = bounds.0.0; high = bounds.0.1; is_open = opened.0 },
  inherited p ds bounds.1 opened.1,
)

pub loaded-IsInherited :
    (p : Process) {descriptors : Descriptors}
    → Loaded p descriptors
    → All (IsInherited p) (numbers descriptors)
loaded-IsInherited p l =
    inherited p _
      (subst (λ (d : Descriptors). All (λ n. (3 ≤ n) × (n < 1_027)) (numbers d)) (sym l.given)
        (numbered-All 3 1_027 3 (split_names l.listed) (omega arith) (omega (arith, l.few_given))))
      l.opened
