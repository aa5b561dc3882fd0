-- ===== src/AuditCheckpoint/Chain/Sorted.antt =====
-- Sorting the records of the checkpoint store loses none and adds none.
use bloom_service_runtime.Prelude.{
  List, [], ◌∷◌, ◌++◌, Bool, true, false, ◌⊎◌, inl, inr, ◌≡◌, ◌↔◌, if-keeps, if◌then◌else◌,
}
use mathlib.Core.List.{reverse, reverse-cons}
use bloom_service_runtime.RpcWire.External.{External}
use bloom_service_runtime.AuditCheckpoint.Record.{CheckpointRecord}
use bloom_service_runtime.AuditCheckpoint.Keys.{Handovers}
use bloom_service_runtime.AuditCheckpoint.Chain.{
  record_order, is_less, insert_record, sort_onto, sort_records,
}

-- Where an element stands in a list.
pub data Member {ℓ} {A : Type ℓ} (a : A) : List A → Type ℓ where
  here : {b : A} {xs : List A} → b ≡ a → Member a (b ∷ xs)
  there : {b : A} {xs : List A} → Member a xs → Member a (b ∷ xs)

module _ {ℓ} {A : Type ℓ} where
  pub Member-append : (a : A) (xs ys : List A) → Member a xs ⊎ Member a ys → Member a (xs ++ ys)
  Member-append a [] ys (inl m) = elim m [ ]
  Member-append a [] ys (inr m) = m
  Member-append a (x ∷ xs) ys (inl (here e)) = here e
  Member-append a (x ∷ xs) ys (inl (there m)) = there (Member-append a xs ys (inl m))
  Member-append a (x ∷ xs) ys (inr m) = there (Member-append a xs ys (inr m))

  pub Member-split : (a : A) (xs ys : List A) → Member a (xs ++ ys) → Member a xs ⊎ Member a ys
  Member-split a [] ys m = inr m
  Member-split a (x ∷ xs) ys (here e) = inl (here e)
  Member-split a (x ∷ xs) ys (there m) = elim (Member-split a xs ys m) [
    | inl n ↦ inl (there n)
    | inr n ↦ inr n
  ]

  Member-reverse : (a : A) (xs : List A) → Member a xs → Member a (reverse xs)
  Member-reverse a [] m = elim m [ ]
  Member-reverse a (x ∷ xs) (here e) =
      rw (reverse-cons x xs) (Member-append a (reverse xs) _ (inr (here e)))
  Member-reverse a (x ∷ xs) (there n) =
      rw (reverse-cons x xs) (Member-append a (reverse xs) _ (inl (Member-reverse a xs n)))

  Member-of_reverse : (a : A) (xs : List A) → Member a (reverse xs) → Member a xs
  Member-of_reverse a [] m = m
  Member-of_reverse a (x ∷ xs) m =
      elim (Member-split a (reverse xs) (x ∷ []) (rw (reverse-cons x xs) at m)) [
        | inl n ↦ there (Member-of_reverse a xs n)
        | inr (here e) ↦ here e
        | inr (there n) ↦ elim n [ ]
      ]

module _ (x : External) (handovers : Handovers x) where
  Member-insert_record :
      (a r : CheckpointRecord) (rs : List CheckpointRecord)
      → (r ≡ a) ⊎ Member a rs
      → Member a (insert_record x handovers r rs)
  unfolding insert_record
  Member-insert_record a r [] (inl e) = here e
  Member-insert_record a r [] (inr n) = elim n [ ]
  Member-insert_record a r (s ∷ rs) (inl e) =
      if-keeps (Member a) (is_less (record_order x handovers r.peer_head s.peer_head))
        (there (Member-insert_record a r rs (inl e))) (here e)
  Member-insert_record a r (s ∷ rs) (inr (here e)) =
      if-keeps (Member a) (is_less (record_order x handovers r.peer_head s.peer_head)) (here e)
        (there (here e))
  Member-insert_record a r (s ∷ rs) (inr (there n)) =
      if-keeps (Member a) (is_less (record_order x handovers r.peer_head s.peer_head))
        (there (Member-insert_record a r rs (inr n))) (there (there n))

  Member-of_insert_record :
      (a r : CheckpointRecord) (rs : List CheckpointRecord)
      → Member a (insert_record x handovers r rs)
      → (r ≡ a) ⊎ Member a rs
  unfolding insert_record
  Member-of_insert_record a r [] (here e) = inl e
  Member-of_insert_record a r [] (there n) = elim n [ ]
  Member-of_insert_record a r (s ∷ rs) m =
      from_test (is_less (record_order x handovers r.peer_head s.peer_head))
        (Member-of_insert_record a r rs) m
    where
      from_test :
          (b : Bool)
          → (Member a (insert_record x handovers r rs) → (r ≡ a) ⊎ Member a rs)
          → Member a (if b then s ∷ insert_record x handovers r rs else r ∷ s ∷ rs)
          → (r ≡ a) ⊎ Member a (s ∷ rs)
      from_test true rest (here e) = inr (here e)
      from_test true rest (there n) = elim (rest n) [ inl e ↦ inl e | inr k ↦ inr (there k) ]
      from_test false rest (here e) = inl e
      from_test false rest (there n) = inr n

  Member-sort_onto :
      (a : CheckpointRecord) (sorted rs : List CheckpointRecord)
      → Member a sorted ⊎ Member a rs
      → Member a (sort_onto x handovers sorted rs)
  unfolding sort_onto
  Member-sort_onto a sorted [] (inl m) = m
  Member-sort_onto a sorted [] (inr m) = elim m [ ]
  Member-sort_onto a sorted (r ∷ rs) (inl m) =
      Member-sort_onto a (insert_record x handovers r sorted) rs
        (inl (Member-insert_record a r sorted (inr m)))
  Member-sort_onto a sorted (r ∷ rs) (inr (here e)) =
      Member-sort_onto a (insert_record x handovers r sorted) rs
        (inl (Member-insert_record a r sorted (inl e)))
  Member-sort_onto a sorted (r ∷ rs) (inr (there m)) =
      Member-sort_onto a (insert_record x handovers r sorted) rs (inr m)

  Member-of_sort_onto :
      (a : CheckpointRecord) (sorted rs : List CheckpointRecord)
      → Member a (sort_onto x handovers sorted rs)
      → Member a sorted ⊎ Member a rs
  unfolding sort_onto
  Member-of_sort_onto a sorted [] m = inl m
  Member-of_sort_onto a sorted (r ∷ rs) m =
      elim (Member-of_sort_onto a (insert_record x handovers r sorted) rs m) [
        | inl n ↦ elim (Member-of_insert_record a r sorted n) [
          | inl e ↦ inr (here e)
          | inr k ↦ inl k
        ]
        | inr n ↦ inr (there n)
      ]

  pub Member-sort_records :
      (a : CheckpointRecord) (rs : List CheckpointRecord)
      → Member a rs ↔ Member a (sort_records x handovers rs)
  unfolding sort_records
  Member-sort_records a rs = (
    λ m. Member-reverse a _ (Member-sort_onto a [] rs (inr m)),
    λ m. elim (Member-of_sort_onto a [] rs (Member-of_reverse a _ m)) [
      | inl n ↦ elim n [ ]
      | inr n ↦ n
    ],
  )
