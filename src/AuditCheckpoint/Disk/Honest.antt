-- ===== src/AuditCheckpoint/Disk/Honest.antt =====
-- Schedules whose writers only add files to the root of the checkpoint store, and actions that
-- keep the files that are there and the cache.
use bloom_service_runtime.Prelude.{
  Bytes, some, List, [], ◌∷◌, Result, ok, err, All, ◌≡◌, refl, ◌∙◌, list_eq, nat_eq, lookup,
}
use bloom_service_runtime.AuditCheckpoint.Record.{CheckpointError, Stop}
use bloom_service_runtime.AuditCheckpoint.Disk.{
  Action, Disk, World, Turn, fails, after, Entry, ◌>>=◌, syscall, chain, taken, annotate, lift,
}

-- What is in the root stays there.
pub record Grows (d d' : Disk) : Type 0 where
  pub keeps :
      (name : Bytes) (entry : Entry)
      → lookup name d.entries ≡ some entry
      → lookup name d'.entries ≡ some entry

pub Grows-refl : (d : Disk) → Grows d d
Grows-refl d = record { keeps = λ name entry h. h }

pub Grows-trans : {d e f : Disk} → Grows d e → Grows e f → Grows d f
Grows-trans g h = record { keeps = λ name entry p. h.keeps name entry (g.keeps name entry p) }

abbrev pub IsHonestTurn : Turn → Type 0
IsHonestTurn fails = Unit
IsHonestTurn (after change) = (d : Disk) → Grows d (change d)

abbrev pub IsHonest : List Turn → Type 0
IsHonest = All IsHonestTurn

-- From a world to a later one, with the cache as it was.
pub record Onward (w w' : World) : Type 0 where
  pub honest : IsHonest w'.schedule
  pub grown : Grows w.disk w'.disk
  pub cached : w'.cache ≡ w.cache

pub Onward-trans : {u v w : World} → Onward u v → Onward v w → Onward u w
Onward-trans a b = record {
  honest = b.honest;
  grown = Grows-trans a.grown b.grown;
  cached = b.cached ∙ a.cached;
}

pub Onward-refl : (w : World) → IsHonest w.schedule → Onward w w
Onward-refl w h = record { honest = h; grown = Grows-refl w.disk; cached = refl }

pub record IsQuiet {ℓ κ} {E : Type ℓ} {A : Type κ} (m : Action E A) : Type (ℓ ⊔ κ) where
  pub onward : (w : World) → IsHonest w.schedule → Onward w (m w).1

-- A chain of actions that succeeds: each of its two parts does.
pub >>=-succeeds {ℓ κ} :
    {E : Type ℓ} {A B : Type κ} (m : Action E A) (next : A → Action E B) (w : World) {b : B}
    → ((m >>= next) w).0 ≡ ok b
    → (a : A) × ((m w).0 ≡ ok a)
      × ((next a (m w).1).0 ≡ ok b)
      × (((m >>= next) w).1 ≡ (next a (m w).1).1)
>>=-succeeds {E = E} {A = A} {B = B} m next w {b} h = from_pair (m w) h
  where
    from_pair :
        (p : Result A (Stop E) × World)
        → (chain p next).0 ≡ ok b
        → (a : A) × (p.0 ≡ ok a) × ((next a p.1).0 ≡ ok b) × ((chain p next).1 ≡ (next a p.1).1)
    from_pair (ok a, w') k = (a, refl, k, refl)
    from_pair (err e, w') k = absurd (cc k)

pub IsQuiet->>= {ℓ κ} :
    {E : Type ℓ} {A B : Type κ} (m : Action E A) (next : A → Action E B)
    → IsQuiet m
    → ((a : A) → IsQuiet (next a))
    → IsQuiet (m >>= next)
IsQuiet->>= {E = E} {A = A} m next p q = record { onward = λ w h. from_pair w (m w) (p.onward w h) }
  where
    from_pair :
        (w : World) (r : Result A (Stop E) × World) → Onward w r.1 → Onward w (chain r next).1
    from_pair w (ok a, w') k = Onward-trans k ((q a).onward w' k.honest)
    from_pair w (err e, w') k = k

pub IsQuiet-lift {ℓ κ} : {E : Type ℓ} {A : Type κ} (r : Result A (Stop E)) → IsQuiet (lift r)
IsQuiet-lift r = record { onward = λ w h. Onward-refl w h }

pub IsQuiet-annotate {ℓ κ ι} :
    {E : Type ℓ} {F : Type κ} {A : Type ι} (f : E → F) (m : Action E A)
    → IsQuiet m
    → IsQuiet (annotate f m)
IsQuiet-annotate f m p = record { onward = λ w h. p.onward w h }

pub IsQuiet-syscall :
    {A : Type 0} (call : Disk → Result A (Stop CheckpointError) × Disk)
    → ((d : Disk) → Grows d (call d).1)
    → IsQuiet (syscall call)
unfolding syscall
IsQuiet-syscall call grow = record { onward = λ w h. stepped w.schedule w h (λ k. k) }
  where
    stepped :
        (s : List Turn) (w : World)
        → IsHonest s
        → (IsHonest s → IsHonest w.schedule)
        → Onward w (taken call s w).1
    stepped [] w h same = record { honest = same h; grown = grow w.disk; cached = refl }
    stepped (fails ∷ rest) w h same = record {
      honest = h.1;
      grown = Grows-refl w.disk;
      cached = refl;
    }
    stepped (after change ∷ rest) w h same = record {
      honest = h.1;
      grown = Grows-trans (h.0 w.disk) (grow (change w.disk));
      cached = refl;
    }

-- Actions that may change the cache, too.
pub record StaysHonest {ℓ κ} {E : Type ℓ} {A : Type κ} (m : Action E A) : Type (ℓ ⊔ κ) where
  pub stays : (w : World) → IsHonest w.schedule → IsHonest (m w).1.schedule

pub IsQuiet-StaysHonest {ℓ κ} :
    {E : Type ℓ} {A : Type κ} (m : Action E A) → IsQuiet m → StaysHonest m
IsQuiet-StaysHonest m q = record { stays = λ w h. (q.onward w h).honest }

pub StaysHonest->>= {ℓ κ} :
    {E : Type ℓ} {A B : Type κ} (m : Action E A) (next : A → Action E B)
    → StaysHonest m
    → ((a : A) → StaysHonest (next a))
    → StaysHonest (m >>= next)
StaysHonest->>= {E = E} {A = A} m next p q = record { stays = λ w h. from_pair (m w) (p.stays w h) }
  where
    from_pair :
        (r : Result A (Stop E) × World) → IsHonest r.1.schedule → IsHonest (chain r next).1.schedule
    from_pair (ok a, w') k = (q a).stays w' k
    from_pair (err e, w') k = k

pub StaysHonest-cached {ℓ κ} :
    {E : Type ℓ} {A : Type κ} (m : Action E A)
    → ((w : World) → (m w).1.schedule ≡ w.schedule)
    → StaysHonest m
StaysHonest-cached m same = record { stays = λ w h. rw (same w) h }
