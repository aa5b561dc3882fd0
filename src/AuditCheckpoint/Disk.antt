-- ===== src/AuditCheckpoint/Disk.antt =====
-- The directory of the checkpoint store as state, and the actions of the store on it.
--
-- The calls of the file system are taken one by one. Before each, the schedule of the environment
-- decides whether the call fails, and how other processes have changed the directory since the
-- one before; a schedule that has ended lets every call succeed, with no change from outside.
pub mod Honest
use bloom_service_runtime.Prelude.{
  ℕ, ◌+◌, ◌%◌, ◌^◌, ◌&&◌, ◌==◌, PartialEq, ◌≡◌, ◌↔◌, arith, Bytes, Bool, true, false, Option, none,
  some, List, [], ◌∷◌, Result, ok, err, nat_eq, list_eq, lookup, insert, remove, map, if◌then◌else◌,
}
use bloom_service_runtime.FileSystem.{FileType, Metadata, regular}
use bloom_service_runtime.RpcWire.Token.{Token}
use bloom_service_runtime.RpcWire.Audit.{SignedJournalHead}
use bloom_service_runtime.AuditCheckpoint.Record.{CheckpointError, Stop, failed, panicked, io}

-- What `symlink_metadata` and `read` tell of a file in the root.
pub record Entry : Type 0 where
  pub file_type : FileType
  pub mode : ℕ
  pub contents : Bytes

-- The root with its files by name, the temporary files of this process beside it by the value of
-- CHECKPOINT_TEMP_COUNTER in their names, and the clock that stamps a change of the root.
pub record Disk : Type 0 where
  pub root : Metadata
  pub entries : List (Bytes × Entry)
  pub temporaries : List (ℕ × Bytes)
  pub now : ℕ × ℕ

pub data Turn : Type 0 where
  fails : Turn
  after : (Disk → Disk) → Turn

pub record RootStamp : Type 0 where
  pub device : ℕ
  pub inode : ℕ
  pub mode : ℕ
  pub uid : ℕ
  pub modified : ℕ × ℕ
  pub changed : ℕ × ℕ

abbrev time_beq : ℕ × ℕ → ℕ × ℕ → Bool
time_beq (s, n) (s', n') = s == s' && n == n'

abbrev stamp_beq : RootStamp → RootStamp → Bool
stamp_beq a b =
    a.device == b.device
    && a.inode == b.inode
    && a.mode == b.mode
    && a.uid == b.uid
    && time_beq a.modified b.modified
    && time_beq a.changed b.changed

pub stamp_beq_iff : (a b : RootStamp) → (stamp_beq a b ≡ true) ↔ (a ≡ b)
stamp_beq_iff a b = ground arith

instance abbrev pub stamp_eq : PartialEq RootStamp
stamp_eq = record { same = stamp_beq; same_iff = stamp_beq_iff }

-- `CheckpointState`
pub record CheckpointState : Type 0 where
  pub root_stamp : RootStamp
  pub latest : List (Token × SignedJournalHead)

-- The directory, the schedule, the process's counter, the cache behind `state`, and whether
-- `operation` is poisoned. Nothing can panic while `state` is held, so that lock is never poisoned.
pub record World : Type 0 where
  pub disk : Disk
  pub schedule : List Turn
  pub counter : ℕ
  pub cache : CheckpointState
  pub poisoned : Bool

-- An action on the world, which stays changed where the action fails.
abbrev pub Action {ℓ κ} : Type ℓ → Type κ → Type (ℓ ⊔ κ)
Action E A = World → Result A (Stop E) × World

-- What follows an action, from what it gave.
abbrev pub chain {ℓ κ} :
    {E : Type ℓ} {A B : Type κ}
    → Result A (Stop E) × World
    → (A → Action E B)
    → Result B (Stop E) × World
chain (ok a, w) next = next a w
chain (err e, w) next = (err e, w)

infixl 5 ◌>>=◌ ◌>>◌
abbrev pub ◌>>=◌ {ℓ κ} : {E : Type ℓ} {A B : Type κ} → Action E A → (A → Action E B) → Action E B
◌>>=◌ m next w = chain (m w) next

abbrev pub ◌>>◌ {ℓ} : {E : Type ℓ} {B : Type 0} → Action E (Unit {0}) → Action E B → Action E B
m >> k = m >>= λ _. k

abbrev pub pure {ℓ κ} : {E : Type ℓ} {A : Type κ} → A → Action E A
pure a w = (ok a, w)

-- A check that reads no state.
abbrev pub lift {ℓ κ} : {E : Type ℓ} {A : Type κ} → Result A (Stop E) → Action E A
lift r w = (r, w)

abbrev pub stop_map {ℓ κ} : {E : Type ℓ} {F : Type κ} → (E → F) → Stop E → Stop F
stop_map f (failed e) = failed (f e)
stop_map f panicked = panicked

abbrev pub map_failure {ℓ κ ι} :
    {E : Type ℓ} {F : Type κ} {A : Type ι} → (E → F) → Result A (Stop E) → Result A (Stop F)
map_failure f (ok a) = ok a
map_failure f (err e) = err (stop_map f e)

-- `map_err`
abbrev pub annotate {ℓ κ ι} :
    {E : Type ℓ} {F : Type κ} {A : Type ι} → (E → F) → Action E A → Action F A
annotate f m w = let (r, w') = m w in (map_failure f r, w')

abbrev pub get_cache {ℓ} : {E : Type ℓ} → Action E CheckpointState
get_cache w = (ok w.cache, w)

abbrev pub put_cache {ℓ} : {E : Type ℓ} → CheckpointState → Action E (Unit {0})
put_cache c w = (ok tt, record w { cache = c })

-- `fetch_add(1)`, which wraps only after 2 ^ 64 calls.
abbrev pub next_counter {ℓ} : {E : Type ℓ} → Action E ℕ
next_counter w = (ok w.counter, record w { counter = (w.counter + 1) % 2 ^ 64 })

-- One call at its turn: what it answers and the directory behind it.
abbrev pub taken :
    {A : Type 0}
    → (Disk → Result A (Stop CheckpointError) × Disk)
    → List Turn
    → Action CheckpointError A
taken call [] w = ((call w.disk).0, record w { disk = (call w.disk).1 })
taken call (fails ∷ rest) w = (err (failed io), record w { schedule = rest })
taken call (after change ∷ rest) w =
    ((call (change w.disk)).0, record w { disk = (call (change w.disk)).1; schedule = rest })

unfoldable pub syscall :
    {A : Type 0} → (Disk → Result A (Stop CheckpointError) × Disk) → Action CheckpointError A
syscall call w = taken call w.schedule w

abbrev pub fixed {ℓ} : {A : Type ℓ} → A → Disk → Result A (Stop CheckpointError) × Disk
fixed a d = (ok a, d)

unfoldable pub root_metadata : Action CheckpointError Metadata
unfolding syscall
root_metadata = syscall λ d. (ok d.root, d)

-- `read_dir`: the names.
unfoldable pub read_dir : Action CheckpointError (List Bytes)
unfolding syscall
read_dir = syscall λ d. (ok (map (λ (e : Bytes × Entry). e.0) d.entries), d)

abbrev pub found : Option Entry → Result Entry (Stop CheckpointError)
found none = err (failed io)
found (some e) = ok e

-- `symlink_metadata` or `read` of a file in the root.
unfoldable pub read_entry : Bytes → Action CheckpointError Entry
unfolding syscall lookup
read_entry name = syscall λ d. (found (lookup name d.entries), d)

-- `File::open(&root)?.sync_all()`: two calls.
unfoldable pub sync_root : Action CheckpointError (Unit {0})
unfolding syscall
sync_root = syscall (λ d. (ok tt, d)) >> syscall (λ d. (ok tt, d))

abbrev pub is_some {ℓ} : {A : Type ℓ} → Option A → Bool
is_some none = false
is_some (some _) = true

-- `create_new(true)` of a temporary file.
unfoldable pub create_temporary : ℕ → Action CheckpointError (Unit {0})
unfolding syscall lookup insert
create_temporary n = syscall λ d.
    if is_some (lookup n d.temporaries)
    then (err (failed io), d)
    else (ok tt, record d { temporaries = insert n [] d.temporaries })

-- `write_all` and `sync_all`.
unfoldable pub write_temporary : ℕ → Bytes → Action CheckpointError (Unit {0})
unfolding syscall insert
write_temporary n bytes =
    syscall (λ d. (ok tt, record d { temporaries = insert n bytes d.temporaries }))
    >> syscall (λ d. (ok tt, d))

unfoldable pub remove_temporary : ℕ → Action CheckpointError (Unit {0})
unfolding syscall lookup remove
remove_temporary n = syscall λ d.
    if is_some (lookup n d.temporaries)
    then (ok tt, record d { temporaries = remove n d.temporaries })
    else (err (failed io), d)

-- `let _ = remove_file(...)`
unfoldable pub discard_temporary {ℓ} : {E : Type ℓ} → ℕ → Action E (Unit {0})
unfolding remove_temporary
discard_temporary n w = (ok tt, (remove_temporary n w).1)

-- What `hard_link` does with what it finds under the name and in the temporary file: `false` if
-- the name is taken.
unfoldable pub link_found :
    Option Entry → Option Bytes → Bytes → Disk → Result Bool (Stop CheckpointError) × Disk
unfolding insert
link_found (some _) temporary name d = (ok false, d)
link_found none none name d = (err (failed io), d)
link_found none (some bytes) name d = (
  ok true,
  record d {
    root = record d.root { modified = d.now; changed = d.now };
    entries =
        insert name (record { file_type = regular; mode = 0o600; contents = bytes }) d.entries;
  },
)

unfoldable pub linked : ℕ → Bytes → Disk → Result Bool (Stop CheckpointError) × Disk
unfolding lookup link_found
linked n name d = link_found (lookup name d.entries) (lookup n d.temporaries) name d

unfoldable pub hard_link : ℕ → Bytes → Action CheckpointError Bool
unfolding syscall linked
hard_link n name = syscall (linked n name)
