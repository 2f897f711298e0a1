-- ===== src/Store.antt =====
-- The memory that the library's objects live in: threads, maps, map and dso objects behind
-- pointers, and the tables of the one `struct machine`. Locks leave no trace here: the library
-- sets `singlethreaded`, and its lock operations then do nothing (src/rwsem.c).
use libdw_bcc.Prelude.{
  ==_iff, ne→==, ◌≡◌, refl, ◌+◌, ℕ, ◌==◌, Option, none, some, List, Bool, if◌then◌else◌,
}
use libdw_bcc.Outcome.{Outcome, ok, abort, fault}
use libdw_bcc.Rbtree.{Tree}
use libdw_bcc.Dso.{Dso}

-- A pointer to an object. NULL is `none` of `Option Ptr`.
abbrev pub Ptr : Type 0
Ptr = ℕ

-- struct map (src/map.h). `dso` is NULL only in map__exit; the function pointers map_ip and
-- unmap_ip are always the two functions of that header.
pub record Map : Type 0 where
  pub start : ℕ
  pub end : ℕ
  pub prot : ℕ
  pub flags : ℕ
  pub pgoff : ℕ
  pub reloc : ℕ
  pub maj : ℕ
  pub min : ℕ
  pub ino : ℕ
  pub ino_generation : ℕ
  pub dso : Option Ptr
  pub refcnt : ℕ

-- struct maps: the maps by address, and in the order of insertion.
pub record Maps : Type 0 where
  pub entries : Tree Ptr
  pub head : List Ptr
  pub refcnt : ℕ

-- struct thread (src/thread.h). A pid_t is its 32-bit pattern. `ulops` says whether the operations
-- of libunwind are registered.
pub record Thread : Type 0 where
  pub maps : Option Ptr
  pub tgid : ℕ
  pub tid : ℕ
  pub name : List ℕ
  pub addr_space : Option Ptr
  pub ulops : Bool
  pub refcnt : ℕ

-- struct threads (src/machine.h): one bucket of the machine's table.
pub record Threads : Type 0 where
  pub entries : Tree Ptr
  pub nr : ℕ
  pub dead : List Ptr
  pub last_match : Option Ptr

-- struct dsos: all shared objects, in a list and in a tree by long name.
pub record Dsos : Type 0 where
  pub head : List Ptr
  pub root : Tree Ptr

pub record World : Type 0 where
  pub thread : Ptr → Option Thread
  pub maps : Ptr → Option Maps
  pub map : Ptr → Option Map
  pub dso : Ptr → Option Dso
  pub next : Ptr
  pub threads : ℕ → Threads
  pub dsos : Dsos

abbrev pub update : {A : Type 0} → (Ptr → Option A) → Ptr → Option A → Ptr → Option A
update store p v q = if p == q then v else store q

pub update_same :
    {A : Type 0} (store : Ptr → Option A) (p : Ptr) (v : Option A) → update store p v p ≡ v
update_same store p v = rw ((==_iff p p).1 refl)

pub update_other :
    {A : Type 0} (store : Ptr → Option A) (p q : Ptr) (v : Option A)
    → ¬ (p ≡ q)
    → update store p v q ≡ store q
update_other store p q v h = rw (ne→== p q h)

-- A command on the memory.
abbrev pub Cmd : Type 0 → Type 0
Cmd A = World → Outcome (A × World)

abbrev pub pure : {A : Type 0} → A → Cmd A
pure a w = ok (a, w)

infixl 5 ◌>>=◌ ◌>>◌
abbrev pub ◌>>=◌ : {A B : Type 0} → Cmd A → (A → Cmd B) → Cmd B
◌>>=◌ m f w = elim (m w) [ ok (a, w') ↦ f a w' | abort ↦ abort | fault ↦ fault ]

abbrev pub ◌>>◌ : {B : Type 0} → Cmd (Unit {0}) → Cmd B → Cmd B
m >> k = m >>= λ _. k

-- xmalloc and xcalloc: a fresh pointer.
abbrev pub allocate : Cmd Ptr
allocate w = ok (w.next, record w { next = w.next + 1 })

abbrev pub free_map : Ptr → Cmd (Unit {0})
free_map p w = ok (tt, record w { map = update w.map p none })

abbrev pub free_maps : Ptr → Cmd (Unit {0})
free_maps p w = ok (tt, record w { maps = update w.maps p none })

abbrev pub free_thread : Ptr → Cmd (Unit {0})
free_thread p w = ok (tt, record w { thread = update w.thread p none })

-- One bucket of the machine's table.
abbrev pub load_threads : ℕ → Cmd Threads
load_threads b w = ok (w.threads b, w)

abbrev pub with_threads : World → ℕ → Threads → World
with_threads w b t = record w { threads = λ i. if b == i then t else w.threads i }

abbrev pub store_threads : ℕ → Threads → Cmd (Unit {0})
store_threads b t w = ok (tt, with_threads w b t)

-- A read through a pointer.
abbrev pub deref : {A : Type 0} → Option A → Cmd A
deref none w = fault
deref (some a) w = ok (a, w)

unfoldable pub load_map : Ptr → Cmd Map
load_map p w = deref (w.map p) w

unfoldable pub load_maps : Ptr → Cmd Maps
load_maps p w = deref (w.maps p) w

unfoldable pub load_thread : Ptr → Cmd Thread
load_thread p w = deref (w.thread p) w

unfoldable pub load_dso : Ptr → Cmd Dso
load_dso p w = deref (w.dso p) w

unfoldable pub store_map : Ptr → Map → Cmd (Unit {0})
store_map p m w = ok (tt, record w { map = update w.map p (some m) })

unfoldable pub store_maps : Ptr → Maps → Cmd (Unit {0})
store_maps p m w = ok (tt, record w { maps = update w.maps p (some m) })

unfoldable pub store_thread : Ptr → Thread → Cmd (Unit {0})
store_thread p t w = ok (tt, record w { thread = update w.thread p (some t) })

unfoldable pub store_dso : Ptr → Dso → Cmd (Unit {0})
store_dso p d w = ok (tt, record w { dso = update w.dso p (some d) })

-- A run that does not touch the memory.
abbrev pub lift : {A : Type 0} → Outcome A → Cmd A
lift (ok a) w = ok (a, w)
lift abort w = abort
lift fault w = fault
