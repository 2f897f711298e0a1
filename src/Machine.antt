-- ===== src/Machine.antt =====
-- src/machine.c: a machine without threads and shared objects.
pub mod Findnew
pub mod Table
pub mod Delete
pub mod Laws
mod Tests
use libdw_bcc.Prelude.{ℕ, ◌%◌, none, List, []}
use libdw_bcc.Outcome.{ok}
use libdw_bcc.Rbtree.{leaf, Balance}
use libdw_bcc.Store.{Ptr, Threads, Dsos, Cmd}
use libdw_bcc.Dsos.{dsos_findnew}

-- THREADS__TABLE_SIZE
abbrev pub threads_table_size : ℕ
threads_table_size = 256

-- dsos__init
unfoldable pub dsos_init : Dsos
dsos_init = record { head = []; root = leaf }

-- machine__threads_init: one bucket.
unfoldable pub threads_init : Threads
threads_init = record { entries = leaf; nr = 0; dead = []; last_match = none }

-- machine__init
unfoldable pub machine_init : Cmd (Unit {0})
machine_init w = ok (tt, record w { dsos = dsos_init; threads = λ i. threads_init })

-- machine__threads: the bucket of a thread. The argument is the 32-bit pattern of tid.
unfoldable pub machine_threads : ℕ → ℕ
machine_threads tid = tid % threads_table_size

-- machine__new: the one machine is set up.
abbrev pub machine_new : Cmd (Unit {0})
machine_new = machine_init

-- machine__findnew_dso
abbrev pub machine_findnew_dso : Balance Ptr → (List ℕ → List ℕ) → List ℕ → Cmd Ptr
machine_findnew_dso = dsos_findnew
