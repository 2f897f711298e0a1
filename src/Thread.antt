-- ===== src/Thread.antt =====
-- src/thread.c: a map added to a thread's process, and the name of a thread.
pub mod Laws
pub mod Lifetime
mod Tests
use libdw_bcc.Prelude.{
  ℕ, zero, suc, ℤ, pos, negsuc, ◌==◌, ◌++◌, Bool, Option, none, some, List, [], ◌∷◌, if◌then◌else◌,
  take, length, ◌-◌,
}
use libdw_bcc.Outcome.{ok}
use libdw_bcc.Rbtree.{Balance}
use libdw_bcc.Store.{Ptr, Thread, Cmd, pure, ◌>>=◌, ◌>>◌, load_thread, store_thread, deref}
use libdw_bcc.Symbol.{str_eq}
use libdw_bcc.Maps.{maps_insert}
use libdw_bcc.Unwind.Access.{AddrSpaces, prepare_access, flush_access}

-- TASK_COMM_LEN
abbrev pub task_comm_len : ℕ
task_comm_len = 16

-- The C string in a buffer: the bytes in front of the first 0.
abbrev pub c_string : List ℕ → List ℕ
c_string [] = []
c_string (b ∷ bs) = let rest = c_string bs in if b == 0 then [] else b ∷ rest

abbrev pub zeros : ℕ → List ℕ
zeros zero = []
zeros (suc n) = 0 ∷ zeros n

-- What strncpy leaves in a buffer of `n` bytes.
unfoldable pub strncpy : List ℕ → ℕ → List ℕ
strncpy str n = take n str ++ zeros (n - length str)

-- !strncmp(str, t, n)
abbrev pub strn_eq : List ℕ → List ℕ → ℕ → Bool
strn_eq str t n = str_eq (take n str) (take n t)

-- thread__insert_map, once the access is prepared.
unfoldable pub insert_prepared : Balance Ptr → Ptr → Ptr → ℤ → Cmd ℤ
insert_prepared balance th map (pos zero) = do
  thread ← load_thread th
  maps ← deref thread.maps
  maps_insert balance maps map
  pure (pos 0)
insert_prepared balance th map err = pure err

module _ (balance : Balance Ptr) (spaces : AddrSpaces) where
  -- thread__insert_map
  unfoldable pub insert_map : Ptr → Ptr → Cmd ℤ
  insert_map th map = do ret ← prepare_access spaces th; insert_prepared balance th map ret

  -- thread__set_comm
  unfoldable pub set_comm : Ptr → List ℕ → Cmd (Unit {0})
  set_comm th str = do
    thread ← load_thread th
    if strn_eq str (c_string thread.name) task_comm_len
        then (do
          store_thread th (record thread { name = strncpy str task_comm_len })
          flush_access spaces th)
        else pure tt
