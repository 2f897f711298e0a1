-- ===== src/Unwind/Access.antt =====
-- unwind__prepare_access to unwind__get_entries: libunwind's address space of a thread.
pub mod Prepared
use libdw_bcc.Prelude.{ℕ, ℤ, pos, neg, Option, none, some, List, [], if◌then◌else◌, true, Bool}
use libdw_bcc.Outcome.{Outcome, ok}
use libdw_bcc.Ptrace.{PtRegs}
use libdw_bcc.Store.{
  Ptr, Thread, Cmd, pure, ◌>>=◌, ◌>>◌, lift, load_thread, load_maps, store_thread, deref,
}
use libdw_bcc.Unwind.Frames.{Unwinder, Stacktrace, get_entries}

-- ENOMEM
abbrev pub enomem : ℕ
enomem = 12

-- libunwind's address spaces: one is created, or there is no memory for it; its cache is flushed;
-- it is destroyed.
pub record AddrSpaces : Type 0 where
  pub create : Cmd (Option Ptr)
  pub flush_cache : Option Ptr → Cmd (Unit {0})
  pub destroy : Option Ptr → Cmd (Unit {0})

module _ (spaces : AddrSpaces) where
  -- _prepare_access, once unw_create_addr_space has returned; unw_set_caching_policy is libunwind's.
  unfoldable pub set_addr_space : Ptr → Option Ptr → Cmd ℤ
  set_addr_space th created = do
    thread ← load_thread th
    store_thread th (record thread { addr_space = created })
    elim created [ none ↦ pure (neg enomem) | some a ↦ pure (pos 0) ]

  -- unwind__prepare_access, where the thread has no address space: the operations are registered.
  unfoldable pub register : Ptr → Thread → Cmd ℤ
  register th thread = do
    store_thread th (record thread { ulops = true })
    created ← spaces.create
    set_addr_space th created

  abbrev pub prepare_unless : Option Ptr → Ptr → Thread → Cmd ℤ
  prepare_unless none th thread = register th thread
  prepare_unless (some a) th thread = pure (pos 0)

  -- unwind__prepare_access
  unfoldable pub prepare_access : Ptr → Cmd ℤ
  prepare_access th = do thread ← load_thread th; prepare_unless thread.addr_space th thread

  -- _flush_access and _finish_access
  abbrev pub flush_space : Thread → Cmd (Unit {0})
  flush_space thread = spaces.flush_cache thread.addr_space

  abbrev pub finish_space : Thread → Cmd (Unit {0})
  finish_space thread = spaces.destroy thread.addr_space

  -- unwind__flush_access
  unfoldable pub flush_access : Ptr → Cmd (Unit {0})
  flush_access th = do thread ← load_thread th; if thread.ulops then flush_space thread else pure tt

  -- unwind__finish_access
  unfoldable pub finish_access : Ptr → Cmd (Unit {0})
  finish_access th = do
    thread ← load_thread th
    if thread.ulops then finish_space thread else pure tt

-- _get_entries: the machine is read from the thread's maps, and kept for the callbacks.
abbrev pub entries_of :
    {Cursor : Type 0} → Unwinder Cursor → Thread → PtRegs → Stacktrace → Cmd (ℤ × Option ℕ × List ℕ)
entries_of unw thread uregs st = do
  ms ← deref thread.maps
  maps ← load_maps ms
  lift (get_entries unw uregs thread.addr_space st)

-- unwind__get_entries
unfoldable pub thread_get_entries :
    {Cursor : Type 0} → Unwinder Cursor → Ptr → PtRegs → Stacktrace → Cmd (ℤ × Option ℕ × List ℕ)
thread_get_entries unw th uregs st = do
  thread ← load_thread th
  if thread.ulops then entries_of unw thread uregs st else pure (pos 0, none, [])
