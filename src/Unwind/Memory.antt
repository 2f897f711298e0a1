-- ===== src/Unwind/Memory.antt =====
-- access_mem: a word of the traced process, from the saved part of its stack or from a mapped file.
pub mod Words
pub mod Mapped
mod Tests
use libdw_bcc.Prelude.{
  ℕ, ◌+◌, ◌<◌, ℤ, pos, negsuc, neg, add64, sub64, ltb, leb, ◌==◌, ◌||◌, Bool, true, false, not,
  Option, none, some, List, [], if◌then◌else◌, length, take, drop,
}
use libdw_bcc.Outcome.{Outcome, ok, fault}
use libdw_bcc.Rbtree.{Balance}
use libdw_bcc.Utility.{Files}
use libdw_bcc.Dso.{DsoCache}
use libdw_bcc.Dso.Cache.{read_addr}
use libdw_bcc.Store.{
  Ptr, Map, World, Cmd, pure, ◌>>=◌, ◌>>◌, lift, load_map, load_thread, load_dso, store_dso, deref,
}
use libdw_bcc.Maps.{map_ip, maps_find}
use libdw_bcc.Ptrace.{PtRegs, reg_value, x86_reg, x86_sp}
use libdw_bcc.Unwind.Registers.{einval}
use libdw_bcc.Unwind.Encoding.{le_value}

-- struct unwind_ctx, as far as it is read: `size` bytes of the stack are saved in `stack`.
pub record UnwindCtx : Type 0 where
  pub tid : ℕ
  pub tgid : ℕ
  pub uregs : PtRegs
  pub name : List ℕ
  pub size : ℤ
  pub stack : List ℕ

-- struct unwind_info; the machine is the one that the memory holds.
pub record UnwindInfo : Type 0 where
  pub uc : UnwindCtx
  pub thread : Ptr

-- find_map
unfoldable pub find_map : ℕ → UnwindInfo → Cmd (Option Ptr)
find_map ip ui = do thread ← load_thread ui.thread; maps ← deref thread.maps; maps_find maps ip

-- A callback's result, and what it stored through `valp`.
abbrev pub Access : Type 0
Access = ℤ × Option ℕ

-- sizeof(unw_word_t)
abbrev pub word_size : ℕ
word_size = 8

-- The word that was read, if it is whole.
abbrev pub whole_word : ℤ → List ℕ → Access
whole_word (pos n) bytes = if n == word_size then (pos 0, some (le_value bytes)) else (pos 1, none)
whole_word (negsuc n) bytes = (pos 1, none)

-- *(unw_word_t*)&stack[offset]
unfoldable pub stack_word : List ℕ → ℕ → Outcome ℕ
stack_word stack offset =
    if ltb (length stack) (offset + word_size)
    then fault
    else ok (le_value (take word_size (drop offset stack)))

-- A failed read stores 0.
abbrev pub or_zero : Access → Access
or_zero (pos n, v) = if n == 0 then (pos 0, v) else (pos n, some 0)
or_zero (negsuc n, v) = (negsuc n, some 0)

module _ (balance : Balance DsoCache) (files : Files) where
  -- access_dso_mem, once the map is found.
  unfoldable pub read_mapped : ℕ → Option Ptr → Cmd Access
  read_mapped addr none = pure (negsuc 0, none)
  read_mapped addr (some p) = do
    map ← load_map p
    elim map.dso [
      | none ↦ pure (negsuc 0, none)
      | some d ↦ do
        dso ← load_dso d
        (dso', size, bytes) ← lift (read_addr balance files dso (map_ip map) addr word_size)
        store_dso d dso'
        pure (whole_word size bytes)
    ]

  -- access_dso_mem
  unfoldable pub access_dso_mem : UnwindInfo → ℕ → Cmd Access
  access_dso_mem ui addr = do found ← find_map addr ui; read_mapped addr found

  -- access_mem, for `ss` saved bytes.
  unfoldable pub access_saved : UnwindInfo → ℕ → ℕ → Cmd Access
  access_saved ui ss addr = do
    start ← lift (reg_value ui.uc.uregs (pos (x86_reg x86_sp)))
    let end = add64 start ss
    if ltb (add64 addr word_size) addr
        then pure (neg einval, none)
        else if ltb addr start || leb end (add64 addr word_size)
        then (do access ← access_dso_mem ui addr; pure (or_zero access))
        else (do v ← lift (stack_word ui.uc.stack (sub64 addr start)); pure (pos 0, some v))

  abbrev pub access_sized : UnwindInfo → ℤ → ℕ → Cmd Access
  access_sized ui (negsuc n) addr = pure (pos 0, some 0)
  access_sized ui (pos ss) addr = if ss == 0 then pure (pos 0, some 0) else access_saved ui ss addr

  -- access_mem: a write, or a stack of which nothing is saved, gives 0.
  unfoldable pub access_mem : UnwindInfo → ℕ → Bool → Cmd Access
  access_mem ui addr write = if write then pure (pos 0, some 0) else access_sized ui ui.uc.size addr
