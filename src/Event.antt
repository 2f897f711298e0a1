-- ===== src/Event.antt =====
-- src/event.c: what /proc says of a process becomes maps of its thread, a sample becomes a call
-- chain, and a callback sees the maps of a process. stdio is a parameter.
pub mod Lines
pub mod Scan
mod Kept
mod Step
mod Serves
mod Found
pub mod Filled
mod Samples
pub mod Mapped
pub mod Callchain
pub mod Visit
mod Tests
use libdw_bcc.Prelude.{
  ℕ, ℤ, pos, negsuc, sub64, bit_or, is_neg, ltb, ◌==◌, ◌++◌, Bool, true, false, not, Option, none,
  some, List, [], ◌∷◌, if◌then◌else◌, get_elem?,
}
use libdw_bcc.Outcome.{Outcome, ok, abort, fault, assert}
use libdw_bcc.Rbtree.{Balance, Erase}
use libdw_bcc.Store.{
  Ptr, Cmd, pure, ◌>>=◌, ◌>>◌, lift, deref, load_thread, load_map, load_maps, load_dso,
}
use libdw_bcc.Maps.Objects.{Mmap2Event, map_new}
use libdw_bcc.Maps.Lifetime.{map_put}
use libdw_bcc.Unwind.Access.{AddrSpaces, prepare_access, thread_get_entries}
use libdw_bcc.Unwind.Frames.{Unwinder, Stacktrace, is_zero}
use libdw_bcc.Unwind.Memory.{UnwindCtx}
use libdw_bcc.Thread.{c_string, insert_map, set_comm}
use libdw_bcc.Thread.Lifetime.{thread_put}
use libdw_bcc.Machine.Findnew.{machine_findnew_thread}

-- What sscanf stores of a line of /proc/<pid>/task/<pid>/maps: the number of fields, and the
-- fields. `prot` are the bytes in front of the 0 in the buffer of 5 bytes.
pub record Scanned : Type 0 where
  pub count : ℕ
  pub start : ℕ
  pub end : ℕ
  pub prot : List ℕ
  pub pgoff : ℕ
  pub maj : ℕ
  pub min : ℕ
  pub ino : ℕ
  pub execname : List ℕ

-- stdio on those files: the lines that fgets gives, if the file of a process can be opened, and
-- sscanf with the format of the code. A field that is larger than its buffer is a fault.
pub record ProcMaps : Type 0 where
  pub open_maps : ℕ → Option (List (List ℕ))
  pub sscanf : List ℕ → Outcome Scanned

-- A byte of the buffer `prot`; what is behind the 0 has not been written.
unfoldable pub prot_byte : List ℕ → ℕ → Outcome ℕ
prot_byte prot i = elim (get_elem? (prot ++ (0 ∷ [])) i) [ none ↦ fault | some b ↦ ok b ]

-- PROT_READ, PROT_WRITE, PROT_EXEC
unfoldable pub prot_bits : ℕ → ℕ → ℕ → ℕ
prot_bits r w x =
    bit_or (bit_or (if r == 0x72 then 1 else 0) (if w == 0x77 then 2 else 0))
      (if x == 0x78 then 4 else 0)

-- MAP_SHARED, MAP_PRIVATE
unfoldable pub flag_bits : ℕ → ℕ
flag_bits s = if s == 0x73 then 1 else 2

-- "//anon", for a map without a name.
abbrev pub anonstr : List ℕ
anonstr = 0x2f ∷ 0x2f ∷ 0x61 ∷ 0x6e ∷ 0x6f ∷ 0x6e ∷ []

abbrev pub or_anon : List ℕ → List ℕ
or_anon [] = anonstr
or_anon (b ∷ bs) = b ∷ bs

-- The event before the line is known to be executable; `len` still holds the end.
abbrev pub scanned_event : Mmap2Event → Scanned → ℕ → ℕ → Mmap2Event
scanned_event event s prot flags = record event {
  start = s.start;
  len = s.end;
  pgoff = s.pgoff;
  maj = s.maj;
  min = s.min;
  ino = s.ino;
  prot = prot;
  flags = flags;
}

abbrev pub finished_event : Mmap2Event → Scanned → ℕ → ℕ → Mmap2Event
finished_event event s tgid tid = record event {
  filename = or_anon (if ltb 7 s.count then s.execname else []);
  len = sub64 event.len event.start;
  tgid = tgid;
  tid = tid;
}

-- One round of the loop of bpf_unwind_ctx_prepare_mmap: whether the event is to be processed, and
-- the event. The fields that sscanf stores of a short line are not shown: a line that is read in
-- full writes them anew.
unfoldable pub line_event : Mmap2Event → ℕ → ℕ → Scanned → Cmd (Bool × Mmap2Event)
line_event event tgid tid s = if ltb s.count 7 then pure (false, event) else (do
  r ← lift (prot_byte s.prot 0)
  w ← lift (prot_byte s.prot 1)
  x ← lift (prot_byte s.prot 2)
  p ← lift (prot_byte s.prot 3)
  let scanned = scanned_event event s (prot_bits r w x) (flag_bits p)
  if x == 0x78 then pure (true, finished_event scanned s tgid tid) else pure (false, scanned))

-- The loop, with the handler of its events, whose result is not used.
unfoldable pub prepare_from :
    ProcMaps → (Mmap2Event → Cmd ℤ) → ℕ → ℕ → Mmap2Event → List (List ℕ) → Cmd (Unit {0})
prepare_from proc process tgid tid event [] = pure tt
prepare_from proc process tgid tid event (l ∷ ls) =
    (lift (proc.sscanf l) >>= line_event event tgid tid) >>= λ r.
    (if r.0 then (process (r.1) >>= λ _. pure tt) else pure tt)
    >> prepare_from proc process tgid tid (r.1) ls

-- bpf_unwind_ctx_prepare_mmap
unfoldable pub prepare_mmap : ProcMaps → (Mmap2Event → Cmd ℤ) → Mmap2Event → ℕ → ℕ → Cmd ℤ
prepare_mmap proc process event tgid tid = elim (proc.open_maps tgid) [
  | none ↦ pure (negsuc 0)
  | some ls ↦ prepare_from proc process tgid tid event ls >> pure (pos 0)
]

-- assert(thread != NULL)
abbrev pub assert_some : Option Ptr → Cmd Ptr
assert_some none w = abort
assert_some (some p) w = ok (p, w)

-- struct dl_phdr_info
pub record DlPhdrInfo : Type 0 where
  pub start_addr : ℕ
  pub end_addr : ℕ
  pub dlpi_name : List ℕ

-- The loop of bpf_dl_iterate_phdr. The callback has a context of its own, and does not call the
-- library.
unfoldable pub visit : {S : Type 0} → (DlPhdrInfo → S → ℤ × S) → List Ptr → S → Cmd (ℤ × S)
visit callback [] s = pure (pos 0, s)
visit callback (p ∷ ps) s = load_map p >>= λ map. deref map.dso >>= λ d. load_dso d >>= λ dso.
    let info : DlPhdrInfo = record {
      start_addr = map.start;
      end_addr = map.end;
      dlpi_name = dso.long_name;
    } in
    let (ret, s') = callback info s in
    let rest = visit callback ps s' in if is_neg ret then pure (negsuc 0, s') else rest

module _ (balance : Balance Ptr) (erase : Erase) (spaces : AddrSpaces) where
  -- bpf_unwind_ctx__process_mmap. A map that maps__insert has taken is in a tree.
  unfoldable pub process_mmap : (List ℕ → List ℕ) → Mmap2Event → Cmd ℤ
  process_mmap basename event = do
    found ← machine_findnew_thread balance erase spaces event.tgid event.tid
    th ← assert_some found
    map ← map_new balance basename event
    ret ← insert_map balance spaces th map
    lift (assert (is_zero ret))
    thread_put erase spaces false th
    map_put true map
    pure (pos 0)

  -- bpf_unwind_ctx__thread_map. `event` is what xmalloc leaves in the new event.
  unfoldable pub thread_map : (List ℕ → List ℕ) → ProcMaps → Mmap2Event → ℕ → ℕ → Cmd ℤ
  thread_map basename proc event tgid tid = prepare_mmap proc (process_mmap basename) event tgid tid

  -- The result of unwind__prepare_access is not used.
  abbrev pub prepare_if_none : Option Ptr → Ptr → Cmd ℤ
  prepare_if_none none th = prepare_access spaces th
  prepare_if_none (some a) th = pure (pos 0)

  -- bpf_unwind_ctx__resolve_callchain
  unfoldable pub resolve_callchain :
      {Cursor : Type 0} → Unwinder Cursor → Stacktrace → UnwindCtx → Cmd (ℤ × Option ℕ × List ℕ)
  resolve_callchain unw st uc = do
    found ← machine_findnew_thread balance erase spaces uc.tgid uc.tid
    th ← assert_some found
    thread ← load_thread th
    ret ← prepare_if_none thread.addr_space th
    set_comm balance spaces th (c_string uc.name)
    thread_get_entries unw th uc.uregs st

  -- bpf_dl_iterate_phdr
  unfoldable pub dl_iterate_phdr : {S : Type 0} → (DlPhdrInfo → S → ℤ × S) → ℕ → S → Cmd (ℤ × S)
  dl_iterate_phdr callback tgid s = do
    found ← machine_findnew_thread balance erase spaces tgid tgid
    th ← assert_some found
    thread ← load_thread th
    ms ← deref thread.maps
    maps ← load_maps ms
    visit callback maps.head s
