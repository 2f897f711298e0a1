-- ===== src/Unwind/Table/Proc.antt =====
-- find_proc_info: the table of unwind data of the object that is mapped at an address.
use libdw_bcc.Prelude.{
  ℕ, ◌+◌, ◌*◌, ◌/◌, ◌^◌, ◌%◌, ◌<◌, ℤ, neg, add64, sub64, ◌≡◌, ap, Option, none, some, List, arith,
}
use libdw_bcc.Rbtree.{Balance, to_list}
use libdw_bcc.Utility.{Files}
use libdw_bcc.Dso.{DsoCache, Dso}
use libdw_bcc.Dso.Cache.File.{IsFile, IsDso}
use libdw_bcc.Store.{
  Ptr, Map, Maps, World, Cmd, pure, ◌>>=◌, ◌>>◌, lift, load_map, load_dso, store_dso, update,
}
use libdw_bcc.Symbol.{Libelf}
use libdw_bcc.Maps.Ranges.{covering}
use libdw_bcc.Unwind.Registers.{einval}
use libdw_bcc.Unwind.Memory.{UnwindInfo, find_map}
use libdw_bcc.Unwind.Memory.Mapped.{IsThread, MapsFile, find_map-covering}
use libdw_bcc.Maps.{unmap_ip}
use libdw_bcc.Unwind.Encoding.{Format, format_size}
use libdw_bcc.Unwind.Table.{Spec, read_unwind_spec_eh_frame}
use libdw_bcc.Unwind.Table.Located.{HeaderAt, Located, spec_of, read_unwind_spec_eh_frame-Located}

-- unw_dyn_info_t of the format UNW_INFO_FORMAT_REMOTE_TABLE.
pub record DynInfo : Type 0 where
  pub start_ip : ℕ
  pub end_ip : ℕ
  pub segbase : ℕ
  pub table_data : ℕ
  pub table_len : ℕ

-- The addresses in the process, and the length of the table in words.
unfoldable pub dyn_info : Map → Spec → DynInfo
dyn_info map spec = record {
  start_ip = map.start;
  end_ip = map.end;
  segbase = sub64 (add64 map.start spec.segbase) map.pgoff;
  table_data = sub64 (add64 map.start spec.table_data) map.pgoff;
  table_len = spec.fde_count * 8 % 2 ^ 64 / 8;
}

module _ (balance : Balance DsoCache) (files : Files) {Elf Scn : Type 0} (lib : Libelf Elf Scn)
    (fuel hdr : ℕ) where
  -- find_proc_info, once the map is found; libunwind's dwarf_search_unwind_table is a parameter,
  -- which calls back.
  unfoldable pub search_map : (DynInfo → ℕ → Cmd ℤ) → ℕ → Option Ptr → Cmd ℤ
  search_map dwarf_search_unwind_table ip none = pure (neg einval)
  search_map dwarf_search_unwind_table ip (some p) = do
    map ← load_map p
    elim map.dso [
      | none ↦ pure (neg einval)
      | some d ↦ do
        dso ← load_dso d
        (dso', spec) ← lift (read_unwind_spec_eh_frame balance files lib fuel hdr dso)
        store_dso d dso'
        elim spec [
          | none ↦ pure (neg einval)
          | some spec ↦ dwarf_search_unwind_table (dyn_info map spec) ip
        ]
    ]

  -- find_proc_info
  unfoldable pub find_proc_info : (DynInfo → ℕ → Cmd ℤ) → ℕ → UnwindInfo → Cmd ℤ
  find_proc_info dwarf_search_unwind_table ip ui = do
    found ← find_map ip ui
    search_map dwarf_search_unwind_table ip found

-- The table that libunwind is to search: `count` entries of eight bytes behind the encoded values
-- of the header, at the addresses where the map shows the file.
abbrev pub table_of : Map → ℕ → Format → Format → ℕ → DynInfo
table_of map offset f g count = record {
  start_ip = map.start;
  end_ip = map.end;
  segbase = unmap_ip map offset;
  table_data = unmap_ip map (offset + 4 + format_size f + format_size g);
  table_len = count;
}

dyn_info-spec_of :
    (map : Map) (offset : ℕ) (f g : Format) (count : ℕ)
    → count < 2 ^ 61
    → dyn_info map (spec_of offset f g count) ≡ table_of map offset f g count
unfolding dyn_info unmap_ip
dyn_info-spec_of map offset f g count small =
    let segbase : sub64 (add64 map.start offset) map.pgoff
        ≡ sub64 (add64 offset map.start) map.pgoff =
      ap (λ n. sub64 (n % 2 ^ 64) map.pgoff) (omega arith) in
    let behind = offset + 4 + format_size f + format_size g in
    let table_data : sub64 (add64 map.start behind) map.pgoff
        ≡ sub64 (add64 behind map.start) map.pgoff =
      ap (λ n. sub64 (n % 2 ^ 64) map.pgoff) (omega arith) in
    let table_len : count * 8 % 2 ^ 64 / 8 ≡ count = omega arith in
    rw (segbase, table_data, table_len)

module _ {Elf Scn : Type 0} (lib : Libelf Elf Scn) (fuel fd : ℕ) (balance : Balance DsoCache)
    {files : Files} {name file : List ℕ} (f : IsFile files name file fd) (hdr : ℕ)
    (dwarf_search_unwind_table : DynInfo → ℕ → Cmd ℤ) where
  -- At an address that a map of the process contains, where the mapped file has a header,
  -- find_proc_info is libunwind's search of the table behind that header, seen in the process, with
  -- its number of entries as its length; only the dso is changed, and stays valid.
  pub find_proc_info-Located :
      (w : World) (ui : UnwindInfo) (ms : Ptr) (maps : Maps) (p : Ptr) (m : Map) (d : Ptr)
      (dso : Dso) (ip offset : ℕ) (pf pg : Format) (count : ℕ)
      → IsThread w ui ms maps
      → covering w ip (to_list maps.entries) ≡ some p
      → MapsFile w p m d dso name file fd
      → Located lib fuel fd dso offset
      → HeaderAt file offset pf pg count
      → count < 2 ^ 61
      → (dso' : Dso) × (find_proc_info balance files lib fuel hdr dwarf_search_unwind_table ip ui w
          ≡ dwarf_search_unwind_table
              (table_of m offset pf pg count)
              ip
              (record w { dso = update w.dso d (some dso') }))
        × IsDso name file fd dso'
  unfolding unmap_ip
  find_proc_info-Located w ui ms maps p m d dso ip offset pf pg count t c mf l h small =
      let (dso', reads, valid) =
        read_unwind_spec_eh_frame-Located lib fuel fd balance f hdr dso offset pf pg count mf.valid
          l h in
      (
        dso',
        (unfold find_proc_info search_map load_map load_dso store_dso in
            rw (find_map-covering w ui ms maps ip t, ◌>>=◌)
              (rw c (
                rw (mf.live, ◌>>=◌)
                  (rw (mf.of_dso, ◌>>=◌)
                    (rw (mf.dso_live, ◌>>=◌)
                      (rw (reads, ◌>>=◌) (rw (dyn_info-spec_of m offset pf pg count small)))))))),
        valid,
      )
