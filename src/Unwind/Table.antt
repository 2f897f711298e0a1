-- ===== src/Unwind/Table.antt =====
-- read_unwind_spec_eh_frame: where a shared object keeps its table of unwind data.
pub mod Header
pub mod Located
pub mod Proc
mod Tests
use libdw_bcc.Prelude.{
  ℕ, ◌+◌, ◌*◌, ◌/◌, ◌^◌, ◌%◌, ◌==◌, ℤ, pos, negsuc, false, add64, sub64, Bool, Option, none, some,
  List, [], ◌∷◌, if◌then◌else◌,
}
use libdw_bcc.Outcome.{Outcome, ok, fault, ◌>>=◌}
use libdw_bcc.Rbtree.{Balance}
use libdw_bcc.Utility.{Files}
use libdw_bcc.Dso.{DsoCache, Dso}
use libdw_bcc.Dso.Open.{get_fd}
use libdw_bcc.Dso.Cache.{read_offset}
use libdw_bcc.Symbol.{Shdr, Libelf, elf_section_by_name}
use libdw_bcc.Unwind.Registers.{einval}
use libdw_bcc.Unwind.Encoding.{Buffer, read_encoded_value}

-- What unwind_spec_ehframe stores: the offsets in the file, and the length of the table.
pub record Spec : Type 0 where
  pub table_data : ℕ
  pub segbase : ℕ
  pub fde_count : ℕ

-- sizeof(struct eh_frame_hdr), and the offset of its member `enc`.
abbrev pub hdr_size : ℕ
hdr_size = 20

abbrev pub enc_offset : ℕ
enc_offset = 4

abbrev pub eh_frame_hdr_name : List ℕ
eh_frame_hdr_name =
    0x2e ∷ 0x65 ∷ 0x68 ∷ 0x5f ∷ 0x66 ∷ 0x72 ∷ 0x61 ∷ 0x6d ∷ 0x65 ∷ 0x5f ∷ 0x68 ∷ 0x64 ∷ 0x72 ∷ []

-- The header, read to the address `base`.
abbrev pub hdr_buffer : ℕ → List ℕ → Buffer
hdr_buffer base bytes = record { base = base; bytes = bytes; end = hdr_size }

abbrev pub counted : ℕ → Option (ℕ × ℕ) → Option Spec
counted offset none = none
counted offset (some (count, cur)) =
    some (record { table_data = add64 cur offset; segbase = offset; fde_count = count })

-- The value that is skipped, and then the count; `none` is -EINVAL.
abbrev pub read_count : Buffer → ℕ → ℕ → Option (ℕ × ℕ) → Outcome (Option Spec)
read_count hdr offset fde_count_enc none = ok none
read_count hdr offset fde_count_enc (some (ptr, cur)) = do
  count ← read_encoded_value hdr cur fde_count_enc
  ok (counted offset count)

-- The two encoded values of a header.
unfoldable pub read_header : ℕ → ℕ → List ℕ → Outcome (Option Spec)
read_header base offset (version ∷ eh_frame_ptr_enc ∷ fde_count_enc ∷ table_enc ∷ enc) =
    let bytes = version ∷ eh_frame_ptr_enc ∷ fde_count_enc ∷ table_enc ∷ enc in
    read_encoded_value (hdr_buffer base bytes) enc_offset eh_frame_ptr_enc
    >>= read_count (hdr_buffer base bytes) offset fde_count_enc
read_header base offset short = fault

abbrev pub is_hdr_size : ℤ → Bool
is_hdr_size (pos n) = n == hdr_size
is_hdr_size (negsuc n) = false

abbrev pub set_eh_frame_hdr_offset : Dso → ℕ → Dso
set_eh_frame_hdr_offset dso offset = record dso {
  content = record (dso.content) { eh_frame_hdr_offset = offset };
}

module _ {Elf Scn : Type 0} (lib : Libelf Elf Scn) (fuel : ℕ) where
  -- elf_section_offset; elf_end leaves nothing behind.
  unfoldable pub elf_section_offset : ℕ → List ℕ → Outcome ℕ
  elf_section_offset fd name = elim (lib.elf_begin fd) [
    | none ↦ ok 0
    | some elf ↦ elim (lib.gelf_getehdr elf) [
      | none ↦ ok 0
      | some shstrndx ↦ do
        found ← elf_section_by_name lib fuel elf shstrndx name
        elim found [ none ↦ ok 0 | some (s, shdr, idx) ↦ ok (shdr.sh_offset) ]
    ]
  ]

-- `hdr` is the address of the local variable.
module _ (balance : Balance DsoCache) (files : Files) {Elf Scn : Type 0} (lib : Libelf Elf Scn)
    (fuel hdr : ℕ) where
  -- unwind_spec_ehframe
  unfoldable pub unwind_spec_ehframe : Dso → ℕ → Outcome (Dso × Option Spec)
  unwind_spec_ehframe dso offset = do
    (dso', r, bytes) ← read_offset balance files dso offset hdr_size
    if is_hdr_size r
        then (do spec ← read_header hdr offset bytes; ok (dso', spec))
        else ok (dso', none)

  -- Where the offset is not known yet, it is looked up in the file.
  unfoldable pub find_eh_frame_hdr : Dso → ℤ → Outcome (Dso × Option ℕ)
  find_eh_frame_hdr dso (negsuc n) = ok (dso, none)
  find_eh_frame_hdr dso (pos fd) = do
    offset ← elf_section_offset lib fuel fd eh_frame_hdr_name
    ok (set_eh_frame_hdr_offset dso offset, some offset)

  -- The offset, if it was `offset` before.
  unfoldable pub eh_frame_hdr : Dso → ℕ → Outcome (Dso × Option ℕ)
  eh_frame_hdr dso offset =
      if offset == 0
      then (do (opened, fd) ← get_fd files dso; find_eh_frame_hdr opened fd)
      else ok (dso, some offset)

  -- read_unwind_spec_eh_frame
  unfoldable pub read_unwind_spec_eh_frame : Dso → Outcome (Dso × Option Spec)
  read_unwind_spec_eh_frame dso = do
    (dso', found) ← eh_frame_hdr dso dso.content.eh_frame_hdr_offset
    elim found [
      | none ↦ ok (dso', none)
      | some offset ↦ if offset == 0 then ok (dso', none) else unwind_spec_ehframe dso' offset
    ]
