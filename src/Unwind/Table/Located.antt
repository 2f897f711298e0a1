-- ===== src/Unwind/Table/Located.antt =====
-- The header is found by its section's name, or where it was found before, and read from the file.
use libdw_bcc.Prelude.{
  ℕ, ◌+◌, ◌-◌, ◌^◌, ◌<◌, ◌≤◌, min, ne→==, pos, ◌≡◌, ◌∙◌, ap, add64, Bool, true, none, some, List,
  length, arith,
}
use libdw_bcc.Outcome.{ok, ◌>>=◌}
use libdw_bcc.Rbtree.{Balance}
use libdw_bcc.Utility.{Files}
use libdw_bcc.Dso.{DsoCache, Dso}
use libdw_bcc.Dso.Open.{get_fd, binary_type_filename}
use libdw_bcc.Dso.Cache.File.{IsFile, IsDso, window, try_to_open-IsDso}
use libdw_bcc.Dso.Cache.Whole.{read_offset-window}
use libdw_bcc.Symbol.{Shdr, Libelf, Sections, first_named, elf_section_by_name-first_named}
use libdw_bcc.Unwind.Encoding.{Format, format_size}
use libdw_bcc.Unwind.Encoding.RoundTrip.{Fits}
use libdw_bcc.Unwind.Table.{
  Spec, hdr_size, eh_frame_hdr_name, unwind_spec_ehframe, elf_section_offset, find_eh_frame_hdr,
  eh_frame_hdr, set_eh_frame_hdr_offset, read_unwind_spec_eh_frame,
}
use libdw_bcc.Unwind.Table.Header.{header, read_header-header, format_size-le}

-- A file with a header at an offset, as a linker writes it: the pointer to .eh_frame in any of the
-- eight encodings, the count in one of the four absolute ones.
pub record HeaderAt (file : List ℕ) (offset : ℕ) (f g : Format) (count : ℕ) : Type 0 where
  pub version : ℕ
  pub pcrel : Bool
  pub ptr : ℕ
  pub table_enc : ℕ
  pub rest : List ℕ
  pub holds : window file offset hdr_size ≡ header version f pcrel ptr g count table_enc rest
  pub in_file : offset + hdr_size ≤ length file
  pub not_first : 0 < offset
  pub small : count < 2 ^ 64
  pub fits : Fits g count

-- The table begins behind the two encoded values.
abbrev pub spec_of : ℕ → Format → Format → ℕ → Spec
spec_of offset f g count = record {
  table_data = offset + 4 + format_size f + format_size g;
  segbase = offset;
  fde_count = count;
}

module _ {Elf Scn : Type 0} (lib : Libelf Elf Scn) (fuel fd : ℕ) where
  -- An ELF file whose section .eh_frame_hdr begins at an offset; there is fuel for its sections.
  pub record SectionAt (offset : ℕ) : Type 0 where
    pub elf : Elf
    pub shstrndx : ℕ
    pub secs : List (Scn × Shdr)
    pub scn : Scn
    pub shdr : Shdr
    pub idx : ℕ
    pub begins : lib.elf_begin fd ≡ some elf
    pub has_header : lib.gelf_getehdr elf ≡ some shstrndx
    pub has_names : lib.elf_rawdata elf shstrndx ≡ true
    pub sections : Sections lib elf none secs
    pub enough : length secs < fuel
    pub found : first_named lib elf shstrndx eh_frame_hdr_name secs 1 ≡ some (scn, shdr, idx)
    pub at_offset : shdr.sh_offset ≡ offset

  -- How the code comes to know the offset.
  pub data Located (dso : Dso) (offset : ℕ) : Type 0 where
    known : dso.content.eh_frame_hdr_offset ≡ offset → Located dso offset
    looked_up : dso.content.eh_frame_hdr_offset ≡ 0 → SectionAt offset → Located dso offset

  elf_section_offset-SectionAt :
      (offset : ℕ) → SectionAt offset → elf_section_offset lib fuel fd eh_frame_hdr_name ≡ ok offset
  unfolding elf_section_offset
  elf_section_offset-SectionAt offset s =
      rw (s.begins, s.has_header, elf_section_offset)
        (rw
          (
            elf_section_by_name-first_named lib fuel s.elf s.shstrndx eh_frame_hdr_name s.secs
                s.has_names s.sections s.enough,
            ◌>>=◌,
          )
          (rw s.found (ap ok s.at_offset)))

  module _ (balance : Balance DsoCache) {files : Files} {name file : List ℕ}
      (f : IsFile files name file fd) (hdr : ℕ) where
    get_fd-IsDso :
        (dso : Dso)
        → IsDso name file fd dso
        → (dso' : Dso) × (get_fd files dso ≡ ok (dso', pos fd)) × IsDso name file fd dso'
    unfolding get_fd
    get_fd-IsDso dso d =
        let (opened, opens, is_open, same, d') = try_to_open-IsDso f dso d in
        (opened, rw (d.no_error) (rw (opens, ◌>>=◌) (ap (λ n. ok (opened, n)) is_open)), d')

    set_offset-IsDso :
        (dso : Dso) (offset : ℕ)
        → IsDso name file fd dso
        → IsDso name file fd (set_eh_frame_hdr_offset dso offset)
    unfolding binary_type_filename
    set_offset-IsDso dso offset d = record {
      cached = d.cached;
      named = d.named;
      closed_or_open = d.closed_or_open;
      no_error = d.no_error;
      size_known = d.size_known;
    }

    eh_frame_hdr-Located :
        (dso : Dso) (offset : ℕ)
        → IsDso name file fd dso
        → 0 < offset
        → Located dso offset
        → (dso' : Dso) × (eh_frame_hdr balance files lib fuel hdr dso
              dso.content.eh_frame_hdr_offset
            ≡ ok (dso', some offset))
          × IsDso name file fd dso'
    unfolding eh_frame_hdr find_eh_frame_hdr
    eh_frame_hdr-Located dso offset d p (known e) = (
      dso,
      ap (eh_frame_hdr balance files lib fuel hdr dso) e ∙ rw (ne→== offset 0 (omega arith)),
      d,
    )
    eh_frame_hdr-Located dso offset d p (looked_up e s) =
        let (opened, opens, d') = get_fd-IsDso dso d in
        (
          set_eh_frame_hdr_offset opened offset,
          ap (eh_frame_hdr balance files lib fuel hdr dso) e
              ∙ rw (opens, ◌>>=◌) (rw (elf_section_offset-SectionAt offset s, ◌>>=◌)),
          set_offset-IsDso opened offset d',
        )

    unwind_spec_ehframe-HeaderAt :
        (dso : Dso) (offset : ℕ) (pf pg : Format) (count : ℕ)
        → IsDso name file fd dso
        → HeaderAt file offset pf pg count
        → (dso' : Dso) × (unwind_spec_ehframe balance files lib fuel hdr dso offset
            ≡ ok (dso', some (spec_of offset pf pg count)))
          × IsDso name file fd dso'
    unfolding unwind_spec_ehframe
    unwind_spec_ehframe-HeaderAt dso offset pf pg count d h =
        let small = f.small in
        let (after, reads, d') =
          read_offset-window balance f dso offset hdr_size d (omega arith)
            (omega (arith, h.in_file)) (omega (arith, h.in_file)) in
        let whole : min hdr_size (length file - offset) ≡ 20 = omega (arith, h.in_file) in
        let place : add64 (4 + format_size pf + format_size pg) offset
            ≡ offset + 4 + format_size pf + format_size pg =
          omega (arith, h.in_file, format_size-le pf, format_size-le pg) in
        (
          after,
          rw (reads, ◌>>=◌)
              (rw whole (
                rw (h.holds) (
                  rw
                    (
                      read_header-header hdr offset h.version pf h.pcrel h.ptr pg count h.table_enc
                          h.rest h.small h.fits,
                      ◌>>=◌,
                    )
                    (rw place)))),
          d',
        )

    -- Where a shared object's file has a header, at the offset that is known, or at the offset of
    -- its section .eh_frame_hdr, the table of unwind data is found behind the two encoded values of
    -- the header, with its number of entries; and the dso stays valid.
    pub read_unwind_spec_eh_frame-Located :
        (dso : Dso) (offset : ℕ) (pf pg : Format) (count : ℕ)
        → IsDso name file fd dso
        → Located dso offset
        → HeaderAt file offset pf pg count
        → (dso' : Dso) × (read_unwind_spec_eh_frame balance files lib fuel hdr dso
            ≡ ok (dso', some (spec_of offset pf pg count)))
          × IsDso name file fd dso'
    read_unwind_spec_eh_frame-Located dso offset pf pg count d l h =
        let (found, finds, d₁) = eh_frame_hdr-Located dso offset d (h.not_first) l in
        let (after, reads, d₂) = unwind_spec_ehframe-HeaderAt found offset pf pg count d₁ h in
        (
          after,
          unfold read_unwind_spec_eh_frame in
              rw (finds, ◌>>=◌) (rw (ne→== offset 0 (omega (arith, h.not_first))) reads),
          d₂,
        )
