-- ===== src/Unwind/Table/Header.antt =====
-- A header that a linker writes is read as its fields.
use libdw_bcc.Prelude.{
  ℕ, ◌+◌, ◌-◌, ◌%◌, ◌^◌, ◌<◌, ◌≤◌, ◌≡◌, ◌∙◌, ap, sym, add64, length-append, Bool, false, some, List,
  [], ◌∷◌, ◌++◌, if◌then◌else◌, arith, length,
}
use libdw_bcc.Outcome.{ok, ◌>>=◌}
use libdw_bcc.Unwind.Encoding.{
  Buffer, Format, sdata4, udata4, sdata8, udata8, format_size, extend, read_encoded_value,
}
use libdw_bcc.Unwind.Encoding.RoundTrip.{
  le_bytes, length-le_bytes, encoding_of, format_mod, Fits, read_encoded_value-le_bytes,
  read_encoded_value-stored,
}
use libdw_bcc.Unwind.Table.{hdr_buffer, read_header}

-- The four bytes in front of the encoded values.
abbrev pub hdr_bytes : ℕ → Format → Bool → Format → ℕ → List ℕ
hdr_bytes version f pcrel g table_enc =
    version ∷ encoding_of f pcrel ∷ encoding_of g false ∷ table_enc ∷ []

-- struct eh_frame_hdr, and the bytes behind it.
abbrev pub header : ℕ → Format → Bool → ℕ → Format → ℕ → ℕ → List ℕ → List ℕ
header version f pcrel ptr g count table_enc rest =
    hdr_bytes version f pcrel g table_enc
    ++ (le_bytes (format_size f) ptr ++ (le_bytes (format_size g) count ++ rest))

pub format_size-le : (f : Format) → format_size f ≤ 8
format_size-le sdata4 = omega arith
format_size-le udata4 = omega arith
format_size-le sdata8 = omega arith
format_size-le udata8 = omega arith

module _ (base offset version : ℕ) (f : Format) (pcrel : Bool) (ptr : ℕ) (g : Format)
    (count table_enc : ℕ) (rest : List ℕ) where
  abbrev hdr : Buffer
  hdr = hdr_buffer base (header version f pcrel ptr g count table_enc rest)

  abbrev bytes_from : ℕ → Buffer
  bytes_from end = record {
    base = base;
    bytes = header version f pcrel ptr g count table_enc rest;
    end = end;
  }

  read_ptr :
      read_encoded_value hdr 4 (encoding_of f pcrel)
      ≡ ok (
          some (
            add64 (if pcrel then add64 base 4 else 0) (extend f (ptr % format_mod f)),
            4 + format_size f,
          ))
  read_ptr =
      let pre = hdr_bytes version f pcrel g table_enc in
      let behind = le_bytes (format_size g) count ++ rest in
      let end : 20 ≡ length (pre ++ le_bytes (format_size f) ptr) + (16 - format_size f) =
        omega (arith, format_size-le f, length-le_bytes (format_size f) ptr) in
      ap (λ e. read_encoded_value (bytes_from e) 4 (encoding_of f pcrel)) end
      ∙ read_encoded_value-le_bytes f pcrel base ptr pre behind (16 - format_size f)

  read_fde_count :
      count < 2 ^ 64
      → Fits g count
      → read_encoded_value hdr (4 + format_size f) (encoding_of g false)
        ≡ ok (some (count, 4 + format_size f + format_size g))
  read_fde_count small fits =
      let size_f = length-le_bytes (format_size f) ptr in
      let pre = hdr_bytes version f pcrel g table_enc ++ le_bytes (format_size f) ptr in
      let room = 16 - format_size f - format_size g in
      let cur : 4 + format_size f ≡ length pre = omega (arith, size_f) in
      let end : 20 ≡ length (pre ++ le_bytes (format_size g) count) + room = omega (
        arith,
        format_size-le f,
        format_size-le g,
        size_f,
        length-le_bytes (format_size g) count,
        length-append pre (le_bytes (format_size g) count),
      ) in
      ap (λ k. read_encoded_value hdr k (encoding_of g false)) cur
      ∙ ap (λ e. read_encoded_value (bytes_from e) (length pre) (encoding_of g false)) end
      ∙ read_encoded_value-stored g false base count pre rest room small fits
      ∙ ap (λ k. ok (some (count, k + format_size g))) (sym cur)

  -- Of a header with two values in any two of the eight encodings, of which the count is absolute,
  -- the count is read, and the table begins behind the count.
  pub read_header-header :
      count < 2 ^ 64
      → Fits g count
      → read_header base offset (header version f pcrel ptr g count table_enc rest)
        ≡ ok (
            some (record {
              table_data = add64 (4 + format_size f + format_size g) offset;
              segbase = offset;
              fde_count = count;
            }))
  unfolding read_header
  read_header-header small fits = rw (read_ptr, ◌>>=◌) (rw (read_fde_count small fits, ◌>>=◌))
