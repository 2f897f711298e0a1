-- ===== src/Unwind/Encoding.antt =====
-- __dw_read_encoded_value: a pointer in one of the DWARF encodings, read from a buffer.
pub mod RoundTrip
pub mod Supported
use libdw_bcc.Prelude.{
  ℕ, zero, suc, ◌+◌, ◌-◌, ◌*◌, ◌^◌, ◌%◌, ltb, ◌==◌, add64, bit_and, bit_or, Option, none, some,
  List, [], ◌∷◌, if◌then◌else◌, length, take, drop,
}
use libdw_bcc.Outcome.{Outcome, ok, fault}

-- Bytes at the address `base`, of which those before `end` may be read.
pub record Buffer : Type 0 where
  pub base : ℕ
  pub bytes : List ℕ
  pub end : ℕ

-- The number that little-endian bytes stand for.
abbrev pub le_value : List ℕ → ℕ
le_value [] = 0
le_value (b ∷ bs) = b + 256 * le_value bs

-- A value, and the offset behind it; `none` is -EINVAL.
abbrev pub Reading : Type 0
Reading = Outcome (Option (ℕ × ℕ))

-- dw_read, of a type of `size` bytes. It checks against `end` alone.
unfoldable pub dw_read : Buffer → ℕ → ℕ → Reading
dw_read buf cur size =
    if ltb buf.end (cur + size)
    then ok none
    else if ltb (length buf.bytes) (cur + size)
    then fault
    else ok (some (le_value (take size (drop cur buf.bytes)), cur + size))

-- DW_EH_PE_omit, DW_EH_PE_ptr, DW_EH_PE_udata4.
abbrev pub pe_omit : ℕ
pe_omit = 0xff

abbrev pub pe_ptr : ℕ
pe_ptr = 0x00

abbrev pub pe_udata4 : ℕ
pe_udata4 = 0x03

-- The value that the encoded one is added to: DW_EH_PE_absptr, DW_EH_PE_pcrel or an error.
unfoldable pub application : ℕ → ℕ → Option ℕ
application encoding address =
    let appl = bit_and encoding 0x70 in
    if appl == 0x00 then some 0 else if appl == 0x10 then some address else none

pub data Format : Type 0 where
  sdata4 udata4 sdata8 udata8 : Format

-- An encoding that names no size is read as udata4.
unfoldable pub sized_encoding : ℕ → ℕ
sized_encoding encoding = if bit_and encoding 0x07 == 0 then bit_or encoding pe_udata4 else encoding

unfoldable pub format : ℕ → Option Format
format encoding =
    let f = bit_and encoding 0x0f in
    if f == 0x0b
    then some sdata4
    else if f == 0x03
    then some udata4
    else if f == 0x0c
    then some sdata8
    else if f == 0x04
    then some udata8
    else none

abbrev pub format_size : Format → ℕ
format_size sdata4 = 4
format_size udata4 = 4
format_size sdata8 = 8
format_size udata8 = 8

-- The value as it is added to a u64: an s32 is extended by its sign.
abbrev pub extend : Format → ℕ → ℕ
extend sdata4 v = if ltb v (2 ^ 31) then v else v + 2 ^ 64 - 2 ^ 32
extend udata4 v = v
extend sdata8 v = v
extend udata8 v = v

abbrev pub add_base : ℕ → Format → Reading → Reading
add_base val f (ok (some (v, cur))) = ok (some (add64 val (extend f v), cur))
add_base val f (ok none) = ok none
add_base val f other = other

unfoldable pub read_formatted : Buffer → ℕ → ℕ → Option Format → Reading
read_formatted buf cur val none = ok none
read_formatted buf cur val (some f) = add_base val f (dw_read buf cur (format_size f))

-- __dw_read_encoded_value: `cur` is the offset of *p.
unfoldable pub read_encoded_value : Buffer → ℕ → ℕ → Reading
read_encoded_value buf cur encoding =
    if encoding == pe_omit
    then ok (some (0, cur))
    else if encoding == pe_ptr
    then dw_read buf cur 8
    else elim (application encoding (add64 buf.base cur)) [
      | none ↦ ok none
      | some val ↦ read_formatted buf cur val (format (sized_encoding encoding))
    ]
