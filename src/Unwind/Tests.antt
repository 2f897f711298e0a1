-- ===== src/Unwind/Tests.antt =====
-- Encoded pointers and registers at concrete inputs.
use libdw_bcc.Prelude.{ℕ, ◌+◌, ◌≤◌, ◌≡◌, refl, ◌⊎◌, true, false, some, none, [], ◌∷◌, arith}
use libdw_bcc.Outcome.{ok}
use libdw_bcc.Ptrace.{PtRegs}
use libdw_bcc.Unwind.Registers.{access_reg, access_reg-reads, read_result, register, rip}
use libdw_bcc.Unwind.Encoding.{Buffer, read_encoded_value, sdata4}
use libdw_bcc.Unwind.Encoding.RoundTrip.{
  buffer_of, stored_value, le_bytes, read_encoded_value-stored,
}
use libdw_bcc.Unwind.Encoding.Supported.{is_supported, read_encoded_value-decides}

abbrev numbered : PtRegs
numbered = record {
  r15 = 15;
  r14 = 14;
  r13 = 13;
  r12 = 12;
  bp = 106;
  bx = 103;
  r11 = 11;
  r10 = 10;
  r9 = 9;
  r8 = 8;
  ax = 100;
  cx = 101;
  dx = 102;
  si = 104;
  di = 105;
  orig_ax = 0;
  ip = 116;
  cs = 51;
  flags = 2;
  sp = 107;
  ss = 43;
}

access_reg-reads_example : access_reg numbered rip false ≡ read_result (register rip numbered)
access_reg-reads_example = access_reg-reads numbered rip

-- A pointer 16 bytes back, relative to itself, in four bytes.
read_encoded_value-stored_example :
    read_encoded_value
      (buffer_of 0x1000 (1 ∷ 2 ∷ []) (le_bytes 4 (stored_value true 0xff2 0x1002)) [] 0)
      2
      0x1b
    ≡ ok (some (0xff2, 2 + 4))
read_encoded_value-stored_example =
    read_encoded_value-stored sdata4 true 0x1000 0xff2 (1 ∷ 2 ∷ []) [] 0 (omega arith) refl

abbrev eight : Buffer
eight = record { base = 0; bytes = 1 ∷ 0 ∷ 0 ∷ 0 ∷ 0 ∷ 0 ∷ 0 ∷ 0 ∷ []; end = 8 }

read_encoded_value-decides_example :
    (is_supported 0x3b ≡ true)
      × ((v : ℕ) × (n : ℕ) × (read_encoded_value eight 0 0x3b ≡ ok (some (v, 0 + n))) × (n ≤ 8))
    ⊎ (is_supported 0x3b ≡ false) × (read_encoded_value eight 0 0x3b ≡ ok none)
read_encoded_value-decides_example =
    read_encoded_value-decides eight 0 0x3b (omega arith) (omega arith) (omega arith)
