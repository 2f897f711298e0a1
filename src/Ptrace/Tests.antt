-- ===== src/Ptrace/Tests.antt =====
-- The offsets against the layout, at one set of registers.
use libdw_bcc.Prelude.{pos, ◌≡◌, refl}
use libdw_bcc.Outcome.{ok, fault}
use libdw_bcc.Ptrace.{PtRegs, reg_value, x86_reg, x86_sp, x86_gs}

abbrev numbered : PtRegs
numbered = record {
  r15 = 15;
  r14 = 14;
  r13 = 13;
  r12 = 12;
  bp = 106;
  bx = 103;
  r11 = 11;
  r10 = 10;
  r9 = 9;
  r8 = 8;
  ax = 100;
  cx = 101;
  dx = 102;
  si = 104;
  di = 105;
  orig_ax = 0;
  ip = 116;
  cs = 51;
  flags = 2;
  sp = 107;
  ss = 43;
}

stack_pointer : reg_value numbered (pos (x86_reg x86_sp)) ≡ ok 107
unfolding reg_value
stack_pointer = refl

no_gs : reg_value numbered (pos (x86_reg x86_gs)) ≡ fault
unfolding reg_value
no_gs = refl
