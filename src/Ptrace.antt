-- ===== src/Ptrace.antt =====
-- src/ptrace.h: the saved registers of a task, and reading one by its number.
mod Tests
use libdw_bcc.Prelude.{
  ℕ, ◌+◌, ◌-◌, ◌*◌, ◌/◌, ◌%◌, ◌^◌, ℤ, pos, negsuc, ltb, ◌==◌, ◌&&◌, Option, none, some, List, [],
  ◌∷◌, if◌then◌else◌, get_elem?, length,
}
use libdw_bcc.Outcome.{Outcome, ok, abort, fault, ◌>>=◌, ◌>>◌, assert}

-- struct pt_regs
pub record PtRegs : Type 0 where
  pub r15 : ℕ
  pub r14 : ℕ
  pub r13 : ℕ
  pub r12 : ℕ
  pub bp : ℕ
  pub bx : ℕ
  pub r11 : ℕ
  pub r10 : ℕ
  pub r9 : ℕ
  pub r8 : ℕ
  pub ax : ℕ
  pub cx : ℕ
  pub dx : ℕ
  pub si : ℕ
  pub di : ℕ
  pub orig_ax : ℕ
  pub ip : ℕ
  pub cs : ℕ
  pub flags : ℕ
  pub sp : ℕ
  pub ss : ℕ

-- The struct in memory: one unsigned long after the other.
abbrev pub words : PtRegs → List ℕ
words r =
    r.r15 ∷ r.r14 ∷ r.r13 ∷ r.r12 ∷ r.bp ∷ r.bx ∷ r.r11 ∷ r.r10 ∷ r.r9 ∷ r.r8 ∷ r.ax ∷ r.cx ∷ r.dx
    ∷ r.si ∷ r.di ∷ r.orig_ax ∷ r.ip ∷ r.cs ∷ r.flags ∷ r.sp ∷ r.ss ∷ []

-- enum x86_regs, by its values.
pub data X86Reg : Type 0 where
  x86_ax x86_bx x86_cx x86_dx x86_si x86_di x86_bp x86_sp x86_ip x86_flags x86_cs x86_ss : X86Reg
  x86_ds x86_es x86_fs x86_gs x86_r8 x86_r9 x86_r10 x86_r11 x86_r12 x86_r13 x86_r14 x86_r15 : X86Reg

abbrev pub x86_reg : X86Reg → ℕ
x86_reg x86_ax = 0
x86_reg x86_bx = 1
x86_reg x86_cx = 2
x86_reg x86_dx = 3
x86_reg x86_si = 4
x86_reg x86_di = 5
x86_reg x86_bp = 6
x86_reg x86_sp = 7
x86_reg x86_ip = 8
x86_reg x86_flags = 9
x86_reg x86_cs = 10
x86_reg x86_ss = 11
x86_reg x86_ds = 12
x86_reg x86_es = 13
x86_reg x86_fs = 14
x86_reg x86_gs = 15
x86_reg x86_r8 = 16
x86_reg x86_r9 = 17
x86_reg x86_r10 = 18
x86_reg x86_r11 = 19
x86_reg x86_r12 = 20
x86_reg x86_r13 = 21
x86_reg x86_r14 = 22
x86_reg x86_r15 = 23

-- (unsigned int) -1
abbrev pub no_offset : ℕ
no_offset = 2 ^ 32 - 1

-- pt_regs_offset: offsetof each register; the struct does not store ds, es, fs, gs.
unfoldable pub pt_regs_offset : List ℕ
pt_regs_offset =
    80 ∷ 40 ∷ 88 ∷ 96 ∷ 104 ∷ 112 ∷ 32 ∷ 152 ∷ 128 ∷ 144 ∷ 136 ∷ 160 ∷ no_offset ∷ no_offset
    ∷ no_offset ∷ no_offset ∷ 72 ∷ 64 ∷ 56 ∷ 48 ∷ 24 ∷ 16 ∷ 8 ∷ 0 ∷ []

-- The u64 at a byte offset into the struct: outside it, or across two words, is no register.
unfoldable pub load_word : PtRegs → ℕ → Outcome ℕ
load_word regs offset =
    if offset % 8 == 0
    then elim (get_elem? (words regs) (offset / 8)) [ none ↦ fault | some w ↦ ok w ]
    else fault

-- reg_value: `idx` is compared as an unsigned number, so a negative one fails the assert.
unfoldable pub reg_value : PtRegs → ℤ → Outcome ℕ
unfolding load_word pt_regs_offset
reg_value regs (negsuc n) = abort
reg_value regs (pos idx) = elim (get_elem? pt_regs_offset idx) [
  | none ↦ abort
  | some offset ↦ load_word regs offset
]
