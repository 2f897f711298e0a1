-- ===== src/Unwind/Registers.antt =====
-- LIBUNWIND__ARCH_REG_ID and access_reg: libunwind's register numbers, and the value of one.
use libdw_bcc.Prelude.{ℕ, ℤ, pos, neg, ◌≡◌, refl, Bool, false, Option, none, some, if◌then◌else◌}
use libdw_bcc.Outcome.{Outcome, ok, abort, ◌>>=◌}
use libdw_bcc.Ptrace.{
  PtRegs, x86_reg, reg_value, x86_ax, x86_bx, x86_cx, x86_dx, x86_si, x86_di, x86_bp, x86_sp,
  x86_ip, x86_r8, x86_r9, x86_r10, x86_r11, x86_r12, x86_r13, x86_r14, x86_r15,
}

-- The UNW_X86_64_* numbers that the switch names, and any other number.
pub data UnwReg : Type 0 where
  rax rdx rcx rbx rsi rdi rbp rsp r8 r9 r10 r11 r12 r13 r14 r15 rip : UnwReg
  other_reg : ℤ → UnwReg

-- EINVAL
abbrev pub einval : ℕ
einval = 22

unfoldable pub arch_reg_id : UnwReg → ℤ
arch_reg_id rax = pos (x86_reg x86_ax)
arch_reg_id rdx = pos (x86_reg x86_dx)
arch_reg_id rcx = pos (x86_reg x86_cx)
arch_reg_id rbx = pos (x86_reg x86_bx)
arch_reg_id rsi = pos (x86_reg x86_si)
arch_reg_id rdi = pos (x86_reg x86_di)
arch_reg_id rbp = pos (x86_reg x86_bp)
arch_reg_id rsp = pos (x86_reg x86_sp)
arch_reg_id r8 = pos (x86_reg x86_r8)
arch_reg_id r9 = pos (x86_reg x86_r9)
arch_reg_id r10 = pos (x86_reg x86_r10)
arch_reg_id r11 = pos (x86_reg x86_r11)
arch_reg_id r12 = pos (x86_reg x86_r12)
arch_reg_id r13 = pos (x86_reg x86_r13)
arch_reg_id r14 = pos (x86_reg x86_r14)
arch_reg_id r15 = pos (x86_reg x86_r15)
arch_reg_id rip = pos (x86_reg x86_ip)
arch_reg_id (other_reg n) = neg einval

-- access_reg: `valp` holds a value only if the register was read.
unfoldable pub access_reg : PtRegs → UnwReg → Bool → Outcome (ℤ × Option ℕ)
access_reg uregs regnum write =
    if write
    then ok (pos 0, none)
    else reg_value uregs (arch_reg_id regnum) >>= λ v. ok (pos 0, some v)

-- What the psABI says that the numbers stand for.
abbrev pub register : UnwReg → PtRegs → Option ℕ
register rax r = some r.ax
register rdx r = some r.dx
register rcx r = some r.cx
register rbx r = some r.bx
register rsi r = some r.si
register rdi r = some r.di
register rbp r = some r.bp
register rsp r = some r.sp
register r8 r = some r.r8
register r9 r = some r.r9
register r10 r = some r.r10
register r11 r = some r.r11
register r12 r = some r.r12
register r13 r = some r.r13
register r14 r = some r.r14
register r15 r = some r.r15
register rip r = some r.ip
register (other_reg n) r = none

abbrev pub read_result : Option ℕ → Outcome (ℤ × Option ℕ)
read_result none = abort
read_result (some v) = ok (pos 0, some v)

-- A read gives the register that libunwind's number stands for, out of the saved registers; a
-- number that is none of them ends in the assert of reg_value.
pub access_reg-reads :
    (uregs : PtRegs) (regnum : UnwReg)
    → access_reg uregs regnum false ≡ read_result (register regnum uregs)
unfolding access_reg reg_value arch_reg_id
access_reg-reads uregs rax = refl
access_reg-reads uregs _ = refl
