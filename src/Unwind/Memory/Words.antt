-- ===== src/Unwind/Memory/Words.antt =====
-- Words of the saved stack and of mapped files.
use libdw_bcc.Prelude.{
  ℕ, ◌+◌, ◌-◌, ◌^◌, ◌<◌, ◌≤◌, pos, add64, sub64, ltb, leb, ◌||◌, ne→==, ge→ltb, lt→ltb, gt→leb, ◌≡◌,
  refl, true, false, ◌⊎◌, inl, inr, some, List, length, arith, ◌∙◌,
}
use libdw_bcc.Outcome.{ok}
use libdw_bcc.Rbtree.{Balance}
use libdw_bcc.Utility.{Files}
use libdw_bcc.Dso.{DsoCache}
use libdw_bcc.Dso.Cache.File.{window}
use libdw_bcc.Store.{World, pure, ◌>>=◌}
use libdw_bcc.Ptrace.{PtRegs, reg_value, x86_reg, x86_sp}
use libdw_bcc.Unwind.Encoding.{le_value}
use libdw_bcc.Unwind.Memory.{
  UnwindInfo, word_size, stack_word, or_zero, access_dso_mem, access_saved, access_mem,
}

stack_pointer : (r : PtRegs) → reg_value r (pos (x86_reg x86_sp)) ≡ ok r.sp
unfolding reg_value
stack_pointer r = refl

stack_word-ok :
    (stack : List ℕ) (offset : ℕ)
    → offset + word_size ≤ length stack
    → stack_word stack offset ≡ ok (le_value (window stack offset word_size))
unfolding stack_word
stack_word-ok stack offset h = rw (ge→ltb (length stack) (offset + word_size) h)

-- A sample whose first `ss` bytes of stack are saved.
pub record IsSaved (ui : UnwindInfo) (ss : ℕ) : Type 0 where
  pub saved : ui.uc.size ≡ pos ss
  pub some_saved : 0 < ss
  pub stored : ss ≤ length ui.uc.stack
  pub no_wrap : ui.uc.uregs.sp + ss < 2 ^ 64

module _ (balance : Balance DsoCache) (files : Files) (ui : UnwindInfo) (ss : ℕ)
    (s : IsSaved ui ss) where
  access_mem-saved :
      (addr : ℕ) (w : World)
      → access_mem balance files ui addr false w ≡ access_saved balance files ui ss addr w
  unfolding access_mem
  access_mem-saved addr w = rw (s.saved) (rw (ne→== ss 0 (omega (arith, s.some_saved))))

  -- A word that ends before the last saved byte is read from the saved stack, and nothing changes.
  pub access_mem-stack :
      (addr : ℕ) (w : World)
      → ui.uc.uregs.sp ≤ addr
      → addr + word_size < ui.uc.uregs.sp + ss
      → access_mem balance files ui addr false w
        ≡ ok ((pos 0, some (le_value (window ui.uc.stack (addr - ui.uc.uregs.sp) word_size))), w)
  access_mem-stack addr w lo hi =
      let sp = ui.uc.uregs.sp in
      let limits = s.no_wrap in
      let no_wrap : add64 addr word_size ≡ addr + word_size = omega (arith, s.no_wrap) in
      let end : add64 sp ss ≡ sp + ss = omega (arith, s.no_wrap) in
      let offset : sub64 addr sp ≡ addr - sp = omega (arith, s.no_wrap) in
      access_mem-saved addr w
      ∙ (unfold access_saved in
          rw (stack_pointer ui.uc.uregs, ◌>>=◌)
            (rw
              (
                end,
                no_wrap,
                ge→ltb (addr + word_size) addr (omega arith),
                ge→ltb addr sp lo,
                gt→leb (sp + ss) (addr + word_size) hi,
              )
              (rw (offset, ◌>>=◌)
                (rw (stack_word-ok ui.uc.stack (addr - sp) (omega (arith, s.stored)), ◌>>=◌)))))

  pub access_mem-outside :
      (addr : ℕ) (w : World)
      → addr + word_size < 2 ^ 64
      → (addr < ui.uc.uregs.sp) ⊎ (ui.uc.uregs.sp + ss ≤ addr + word_size)
      → access_mem balance files ui addr false w
        ≡ (access_dso_mem balance files ui addr >>= λ access. pure (or_zero access)) w
  access_mem-outside addr w nw out =
      let sp = ui.uc.uregs.sp in
      let no_wrap : add64 addr word_size ≡ addr + word_size = omega arith in
      let end : add64 sp ss ≡ sp + ss = omega (arith, s.no_wrap) in
      let outside : (ltb addr sp || leb (sp + ss) (addr + word_size)) ≡ true = elim out [
        | inl below ↦ rw (lt→ltb addr sp below)
        | inr above ↦ ground (arith, above)
      ] in
      access_mem-saved addr w
      ∙ (unfold access_saved in
          rw (stack_pointer ui.uc.uregs, ◌>>=◌)
            (rw (end, no_wrap, ge→ltb (addr + word_size) addr (omega arith)) (rw outside)))
