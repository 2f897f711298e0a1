-- ===== src/Refcount.antt =====
-- src/refcount.h: a shared count of references. refcount_dec_and_test is two atomic accesses, a
-- subtraction and a load, so other threads may run between them.
pub mod Threads
mod Tests
use libdw_bcc.Prelude.{ℕ, Bool, ◌==◌, add32, sub32}

unfoldable pub refcount_inc : ℕ → ℕ
refcount_inc refs = add32 refs 1

-- One thread alone: the new count, and whether it is 0.
unfoldable pub refcount_dec_and_test : ℕ → ℕ × Bool
refcount_dec_and_test refs = let left = sub32 refs 1 in (left, left == 0)
