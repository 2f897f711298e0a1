-- ===== src/Outcome.antt =====
-- How a run of C code ends: with a value, in `assert`, or in undefined behaviour.
use libdw_bcc.Prelude.{Bool, true, false}

-- `abort` is a failed `assert`; `fault` is a read of freed, unmapped or unwritten memory.
pub data Outcome (A : Type 0) : Type 0 where
  ok : A → Outcome A
  abort : Outcome A
  fault : Outcome A

infixl 5 ◌>>=◌ ◌>>◌
abbrev pub ◌>>=◌ : {A B : Type 0} → Outcome A → (A → Outcome B) → Outcome B
ok a >>= f = f a
abort >>= f = abort
fault >>= f = fault

abbrev pub ◌>>◌ : {B : Type 0} → Outcome (Unit {0}) → Outcome B → Outcome B
m >> k = m >>= λ _. k

-- assert(e)
abbrev pub assert : Bool → Outcome (Unit {0})
assert true = ok tt
assert false = abort
