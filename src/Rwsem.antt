-- ===== src/Rwsem.antt =====
-- src/rwsem.c: the locks of the tables, over the locks of the threads library as a parameter.
use libdw_bcc.Prelude.{ℤ, pos, ◌≡◌, refl, Bool, true, if◌then◌else◌}

-- pthread_rwlock_init to pthread_rwlock_unlock, on the state of one lock.
pub record Rwlock (S : Type 0) : Type 0 where
  pub init : S → ℤ × S
  pub destroy : S → ℤ × S
  pub rdlock : S → ℤ × S
  pub wrlock : S → ℤ × S
  pub unlock : S → ℤ × S

-- src/utility.c sets the flag, and nothing clears it.
abbrev pub singlethreaded : Bool
singlethreaded = true

module _ {S : Type 0} (lock : Rwlock S) where
  abbrev pub init_rwsem : S → ℤ × S
  init_rwsem = lock.init

  abbrev pub exit_rwsem : S → ℤ × S
  exit_rwsem = lock.destroy

  abbrev pub down_read : Bool → S → ℤ × S
  down_read single s = if single then (pos 0, s) else lock.rdlock s

  abbrev pub up_read : Bool → S → ℤ × S
  up_read single s = if single then (pos 0, s) else lock.unlock s

  abbrev pub down_write : Bool → S → ℤ × S
  down_write single s = if single then (pos 0, s) else lock.wrlock s

  abbrev pub up_write : Bool → S → ℤ × S
  up_write single s = if single then (pos 0, s) else lock.unlock s

  -- A section between a lock and its release leaves no trace in the lock.
  section_quiet : (s : S) → up_write singlethreaded (down_write singlethreaded s).1 ≡ (pos 0, s)
  section_quiet s = refl
