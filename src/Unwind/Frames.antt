-- ===== src/Unwind/Frames.antt =====
-- get_entries: the walk over the frames. libunwind's cursor is a parameter.
pub mod Walk
use libdw_bcc.Prelude.{
  ℕ, zero, suc, ◌+◌, ◌-◌, ℤ, pos, negsuc, sub64, ◌==◌, Bool, true, false, Option, none, some, List,
  [], ◌∷◌, if◌then◌else◌, length, is_neg,
}
use libdw_bcc.Outcome.{Outcome, ok, ◌>>=◌}
use libdw_bcc.Ptrace.{PtRegs, reg_value, x86_reg, x86_ip}
use libdw_bcc.Store.{Ptr}
use libdw_bcc.Unwind.Registers.{einval}

-- libunwind's remote cursor: unw_init_remote, unw_step, unw_get_reg of UNW_REG_IP and
-- unw_is_signal_frame.
pub record Unwinder (Cursor : Type 0) : Type 0 where
  pub init_remote : Ptr → ℤ × Cursor
  pub step : Cursor → ℤ × Cursor
  pub get_ip : Cursor → ℕ
  pub is_signal_frame : Cursor → ℤ

-- struct stacktrace before the call: room for `depth` addresses, if `ips` is not NULL.
pub record Stacktrace : Type 0 where
  pub depth : ℤ
  pub has_ips : Bool

abbrev pub is_pos : ℤ → Bool
is_pos (pos zero) = false
is_pos (pos (suc n)) = true
is_pos (negsuc n) = false

abbrev pub is_zero : ℤ → Bool
is_zero (pos n) = n == 0
is_zero (negsuc n) = false

module _ {Cursor : Type 0} (unw : Unwinder Cursor) where
  -- The address stored for a frame: one less, for a frame that a call made.
  unfoldable pub frame_ip : Cursor → ℕ
  frame_ip c = if is_pos (unw.is_signal_frame c) then unw.get_ip c else sub64 (unw.get_ip c) 1

  -- The loop, with room for `room` more addresses: those that it stores.
  unfoldable pub walk : ℕ → Cursor → List ℕ
  walk zero c = []
  walk (suc room) c =
      let (r, c') = unw.step c in
      let rest = walk room c' in if is_pos r then frame_ip c' ∷ rest else []

  -- What get_entries leaves: its result, the new depth, if it was set, and the stored addresses.
  abbrev pub Entries : Type 0
  Entries = ℤ × Option ℕ × List ℕ

  -- get_entries from unw_init_remote on.
  unfoldable pub walk_from : ℤ × Cursor → ℕ → ℕ → Entries
  walk_from (ret, c) room val =
      let ips = val ∷ (if is_zero ret then walk room c else []) in (ret, some (length ips), ips)

  -- get_entries with room for depth addresses, of which the first is the instruction pointer.
  unfoldable pub get_entries_room : PtRegs → Option Ptr → ℕ → Outcome Entries
  get_entries_room uregs addr_space zero = ok (pos einval, none, [])
  get_entries_room uregs addr_space (suc room) = reg_value uregs (pos (x86_reg x86_ip)) >>= λ val.
      elim addr_space [
        | none ↦ ok (negsuc 0, none, val ∷ [])
        | some a ↦ ok (walk_from (unw.init_remote a) room val)
      ]

  abbrev pub get_entries_sized : PtRegs → Option Ptr → ℤ → Outcome Entries
  get_entries_sized uregs addr_space (pos depth) = get_entries_room uregs addr_space depth
  get_entries_sized uregs addr_space (negsuc n) = ok (pos einval, none, [])

  -- get_entries
  unfoldable pub get_entries : PtRegs → Option Ptr → Stacktrace → Outcome Entries
  get_entries uregs addr_space st =
      if st.has_ips then get_entries_sized uregs addr_space st.depth else ok (pos einval, none, [])
