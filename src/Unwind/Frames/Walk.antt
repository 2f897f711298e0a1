-- ===== src/Unwind/Frames/Walk.antt =====
-- The stored addresses are the frames that libunwind steps through, as far as there is room.
mod Tests
use libdw_bcc.Prelude.{
  ℕ, zero, suc, ◌+◌, ◌≤◌, ℤ, pos, negsuc, ◌≡◌, refl, ◌⊎◌, inl, inr, Bool, true, false, Option, none,
  some, List, [], ◌∷◌, length, take, arith, ◌∙◌, ap, sub64, if◌then◌else◌,
}
use libdw_bcc.Outcome.{ok}
use libdw_bcc.Ptrace.{PtRegs, reg_value, x86_reg, x86_ip}
use libdw_bcc.Store.{Ptr}
use libdw_bcc.Unwind.Frames.{
  Unwinder, Stacktrace, is_pos, is_zero, frame_ip, walk, walk_from, get_entries_room, get_entries,
}

module _ {Cursor : Type 0} (unw : Unwinder Cursor) where
  -- The frames that libunwind can step to from a cursor, outermost last, each with the address that
  -- its caller was at: the return address less one, or the address itself in a signal frame.
  pub data Frames : Cursor → List ℕ → Type 0 where
    last : {c : Cursor} → is_pos (unw.step c).0 ≡ false → Frames c []
    signal :
        {c : Cursor} {ips : List ℕ}
        → is_pos (unw.step c).0 ≡ true
        → is_pos (unw.is_signal_frame (unw.step c).1) ≡ true
        → Frames (unw.step c).1 ips
        → Frames c (unw.get_ip (unw.step c).1 ∷ ips)
    call :
        {c : Cursor} {ips : List ℕ}
        → is_pos (unw.step c).0 ≡ true
        → is_pos (unw.is_signal_frame (unw.step c).1) ≡ false
        → Frames (unw.step c).1 ips
        → Frames c (sub64 (unw.get_ip (unw.step c).1) 1 ∷ ips)

  pub walk-Frames :
      (room : ℕ) {c : Cursor} {ips : List ℕ} → Frames c ips → walk unw room c ≡ take room ips
  unfolding walk frame_ip
  walk-Frames zero f = refl
  walk-Frames (suc room) (last stops) = rw stops
  walk-Frames (suc room) (signal {c} {ips} goes sig f) =
      rw (goes, sig) (ap (λ r. unw.get_ip (unw.step c).1 ∷ r) (walk-Frames room f))
  walk-Frames (suc room) (call {c} {ips} goes sig f) =
      rw (goes, sig) (ap (λ r. sub64 (unw.get_ip (unw.step c).1) 1 ∷ r) (walk-Frames room f))

  length-walk : (room : ℕ) (c : Cursor) → length (walk unw room c) ≤ room
  unfolding walk
  length-walk zero c = omega arith
  length-walk (suc room) c = ground (arith, length-walk room (unw.step c).1)

  length-started_frames :
      (room : ℕ) (start : ℤ × Cursor)
      → length (if is_zero start.0 then walk unw room start.1 else []) ≤ room
  length-started_frames room (ret, c) = ground (arith, length-walk room c)

  instruction_pointer : (r : PtRegs) → reg_value r (pos (x86_reg x86_ip)) ≡ ok r.ip
  unfolding reg_value
  instruction_pointer r = refl

  -- Where libunwind can be started and its frames end, the result is 0 and the stored addresses
  -- are the instruction pointer and the frames, cut to the depth that was asked for; the depth
  -- becomes their number.
  pub get_entries-Frames :
      (uregs : PtRegs) (a : Ptr) (room : ℕ) (ips : List ℕ)
      → is_zero (unw.init_remote a).0 ≡ true
      → Frames (unw.init_remote a).1 ips
      → let stored = take (suc room) (uregs.ip ∷ ips) in
        get_entries unw uregs (some a) (record { depth = pos (suc room); has_ips = true })
        ≡ ok ((unw.init_remote a).0, some (length stored), stored)
  unfolding get_entries get_entries_room walk_from
  get_entries-Frames uregs a room ips started f =
      rw (instruction_pointer uregs) (rw started (rw (walk-Frames room f)))

  -- Whatever libunwind does, at most depth addresses are stored, the first of them the instruction
  -- pointer; a depth that is set is their number.
  pub get_entries-bounds :
      (uregs : PtRegs) (addr_space : Option Ptr) (room : ℕ)
      → (ret : ℤ) × (depth : Option ℕ) × (ips : List ℕ) × (get_entries unw uregs addr_space
            (record { depth = pos (suc room); has_ips = true })
          ≡ ok (ret, depth, uregs.ip ∷ ips))
        × (suc (length ips) ≤ suc room)
        × ((depth ≡ none) ⊎ (depth ≡ some (suc (length ips))))
  unfolding get_entries get_entries_room walk_from
  get_entries-bounds uregs none room =
      (negsuc 0, none, [], rw (instruction_pointer uregs), omega arith, inl refl)
  get_entries-bounds uregs (some a) room =
      let (ret, c) = unw.init_remote a in
      let ips : List ℕ = if is_zero ret then walk unw room c else [] in
      (
        ret,
        some (suc (length ips)),
        ips,
        rw (instruction_pointer uregs),
        omega (arith, length-started_frames room (unw.init_remote a)),
        inr refl,
      )
