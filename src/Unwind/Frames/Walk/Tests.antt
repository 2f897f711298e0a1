-- ===== src/Unwind/Frames/Walk/Tests.antt =====
-- Walks over a stack of three frames, of which the middle one is a signal handler's.
use libdw_bcc.Prelude.{
  ℕ, suc, ◌==◌, if◌then◌else◌, ◌≤◌, ℤ, pos, ◌≡◌, refl, ◌⊎◌, true, Option, some, none, List, [], ◌∷◌,
  length,
}
use libdw_bcc.Outcome.{ok}
use libdw_bcc.Ptrace.{PtRegs}
use libdw_bcc.Unwind.Frames.{Unwinder, get_entries}
use libdw_bcc.Unwind.Frames.Walk.{last, signal, call, get_entries-Frames, get_entries-bounds}

-- The cursor is the number of frames that it has left behind.
abbrev three_frames : Unwinder ℕ
three_frames = record {
  init_remote = λ a. (pos 0, 0);
  step = λ c. if c == 0 then (pos 1, 1) else if c == 1 then (pos 1, 2) else (pos 0, c);
  get_ip = λ c. if c == 1 then 0x4100 else 0x4200;
  is_signal_frame = λ c. if c == 1 then pos 1 else pos 0;
}

abbrev sampled : PtRegs
sampled = record {
  r15 = 0;
  r14 = 0;
  r13 = 0;
  r12 = 0;
  bp = 0;
  bx = 0;
  r11 = 0;
  r10 = 0;
  r9 = 0;
  r8 = 0;
  ax = 0;
  cx = 0;
  dx = 0;
  si = 0;
  di = 0;
  orig_ax = 0;
  ip = 0x4001;
  cs = 51;
  flags = 2;
  sp = 0x7000;
  ss = 43;
}

get_entries-Frames_example :
    get_entries three_frames sampled (some 5) (record { depth = pos 2; has_ips = true })
    ≡ ok (pos 0, some 2, 0x4001 ∷ 0x4100 ∷ [])
get_entries-Frames_example =
    get_entries-Frames three_frames sampled 5 1 (0x4100 ∷ 0x41ff ∷ []) refl
      (signal refl refl (call refl refl (last refl)))

get_entries-bounds_example :
    (ret : ℤ) × (depth : Option ℕ) × (ips : List ℕ) × (get_entries three_frames sampled
        (some 5)
        (record { depth = pos 2; has_ips = true })
      ≡ ok (ret, depth, 0x4001 ∷ ips))
    × (suc (length ips) ≤ 2)
    × ((depth ≡ none) ⊎ (depth ≡ some (suc (length ips))))
get_entries-bounds_example = get_entries-bounds three_frames sampled (some 5) 1
