-- ===== src/Bpf/Tests.antt =====
-- A uprobe in the thread 41 of the process 40, with a stack that can be read, and one that cannot.
use libdw_bcc.Prelude.{ℤ, pos, negsuc, ◌+◌, ◌*◌, ◌^◌, ◌≡◌, refl, arith, true, false, some, [], ◌∷◌}
use libdw_bcc.Ptrace.{PtRegs}
use libdw_bcc.Bpf.Cache.{UnwindCtx, find}
use libdw_bcc.Bpf.{Kernel, State, user_regs, key, get_unwind_ctx}
use libdw_bcc.Bpf.Laws.{IsReady, get_unwind_ctx-submits, get_unwind_ctx-leaves}

abbrev some_regs : PtRegs
some_regs = record {
  r15 = 0;
  r14 = 0;
  r13 = 0;
  r12 = 0;
  bp = 0;
  bx = 0;
  r11 = 0;
  r10 = 0;
  r9 = 0;
  r8 = 0;
  ax = 0;
  cx = 0;
  dx = 0;
  si = 0;
  di = 0;
  orig_ax = 0;
  ip = 0x4001;
  cs = 51;
  flags = 2;
  sp = 0x7000;
  ss = 43;
}

abbrev blank : UnwindCtx
blank = record { ts = 0; tid = 0; tgid = 0; uregs = some_regs; name = []; size = pos 0; stack = [] }

abbrev kernel : ℤ → Kernel
kernel ret = record {
  user_mode = λ regs. true;
  has_mm = true;
  task_regs = 5;
  read_sp = λ regs. (pos 0, 0x7000);
  zero = some blank;
  ktime_get_ns = 1000;
  current_pid_tgid = 40 * 2 ^ 32 + 41;
  max_entries = 10240;
  read_uregs = λ regs. (pos 0, some_regs);
  current_comm = 0x61 ∷ [];
  read_stack = λ sp. (ret, 1 ∷ 2 ∷ []);
}

abbrev nothing : State
nothing = record { cache = []; submitted = [] }

nothing-IsReady : (ret : ℤ) → IsReady (kernel ret) false (some 3) nothing 0x7000 some_regs blank
unfolding user_regs find
nothing-IsReady ret = record {
  regs = 3;
  sp_left = 0;
  uregs_left = 0;
  has_regs = refl;
  has_sp = refl;
  has_zero = refl;
  has_uregs = refl;
  fresh = refl;
  room = omega arith;
}

get_unwind_ctx-submits_example : get_unwind_ctx (kernel (pos 8190)) false (some 3) nothing ≡ (
  pos 0,
  record {
    cache = [];
    submitted =
        (record {
          ts = 1000;
          tid = 41;
          tgid = 40;
          uregs = some_regs;
          name = 0x61 ∷ [];
          size = pos 2;
          stack = 1 ∷ 2 ∷ [];
        }
          ∷ []);
  },
)
get_unwind_ctx-submits_example =
    get_unwind_ctx-submits (kernel (pos 8190)) false (some 3) nothing 0x7000 some_regs blank
      (nothing-IsReady (pos 8190)) 8190 (1 ∷ 2 ∷ []) refl (omega arith)

get_unwind_ctx-leaves_example :
    (s' : State) × (uc : UnwindCtx) × (get_unwind_ctx (kernel (negsuc 13)) false (some 3) nothing
      ≡ (negsuc 0, s'))
    × (s'.submitted ≡ [])
    × (find (key (kernel (negsuc 13))) s'.cache ≡ some uc)
get_unwind_ctx-leaves_example =
    get_unwind_ctx-leaves (kernel (negsuc 13)) false (some 3) nothing 0x7000 some_regs blank
      (nothing-IsReady (negsuc 13)) 13 (1 ∷ 2 ∷ []) refl
