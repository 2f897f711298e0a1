-- ===== src/Bpf.antt =====
-- bpf/ebpf_get_unwind_ctx.c: a BPF program takes a sample of a thread. The helpers of the kernel
-- are a parameter.
pub mod Cache
mod Laws
mod Tests
use libdw_bcc.Prelude.{
  ℕ, ℤ, pos, negsuc, is_neg, ◌-◌, ◌/◌, ◌%◌, ◌^◌, ltb, ◌==◌, ◌&&◌, ◌++◌, sub64, Bool, true, false,
  not, Option, none, some, List, [], ◌∷◌, if◌then◌else◌, length,
}
use libdw_bcc.Ptrace.{PtRegs}
use libdw_bcc.Bpf.Cache.{Key, UnwindCtx, Entries, find, put, delete}

-- STACK_SIZE
abbrev pub stack_size : ℕ
stack_size = 8192

-- The helpers at the time of the call. A read gives the helper's result, and what is in the buffer
-- then; `task_regs` are the registers below the kernel stack of the task, and `zero` is the one
-- element of the array of that name; `max_entries` is the size of the table `cache`.
pub record Kernel : Type 0 where
  pub user_mode : ℕ → Bool
  pub has_mm : Bool
  pub task_regs : ℕ
  pub read_sp : ℕ → ℤ × ℕ
  pub zero : Option UnwindCtx
  pub ktime_get_ns : ℕ
  pub current_pid_tgid : ℕ
  pub max_entries : ℕ
  pub read_uregs : ℕ → ℤ × PtRegs
  pub current_comm : List ℕ
  pub read_stack : ℕ → ℤ × List ℕ

-- The table `cache`, and the samples in the order of perf_submit.
pub record State : Type 0 where
  pub cache : Entries
  pub submitted : List UnwindCtx

-- STACK_SIZE - ret, as an int.
abbrev pub rest_of_stack : ℕ → ℤ
rest_of_stack ret =
    if ltb stack_size ret then negsuc (ret - stack_size - 1) else pos (stack_size - ret)

-- The size of the copied stack, for a result of bpf_probe_read_stack that is not negative.
unfoldable pub stack_bytes : ℕ → ℤ
stack_bytes ret = if ret == 0 then pos stack_size else rest_of_stack ret

-- uc->size, where the code comes to it.
abbrev pub size_of : ℤ → ℤ
size_of (pos ret) = stack_bytes ret
size_of (negsuc n) = pos 0

module _ (k : Kernel) where
  -- Whether `ctx` is a pointer to registers of the kind that is asked for.
  abbrev pub ctx_mode : Option ℕ → Bool → Bool
  ctx_mode none user = false
  ctx_mode (some regs) user = if user then k.user_mode regs else not (k.user_mode regs)

  -- The registers of the user side of the thread.
  unfoldable pub user_regs : Bool → Option ℕ → Option ℕ
  user_regs tracepoint ctx =
      if not tracepoint && ctx_mode ctx true
      then ctx
      else if k.has_mm
      then some k.task_regs
      else none

  -- The key of the sample.
  abbrev pub key : Key
  key = (k.ktime_get_ns, k.current_pid_tgid)

  -- cache.lookup_or_init
  unfoldable pub lookup_or_init : UnwindCtx → Entries → Option UnwindCtx
  lookup_or_init zuc cache = elim (find key cache) [
    | some uc ↦ some uc
    | none ↦ if ltb (length cache) k.max_entries then some zuc else none
  ]

  -- The time and the ids.
  abbrev pub with_ids : UnwindCtx → UnwindCtx
  with_ids uc = record uc {
    ts = k.ktime_get_ns;
    tgid = k.current_pid_tgid / 2 ^ 32;
    tid = k.current_pid_tgid % 2 ^ 32;
  }

  -- The stack pointer: a probe in the kernel starts 16 bytes below.
  abbrev pub stack_top : Bool → Option ℕ → ℕ → ℕ
  stack_top tracepoint ctx sp = if not tracepoint && ctx_mode ctx false then sub64 sp 16 else sp

  abbrev pub top_regs : Bool → Option ℕ → ℕ → PtRegs → PtRegs
  top_regs tracepoint ctx sp regs =
      if not tracepoint && ctx_mode ctx false then record regs { sp = sub64 sp 16 } else regs

  -- The sample with the registers, and then with the stack.
  abbrev pub with_regs : Bool → Option ℕ → ℕ → PtRegs → UnwindCtx → UnwindCtx
  with_regs tracepoint ctx sp regs uc = record uc {
    uregs = top_regs tracepoint ctx sp regs;
    name = k.current_comm;
  }

  -- From the read of the stack on.
  unfoldable pub copy_stack : UnwindCtx → ℤ × List ℕ → State → ℤ × State
  copy_stack uc (ret, stack) s =
      if is_neg ret
      then (negsuc 0, record s { cache = put key (record uc { stack = stack }) s.cache })
      else (
        pos 0,
        record s {
          cache = delete key (put key (record uc { stack = stack; size = size_of ret }) s.cache);
          submitted = s.submitted ++ (record uc { stack = stack; size = size_of ret } ∷ []);
        },
      )

  -- From the read of the registers on.
  unfoldable pub fill : Bool → Option ℕ → ℕ → ℤ × PtRegs → UnwindCtx → State → ℤ × State
  fill tracepoint ctx sp (ret, regs) uc s =
      if is_neg ret
      then (negsuc 0, record s { cache = put key (record uc { uregs = regs }) s.cache })
      else copy_stack (with_regs tracepoint ctx sp regs uc)
          (k.read_stack (stack_top tracepoint ctx sp)) s

  -- From zero.lookup on.
  unfoldable pub take_sample : Bool → Option ℕ → ℕ → ℕ → State → ℤ × State
  take_sample tracepoint ctx regs sp s = elim k.zero [
    | none ↦ (negsuc 0, s)
    | some zuc ↦ elim (lookup_or_init zuc s.cache) [
      | none ↦ (negsuc 0, s)
      | some uc ↦ fill tracepoint ctx sp (k.read_uregs regs) (with_ids uc) s
    ]
  ]

  -- get_unwind_ctx
  unfoldable pub get_unwind_ctx : Bool → Option ℕ → State → ℤ × State
  get_unwind_ctx tracepoint ctx s = elim (user_regs tracepoint ctx) [
    | none ↦ (negsuc 0, s)
    | some regs ↦
        let (ret, sp) = k.read_sp regs in
        if is_neg ret then (negsuc 0, s) else take_sample tracepoint ctx regs sp s
  ]
