-- ===== src/Bpf/Laws.antt =====
-- get_unwind_ctx, where all helpers succeed, and where the stack cannot be read.
use libdw_bcc.Prelude.{
  lt→ltb, ℕ, pos, negsuc, ◌-◌, ◌≤◌, ◌<◌, ◌/◌, ◌%◌, ◌^◌, ◌++◌, ◌≡◌, refl, ◌∙◌, arith, Bool, Option,
  none, some, List, [], ◌∷◌, length,
}
use libdw_bcc.Ptrace.{PtRegs}
use libdw_bcc.Bpf.Cache.{UnwindCtx, find, put, delete-put, find-put}
use libdw_bcc.Bpf.{
  stack_size, Kernel, State, stack_bytes, user_regs, key, lookup_or_init, with_ids, with_regs,
  stack_top, top_regs, copy_stack, fill, take_sample, get_unwind_ctx,
}

-- The helpers up to the read of the stack succeed, and the sample is a new one.
pub record IsReady (k : Kernel) (tracepoint : Bool) (ctx : Option ℕ) (s : State) (sp : ℕ)
    (uregs : PtRegs) (zuc : UnwindCtx) : Type 0 where
  pub regs : ℕ
  pub sp_left : ℕ
  pub uregs_left : ℕ
  pub has_regs : user_regs k tracepoint ctx ≡ some regs
  pub has_sp : k.read_sp regs ≡ (pos sp_left, sp)
  pub has_zero : k.zero ≡ some zuc
  pub has_uregs : k.read_uregs regs ≡ (pos uregs_left, uregs)
  pub fresh : find (key k) s.cache ≡ none
  pub room : length s.cache < k.max_entries

-- A result that says how many bytes of the stack could not be read.
stack_bytes_lem : (ret : ℕ) → ret ≤ stack_size → stack_bytes ret ≡ pos (stack_size - ret)
unfolding stack_bytes
stack_bytes_lem ret le = ground arith

module _ (k : Kernel) (tracepoint : Bool) (ctx : Option ℕ) (s : State) (sp : ℕ) (uregs : PtRegs)
    (zuc : UnwindCtx) (h : IsReady k tracepoint ctx s sp uregs zuc) where
  take_sample-IsReady :
      get_unwind_ctx k tracepoint ctx s
      ≡ copy_stack k
          (with_regs k tracepoint ctx sp uregs (with_ids k zuc))
          (k.read_stack (stack_top k tracepoint ctx sp))
          s
  unfolding get_unwind_ctx take_sample lookup_or_init fill copy_stack
  take_sample-IsReady =
      rw (h.has_regs, get_unwind_ctx)
        (rw h.has_sp (
          rw (h.has_zero, take_sample)
            (rw (h.fresh, lookup_or_init)
              (rw (lt→ltb (length s.cache) k.max_entries h.room) (rw (h.has_uregs, fill))))))

  -- Where the helpers succeed, and all but `ret` bytes of the stack are copied, the program submits
  -- one sample, with the ids of the thread, its user registers and name, and the number of bytes
  -- that were copied; the table is as before.
  pub get_unwind_ctx-submits :
      (ret : ℕ) (stack : List ℕ)
      → k.read_stack (stack_top k tracepoint ctx sp) ≡ (pos ret, stack)
      → ret ≤ stack_size
      → get_unwind_ctx k tracepoint ctx s ≡ (
        pos 0,
        record s {
          submitted =
              s.submitted
              ++ (record {
                ts = k.ktime_get_ns;
                tid = k.current_pid_tgid % 2 ^ 32;
                tgid = k.current_pid_tgid / 2 ^ 32;
                uregs = top_regs k tracepoint ctx sp uregs;
                name = k.current_comm;
                size = pos (stack_size - ret);
                stack = stack;
              }
                  ∷ []);
        },
      )
  unfolding copy_stack
  get_unwind_ctx-submits ret stack copied le =
      take_sample-IsReady
      ∙ rw (copied, copy_stack)
          (rw (
            delete-put (key k)
                (record (with_regs k tracepoint ctx sp uregs (with_ids k zuc)) {
                  stack = stack;
                  size = stack_bytes ret;
                })
                s.cache h.fresh,
            stack_bytes_lem ret le,
          ))

  -- Where the stack cannot be read, the program fails and submits nothing, but its element stays in
  -- the table.
  pub get_unwind_ctx-leaves :
      (n : ℕ) (stack : List ℕ)
      → k.read_stack (stack_top k tracepoint ctx sp) ≡ (negsuc n, stack)
      → (s' : State) × (uc : UnwindCtx) × (get_unwind_ctx k tracepoint ctx s ≡ (negsuc 0, s'))
        × (s'.submitted ≡ s.submitted)
        × (find (key k) s'.cache ≡ some uc)
  unfolding copy_stack
  get_unwind_ctx-leaves n stack failed =
      let uc : UnwindCtx = record (with_regs k tracepoint ctx sp uregs (with_ids k zuc)) {
        stack = stack;
      } in
      (
        record s { cache = put (key k) uc s.cache },
        uc,
        take_sample-IsReady ∙ rw failed,
        refl,
        find-put (key k) uc s.cache,
      )
