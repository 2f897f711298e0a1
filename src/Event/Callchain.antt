-- ===== src/Event/Callchain.antt =====
-- bpf_unwind_ctx__resolve_callchain: from a sample to the addresses of its frames.
use libdw_bcc.Prelude.{ℕ, ◌^◌, ◌<◌, ◌≡◌, ◌∙◌, ap, length, true, some, List}
use libdw_bcc.Refcount.{refcount_inc}
use libdw_bcc.Rbtree.{Balance, Erase}
use libdw_bcc.Store.{Ptr, Maps, Thread, World, lift, ◌>>=◌, ◌>>◌, load_maps, update_same}
use libdw_bcc.Ptrace.{PtRegs}
use libdw_bcc.Unwind.Frames.{Unwinder, Stacktrace, get_entries}
use libdw_bcc.Unwind.Memory.{UnwindCtx}
use libdw_bcc.Unwind.Access.{AddrSpaces, thread_get_entries}
use libdw_bcc.Unwind.Access.Prepared.{IsCreating, load_thread-ok}
use libdw_bcc.Thread.{task_comm_len, c_string, set_comm}
use libdw_bcc.Thread.Laws.{set_comm-keeps_name}
use libdw_bcc.Machine.{machine_threads}
use libdw_bcc.Machine.Findnew.Known.{with_last_match, with_reference}
use libdw_bcc.Machine.Findnew.Added.{IsTable}
use libdw_bcc.Machine.Laws.{thread_at, findnew-known}
use libdw_bcc.Event.{prepare_if_none, resolve_callchain}

pub thread_get_entries-run :
    {Cursor : Type 0} (unw : Unwinder Cursor) (w : World) (p ms : Ptr) (t : Thread) (maps : Maps)
    (uregs : PtRegs) (st : Stacktrace)
    → w.thread p ≡ some t
    → t.ulops ≡ true
    → t.maps ≡ some ms
    → w.maps ms ≡ some maps
    → thread_get_entries unw p uregs st w ≡ lift (get_entries unw uregs t.addr_space st) w
unfolding thread_get_entries load_maps
thread_get_entries-run unw w p ms t maps uregs st live ops shared held =
    rw (load_thread-ok w p t live, ◌>>=◌) (rw ops (rw (shared, ◌>>=◌) (rw (held, ◌>>=◌))))

-- A sample of a thread of the table, which has an address space, gets the frames that the walk over
-- its stack gives, or ends as the walk does. The thread keeps its name, and has one reference more
-- than before: it is not given back.
pub resolve_callchain-entries :
    {Cursor : Type 0} (unw : Unwinder Cursor) (balance : Balance Ptr) (erase : Erase)
    (spaces : AddrSpaces) (c : IsCreating spaces) (w : World) (p ms space : Ptr) (t : Thread)
    (maps : Maps) (st : Stacktrace) (uc : UnwindCtx)
    → uc.tid < 2 ^ 32
    → IsTable w
    → thread_at w uc.tid ≡ some p
    → w.thread p ≡ some t
    → uc.tgid ≡ t.tgid
    → t.maps ≡ some ms
    → w.maps ms ≡ some maps
    → t.addr_space ≡ some space
    → t.ulops ≡ true
    → length t.name ≡ task_comm_len
    → (w' : World) × (name : List ℕ) × (resolve_callchain balance erase spaces unw st uc w
        ≡ lift (get_entries unw uc.uregs (some space) st) w')
      × (w'.thread p ≡ some (record t { name = name; refcnt = refcount_inc t.refcnt }))
      × (c_string name ≡ c_string t.name)
unfolding resolve_callchain
resolve_callchain-entries unw balance erase spaces c w p ms space t maps st uc small h e live own
      shared held prepared ops size =
    let t₁ : Thread = record t { refcnt = refcount_inc t.refcnt } in
    let w₁ = with_reference (with_last_match w (machine_threads uc.tid) (some p)) p t in
    let live₁ = update_same w.thread p (some t₁) in
    let (w', name, sets, live', same, maps_stay) =
      set_comm-keeps_name balance spaces c w₁ p t₁ (c_string uc.name) live₁ size in
    let rest =
      set_comm balance spaces p (c_string uc.name) >> thread_get_entries unw p uc.uregs st in
    (
      w',
      name,
      rw (findnew-known balance erase spaces w p t uc.tgid uc.tid small h e live own, ◌>>=◌)
          (rw (load_thread-ok w₁ p t₁ live₁, ◌>>=◌)
            (ap (λ o. (prepare_if_none balance erase spaces o p >>= λ ret. rest) w₁) prepared
              ∙ rw (sets, ◌>>◌, ◌>>=◌)
                  (thread_get_entries-run unw w' p ms (record t₁ { name = name }) maps uc.uregs st
                      live' ops shared (ap (λ f. f ms) maps_stay ∙ held)
                    ∙ ap (λ o. lift (get_entries unw uc.uregs o st) w') prepared))),
      live',
      same,
    )
