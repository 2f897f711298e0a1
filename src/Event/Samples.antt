-- ===== src/Event/Samples.antt =====
-- bpf_unwind_ctx__resolve_callchain, for a process whose maps are filled.
use libdw_bcc.Prelude.{ℕ, ◌+◌, ◌^◌, ◌<◌, ◌≡◌, refl, ◌∙◌, ap, arith, inl, some}
use libdw_bcc.Outcome.{ok}
use libdw_bcc.Refcount.{refcount_inc}
use libdw_bcc.Rbtree.{Balance, Erase, to_list}
use libdw_bcc.Store.{Ptr, Maps, Thread, World, lift, ◌>>=◌, ◌>>◌, update_same}
use libdw_bcc.Maps.{maps_find}
use libdw_bcc.Maps.Ranges.{covering}
use libdw_bcc.Maps.Laws.{IsMaps, maps_find-covering}
use libdw_bcc.Maps.Objects.{Mmap2Event, IsSorted-dsos}
use libdw_bcc.Unwind.Frames.{Unwinder, Stacktrace, get_entries}
use libdw_bcc.Unwind.Memory.{UnwindCtx}
use libdw_bcc.Unwind.Access.{AddrSpaces, thread_get_entries}
use libdw_bcc.Unwind.Access.Prepared.{IsCreating, load_thread-ok}
use libdw_bcc.Thread.{c_string, set_comm}
use libdw_bcc.Thread.Laws.{set_comm-run}
use libdw_bcc.Machine.{machine_threads}
use libdw_bcc.Machine.Findnew.Known.{with_last_match, with_reference}
use libdw_bcc.Machine.Findnew.Kept.{KeepsTids-one, task_of-kept, IsTable-kept}
use libdw_bcc.Event.{prepare_if_none, resolve_callchain}
use libdw_bcc.Event.Kept.{IsRanges-kept, covering-kept, same_maps}
use libdw_bcc.Event.Serves.{Serves, Shows}
use libdw_bcc.Event.Found.{IsFound-known}
use libdw_bcc.Event.Callchain.{thread_get_entries-run}

one_more : (n : ℕ) → n + 2 < 2 ^ 32 → refcount_inc n ≡ n + 1
unfolding refcount_inc
one_more n room = omega (arith, room)

module _ {Cursor : Type 0} (unw : Unwinder Cursor) (balance : Balance Ptr) (erase : Erase)
    (spaces : AddrSpaces) (c : IsCreating spaces) where
  -- A sample of a thread whose process is filled is resolved to what the walk over its stack gives,
  -- in the address space of the thread. The process is as it was, so that the next sample finds the
  -- same maps; the thread keeps its name, and has one reference more, which is not given back.
  pub resolve_callchain-Serves :
      (w : World) (st : Stacktrace) (uc : UnwindCtx) (p ms : Ptr) (maps : Maps)
      → uc.tid < 2 ^ 32
      → (h : Serves w uc.tgid uc.tid p ms maps) → h.thread.refcnt + 2 < 2 ^ 32
      → (w' : World) × (s : Serves w' uc.tgid uc.tid p ms maps) × (resolve_callchain balance erase
            spaces unw st uc w
          ≡ lift (get_entries unw uc.uregs (h.thread.addr_space) st) w')
        × (s.thread.refcnt ≡ h.thread.refcnt + 1)
        × (c_string s.thread.name ≡ c_string h.thread.name)
        × ((ip : ℕ) → maps_find ms ip w' ≡ ok (covering w ip (to_list maps.entries), w'))
        × ((e : Mmap2Event) (q : Ptr) → Shows w e q → Shows w' e q)
  unfolding resolve_callchain
  resolve_callchain-Serves w st uc p ms maps small h room =
      let t = h.thread in
      let ps = to_list maps.entries in
      let (space, prepared, ops) = h.ready in
      let w₁ = with_reference (with_last_match w (machine_threads uc.tid) (some p)) p t in
      let (found, is_found, same) =
        IsFound-known balance erase spaces w uc.tgid uc.tid p ms maps small h in
      let t₁ : Thread = record t { refcnt = refcount_inc t.refcnt } in
      let live₁ = update_same w.thread p (some t₁) in
      let (threads, name, sets, live, keeps, long, others) =
        set_comm-run balance spaces c w₁ p t₁ (c_string uc.name) live₁ h.named in
      let w₂ : World = record w₁ { thread = threads } in
      let t₂ : Thread = record t₁ { name = name } in
      let tids = KeepsTids-one w₁.thread threads p t₁ t₂ live₁ live refl others in
      let rest =
        set_comm balance spaces p (c_string uc.name) >> thread_get_entries unw p uc.uregs st in
      let more = one_more t.refcnt room in
      let valid : IsMaps w₂ ms maps = record {
        holds = h.valid.holds;
        ranges = IsRanges-kept w w₂ ps (same_maps w ps) (h.valid.ranges);
      } in
      (
        w₂,
        record {
          table = IsTable-kept w₁ w₂ tids (λ b. refl) is_found.table (λ b. inl refl);
          found =
              task_of-kept w₁ w₂ tids (λ b. refl) is_found.table (machine_threads uc.tid) uc.tid
              ∙ is_found.found;
          thread = t₂;
          live = live;
          own = h.own;
          ready = h.ready;
          named = long;
          shared = h.shared;
          referenced = omega (arith, more);
          room = omega (arith, more, room);
          valid = valid;
          sorted = IsSorted-dsos w w₂ (to_list w.dsos.root) h.sorted;
          unused_map = h.unused_map;
          unused_dso = h.unused_dso;
        },
        rw (found, ◌>>=◌)
            (rw (load_thread-ok w₁ p t₁ live₁, ◌>>=◌)
              (ap (λ o. (prepare_if_none balance erase spaces o p >>= λ ret. rest) w₁) prepared
                ∙ rw (sets, ◌>>◌, ◌>>=◌)
                    (thread_get_entries-run unw w₂ p ms t₂ maps uc.uregs st live ops h.shared
                      h.valid.holds))),
        more,
        keeps,
        λ ip.
            maps_find-covering w₂ ms maps ip valid
            ∙ ap (λ o. ok (o, w₂)) (covering-kept w w₂ ip ps (same_maps w ps)),
        λ e q shows. shows,
      )
