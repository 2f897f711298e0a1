-- ===== src/Event/Step.antt =====
-- bpf_unwind_ctx__process_mmap, once the thread of the event is found or made.
use libdw_bcc.Prelude.{
  ℕ, pos, ◌+◌, ◌^◌, ◌<◌, ◌&&◌, add64, ltb, leb, ◌≡◌, refl, ◌∙◌, ap, Option, none, some, List,
  if◌then◌else◌,
}
use libdw_bcc.Outcome.{ok}
use libdw_bcc.Refcount.{refcount_inc}
use libdw_bcc.Rbtree.{Balance, Erase, to_list}
use libdw_bcc.Store.{Ptr, Maps, Thread, World, ◌>>=◌, ◌>>◌, update, update_same, update_other}
use libdw_bcc.Maps.Ranges.{Apart, covering}
use libdw_bcc.Maps.Laws.{IsMaps, IsRanges-frame, covering-frame}
use libdw_bcc.Maps.Objects.{Mmap2Event, initial_map}
use libdw_bcc.Unwind.Access.{AddrSpaces}
use libdw_bcc.Unwind.Access.Prepared.{IsCreating, IsPrepared}
use libdw_bcc.Machine.Findnew.{machine_findnew_thread}
use libdw_bcc.Machine.Findnew.Shared.{with_thread}
use libdw_bcc.Event.{process_mmap}
use libdw_bcc.Store.{Dsos}
use libdw_bcc.Dsos.Findnew.{Objects}
use libdw_bcc.Maps.Objects.{map_new}
use libdw_bcc.Maps.New.{with_new_map}
use libdw_bcc.Thread.Laws.{with_inserted, insert_map-run}
use libdw_bcc.Event.Kept.{
  with_count, with_count-SameRanges, map_put-second, thread_put-second, fresh-SameMaps,
  IsRanges-kept, Apart-kept, covering-kept,
}

-- The memory in the end: `threads` are the threads, and `maps` what the process has.
abbrev pub with_event :
    World → Mmap2Event → Ptr → Ptr → Objects → Dsos → Ptr → (Ptr → Option Thread) → Maps → World
with_event w event d n f ds ms threads maps =
    let m = initial_map event d in
    record w {
      next = n;
      thread = threads;
      maps = update w.maps ms (some maps);
      map =
          update (update (update w.map w.next (some m)) w.next (some (record m { refcnt = 2 })))
            w.next (some m);
      dso = f;
      dsos = ds;
    }

module _ (balance : Balance Ptr) (erase : Erase) (spaces : AddrSpaces) (c : IsCreating spaces)
    (basename : List ℕ → List ℕ) where
  -- Whatever the search for the thread and the making of the map have left, the rest of the handler
  -- runs; the map is the last one of the process, and the thread has `n` references again.
  pub process_mmap-run :
      (w w₁ : World) (event : Mmap2Event) (p ms d k : Ptr) (f : Objects) (ds : Dsos) (t : Thread)
      (n : ℕ) (maps : Maps)
      → machine_findnew_thread balance erase spaces event.tgid event.tid w ≡ ok (some p, w₁)
      → w₁.thread p ≡ some t
      → t.refcnt ≡ refcount_inc n
      → 0 < n
      → n + 1 < 2 ^ 32
      → t.maps ≡ some ms
      → IsMaps w₁ ms maps
      → w₁.map w₁.next ≡ none
      → map_new balance basename event w₁ ≡ ok (w₁.next, with_new_map w₁ event d k f ds)
      → event.start < add64 event.start event.len
      → Apart w₁ event.start (add64 event.start event.len) (to_list maps.entries)
      → (threads : Ptr → Option Thread) × (t' : Thread) × (maps' : Maps) × (process_mmap balance
            erase spaces basename event w
          ≡ ok (pos 0, with_event w₁ event d k f ds ms threads maps'))
        × IsPrepared w₁ p (record t { refcnt = n }) threads t'
        × IsMaps (with_event w₁ event d k f ds ms threads maps') ms maps'
        × ((ip : ℕ)
            → covering (with_event w₁ event d k f ds ms threads maps') ip (to_list maps'.entries)
              ≡ (if leb event.start ip && ltb ip (add64 event.start event.len)
                  then some w₁.next
                  else covering w₁ ip (to_list maps.entries)))
  unfolding process_mmap refcount_inc
  process_mmap-run w w₁ event p ms d k f ds t n maps found live count some_ room shared valid fresh
        made lt apart =
      let ps = to_list maps.entries in
      let m = initial_map event d in
      let w₂ = with_new_map w₁ event d k f ds in
      let same =
        fresh-SameMaps w₁ w₂ w₁.next ps fresh (λ q i. update_other w₁.map w₁.next q (some m) i)
          (valid.ranges) in
      let valid₂ : IsMaps w₂ ms maps = record {
        holds = valid.holds;
        ranges = IsRanges-kept w₁ w₂ ps same (valid.ranges);
      } in
      let (s, t₃, maps₃, inserts, prepared, valid₃, finds) =
        insert_map-run balance spaces c w₂ p ms w₁.next t maps m live shared valid₂
          (update_same w₁.map w₁.next (some m)) lt
          (Apart-kept w₁ w₂ event.start (add64 event.start event.len) ps same apart) in
      let w₃ = with_inserted w₂ s ms maps₃ w₁.next m in
      let held : w₃.map w₁.next ≡ some (record m { refcnt = 2 }) =
        update_same w₂.map w₁.next (some (record m { refcnt = 2 })) in
      let t₄ : Thread = record t₃ { refcnt = n } in
      let w₄ = with_thread w₃ p t₄ in
      let w₅ = with_count w₄ w₁.next (record m { refcnt = 2 }) 1 in
      let frame = with_count-SameRanges w₄ w₁.next (record m { refcnt = 2 }) 1 held in
      (
        w₅.thread,
        t₄,
        maps₃,
        rw (found, ◌>>=◌)
            (rw (made, ◌>>=◌)
              (rw (inserts, ◌>>=◌)
                (rw
                  (
                    thread_put-second erase spaces w₃ p t₃ n prepared.live (prepared.refcnt ∙ count)
                        some_ room,
                    ◌>>◌,
                    ◌>>=◌,
                  )
                  (rw (map_put-second w₄ w₁.next m held, ◌>>◌, ◌>>=◌))))),
        record {
          live = update_same w₃.thread p (some t₄);
          maps = prepared.maps;
          refcnt = refl;
          tgid = prepared.tgid;
          tid = prepared.tid;
          name = prepared.name;
          ready = λ r. prepared.ready r;
          others = λ q ne. update_other w₃.thread p q (some t₄) ne ∙ prepared.others q ne;
        },
        record {
          holds = valid₃.holds;
          ranges = IsRanges-frame w₃ w₅ (to_list maps₃.entries) frame (valid₃.ranges);
        },
        λ ip.
            covering-frame w₃ w₅ ip (to_list maps₃.entries) frame
            ∙ finds ip
            ∙ ap
                (λ o.
                  if leb event.start ip && ltb ip (add64 event.start event.len)
                  then some w₁.next
                  else o)
                (covering-kept w₁ w₂ ip ps same),
      )
