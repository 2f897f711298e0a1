-- ===== src/Event/Serves.antt =====
-- A process whose maps the events of bpf_unwind_ctx__process_mmap fill, one event after the other.
use libdw_bcc.Prelude.{
  length, ◌≤◌, ℕ, pos, ◌+◌, ◌^◌, ◌<◌, ◌&&◌, ◌⊎◌, add64, leb, ltb, ◌≡◌, refl, ◌∙◌, ap, sym, arith,
  inl, Bool, none, some, List, [], ◌∷◌, if◌then◌else◌,
}
use libdw_bcc.Outcome.{ok}
use libdw_bcc.Refcount.{refcount_inc}
use libdw_bcc.Rbtree.{Balance, Erase, to_list}
use libdw_bcc.Dso.{Dso}
use libdw_bcc.Store.{Ptr, Maps, Thread, World, update, update_same, update_other}
use libdw_bcc.Maps.Ranges.{start_of, end_of, IsRanges, Apart, covering}
use libdw_bcc.Maps.Laws.{IsMaps}
use libdw_bcc.Maps.Objects.{Mmap2Event, initial_map, IsSorted-dsos}
use libdw_bcc.Maps.New.{map_new-Finds}
use libdw_bcc.Dsos.Names.{IsSorted}
use libdw_bcc.Dsos.Findnew.{IsUnused}
use libdw_bcc.Unwind.Access.{AddrSpaces}
use libdw_bcc.Unwind.Access.Prepared.{IsCreating, IsReady, IsRegistered}
use libdw_bcc.Thread.{task_comm_len}
use libdw_bcc.Machine.{machine_threads}
use libdw_bcc.Machine.Findnew.{machine_findnew_thread}
use libdw_bcc.Machine.Findnew.Kept.{KeepsTids-one, task_of-kept, IsTable-kept}
use libdw_bcc.Machine.Findnew.Added.{IsTable}
use libdw_bcc.Machine.Laws.{thread_at}
use libdw_bcc.Event.{process_mmap}
use libdw_bcc.Event.Step.{with_event, process_mmap-run}

-- No map contains an address of the range.
abbrev pub IsFree : World → ℕ → ℕ → List Ptr → Type 0
IsFree w s e ps = (ip : ℕ) → s ≤ ip → ip < e → covering w ip ps ≡ none

-- Two ranges that are not apart have an address in common.
apart_at :
    (w : World) (s e : ℕ) (p : Ptr) (ps : List Ptr)
    → s < e
    → start_of w p < end_of w p
    → IsFree w s e (p ∷ ps)
    → (end_of w p ≤ s) ⊎ (e ≤ start_of w p)
apart_at w s e p ps lt range free = ground (arith, free s, free (start_of w p))

Apart-IsFree :
    (w : World) (s e : ℕ) (ps : List Ptr) → s < e → IsRanges w ps → IsFree w s e ps → Apart w s e ps
Apart-IsFree w s e [] lt r free = tt
Apart-IsFree w s e (p ∷ ps) lt ((m, live, range), above, rs) free =
    let apart = apart_at w s e p ps lt range free in
    (apart, Apart-IsFree w s e ps lt rs (λ ip le below. ground (arith, apart, free ip le below)))

-- The process: its leader is a thread of the table with maps, which do not overlap, and with an
-- address space of libunwind; the shared objects are sorted; and nothing is at the pointers that are
-- to come.
pub record Serves (w : World) (tgid tid : ℕ) (p ms : Ptr) (maps : Maps) : Type 0 where
  pub table : IsTable w
  pub found : thread_at w tid ≡ some p
  pub thread : Thread
  pub live : w.thread p ≡ some thread
  pub own : tgid ≡ thread.tgid
  pub ready : IsReady thread
  pub named : length thread.name ≡ task_comm_len
  pub shared : thread.maps ≡ some ms
  pub referenced : 0 < thread.refcnt
  pub room : thread.refcnt + 1 < 2 ^ 32
  pub valid : IsMaps w ms maps
  pub sorted : IsSorted w (to_list w.dsos.root)
  pub unused_map : IsUnused w.map w.next
  pub unused_dso : IsUnused w.dso w.next

-- What the map of an event is: the object of the event, for the file of its name.
abbrev pub Shows : World → Mmap2Event → Ptr → Type 0
Shows w event q =
    (d : Ptr) × (dso : Dso) × (w.map q ≡ some (initial_map event d))
    × (w.dso d ≡ some dso)
    × (dso.long_name ≡ event.filename)

abbrev pub end_of_event : Mmap2Event → ℕ
end_of_event event = add64 event.start event.len

abbrev pub contains : Mmap2Event → ℕ → Bool
contains event ip = leb event.start ip && ltb ip (end_of_event event)

-- An event for the thread, with a range that is not empty.
abbrev pub IsEvent : ℕ → ℕ → Mmap2Event → Type 0
IsEvent tgid tid event =
    (event.tgid ≡ tgid) × (event.tid ≡ tid) × (event.start < end_of_event event)

-- The search for the thread has left `w₁`: the thread has one reference more.
pub record IsFound (w₁ : World) (tgid tid : ℕ) (p ms : Ptr) (maps : Maps) : Type 0 where
  pub table : IsTable w₁
  pub found : thread_at w₁ tid ≡ some p
  pub thread : Thread
  pub count : ℕ
  pub live : w₁.thread p ≡ some thread
  pub own : tgid ≡ thread.tgid
  pub registered : IsRegistered thread
  pub named : length thread.name ≡ task_comm_len
  pub counted : thread.refcnt ≡ refcount_inc count
  pub shared : thread.maps ≡ some ms
  pub referenced : 0 < count
  pub room : count + 1 < 2 ^ 32
  pub valid : IsMaps w₁ ms maps
  pub sorted : IsSorted w₁ (to_list w₁.dsos.root)
  pub unused_map : IsUnused w₁.map w₁.next
  pub unused_dso : IsUnused w₁.dso w₁.next

-- The map of an event is added to what was there.
abbrev pub IsAdded : World → World → ℕ → ℕ → Ptr → Ptr → Maps → Maps → Mmap2Event → Type 0
IsAdded w₁ w' tgid tid p ms maps maps' event =
    Serves w' tgid tid p ms maps'
    × Shows w' event w₁.next
    × ((ip : ℕ)
        → covering w' ip (to_list maps'.entries)
          ≡ (if contains event ip then some w₁.next else covering w₁ ip (to_list maps.entries)))
    × ((e : Mmap2Event) (q : Ptr) → Shows w₁ e q → Shows w' e q)

module _ (balance : Balance Ptr) (erase : Erase) (spaces : AddrSpaces) (c : IsCreating spaces)
    (basename : List ℕ → List ℕ) where
  pub process_mmap-IsAdded :
      (w w₁ : World) (event : Mmap2Event) (tgid tid : ℕ) (p ms : Ptr) (maps : Maps)
      → machine_findnew_thread balance erase spaces tgid tid w ≡ ok (some p, w₁)
      → IsFound w₁ tgid tid p ms maps
      → IsEvent tgid tid event
      → IsFree w₁ event.start (end_of_event event) (to_list maps.entries)
      → (w' : World) × (maps' : Maps) × (process_mmap balance erase spaces basename event w
          ≡ ok (pos 0, w'))
        × IsAdded w₁ w' tgid tid p ms maps maps' event
  process_mmap-IsAdded w w₁ event tgid tid p ms maps runs h (its_tgid, its_tid, lt) free =
      let findnew = machine_findnew_thread balance erase spaces in
      let runs' : findnew event.tgid event.tid w ≡ ok (some p, w₁) =
        ap (λ i. findnew i event.tid w) its_tgid ∙ ap (λ i. findnew tgid i w) its_tid ∙ runs in
      let ps = to_list maps.entries in
      let m = initial_map event in
      let fresh = h.unused_map w₁.next (omega arith) in
      let (d, n, f, ds, made, finds) =
        map_new-Finds balance basename w₁ event h.unused_dso h.sorted in
      let up : w₁.next < n = omega (arith, finds.upwards) in
      let (s, t', maps', steps, served, valid, covers_) =
        process_mmap-run balance erase spaces c basename w w₁ event p ms d n f ds h.thread h.count
          maps runs' h.live h.counted h.referenced h.room h.shared h.valid fresh made lt
          (Apart-IsFree w₁ event.start (end_of_event event) ps lt (h.valid.ranges) free) in
      let w' = with_event w₁ event d n f ds ms s maps' in
      let tids =
        KeepsTids-one w₁.thread s p h.thread t' h.live served.live served.tid served.others in
      let one = update w₁.map w₁.next (some (m d)) in
      let two = update one w₁.next (some (record (m d) { refcnt = 2 })) in
      let same = λ (q : Ptr) (ne : ¬ (w₁.next ≡ q)).
        update_other two w₁.next q (some (m d)) ne
        ∙ update_other one w₁.next q (some (record (m d) { refcnt = 2 })) ne
        ∙ update_other w₁.map w₁.next q (some (m d)) ne in
      (
        w',
        maps',
        steps,
        (
          record {
            table = IsTable-kept w₁ w' tids (λ b. refl) h.table (λ b. inl refl);
            found = task_of-kept w₁ w' tids (λ b. refl) h.table (machine_threads tid) tid ∙ h.found;
            thread = t';
            live = served.live;
            own = h.own ∙ sym served.tgid;
            ready = served.ready h.registered;
            named = ap length served.name ∙ h.named;
            shared = served.maps ∙ h.shared;
            referenced = rw (served.refcnt) h.referenced;
            room = rw (served.refcnt) h.room;
            valid = valid;
            sorted =
                IsSorted-dsos (record w₁ { next = n; dso = f; dsos = ds }) w' (to_list ds.root)
                  finds.sorted;
            unused_map = λ q le.
                same q (λ i. omega (arith, i, le, up)) ∙ h.unused_map q (omega (arith, le, up));
            unused_dso = finds.unused;
          },
          (d, finds.object, update_same two w₁.next (some (m d)), finds.live, finds.own),
          covers_,
          λ e q (d₁, o₁, at, live₁, name₁).
              let (o₂, live₂, name₂) = finds.keeps d₁ o₁ live₁ in
              (d₁, o₂, same q (λ i. cc (fresh, at, ap w₁.map i)) ∙ at, live₂, name₂ ∙ name₁),
        ),
      )
