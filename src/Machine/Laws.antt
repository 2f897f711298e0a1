-- ===== src/Machine/Laws.antt =====
-- The table of threads refines a partial function from tids to threads.
use libdw_bcc.Prelude.{
  ℕ, ◌+◌, ◌^◌, ◌<◌, ◌==◌, ==_iff, ◌&&◌, Bool-cases, inl, inr, ◌≡◌, refl, ◌∙◌, ap, Option, none,
  some, if◌then◌else◌,
}
use libdw_bcc.Outcome.{ok}
use libdw_bcc.Refcount.{refcount_inc}
use libdw_bcc.Rbtree.{Balance, Erase}
use libdw_bcc.Store.{Ptr, Maps, Thread, World, update_same}
use libdw_bcc.Thread.Lifetime.{new_thread}
use libdw_bcc.Unwind.Access.{AddrSpaces}
use libdw_bcc.Machine.{machine_threads}
use libdw_bcc.Machine.Findnew.{findnew, machine_findnew_thread}
use libdw_bcc.Machine.Findnew.Known.{task_of, with_last_match, with_reference, findnew_in-task_of}
use libdw_bcc.Machine.Findnew.Search.{uncached, task_of-uncached, IsTable-uncached, findnew_in-none}
use libdw_bcc.Machine.Findnew.Added.{IsTable}
use libdw_bcc.Machine.Findnew.Leader.{no_maps, findnew_in-leader, with_leader, with_leader-new}
use libdw_bcc.Machine.Findnew.Member.{
  IsLeader, with_member, with_member-IsTable, with_member-new, with_member-others,
  add_thread-member,
}

-- The thread of a tid.
abbrev pub thread_at : World → ℕ → Option Ptr
thread_at w tid = task_of w (machine_threads tid) tid

-- A change at one tid of one bucket is a change of the function at that tid.
pub thread_at-one :
    (w w' : World) (tid : ℕ) (o : Option Ptr)
    → ((c i : ℕ)
        → task_of w' c i ≡ (if machine_threads tid == c && tid == i then o else task_of w c i))
    → (i : ℕ) → thread_at w' i ≡ (if tid == i then o else thread_at w i)
thread_at-one w w' tid o h i = h (machine_threads i) i ∙ (elim (Bool-cases (tid == i)) [
  | inl e ↦ rw (
    e,
    (==_iff (machine_threads tid) (machine_threads i)).1 (ap machine_threads ((==_iff tid i).0 e)),
  )
  | inr e ↦ elim (Bool-cases (machine_threads tid == machine_threads i)) [
    | inl same ↦ rw (e, same)
    | inr other ↦ rw (e, other)
  ]
])

module _ (balance : Balance Ptr) (erase : Erase) (spaces : AddrSpaces) where
  -- A thread of the table, asked for with the id of its process, is returned and gains one
  -- reference; the search caches it, and changes nothing else.
  pub findnew-known :
      (w : World) (p : Ptr) (t : Thread) (tgid tid : ℕ)
      → tid < 2 ^ 32
      → IsTable w
      → thread_at w tid ≡ some p
      → w.thread p ≡ some t
      → tgid ≡ t.tgid
      → machine_findnew_thread balance erase spaces tgid tid w
        ≡ ok (some p, with_reference (with_last_match w (machine_threads tid) (some p)) p t)
  unfolding machine_findnew_thread findnew
  findnew-known w p t tgid tid small h e live same =
      findnew_in-task_of balance erase spaces
        (λ leader. findnew balance erase spaces 1 leader leader) w (machine_threads tid) p t tgid
        tid small (h (machine_threads tid)) e live same

  -- A tid that is not in the table, asked for as a process of its own, gets a new thread with maps
  -- of its own, no map in them, and with two references, the table's and the caller's. From then on
  -- the tid is found there, and any other tid where it was; and the table stays valid.
  pub findnew-leader :
      (w : World) (tid : ℕ)
      → tid < 2 ^ 32
      → IsTable w
      → thread_at w tid ≡ none
      → w.thread w.next ≡ none
      → (w' : World) × (machine_findnew_thread balance erase spaces tid tid w
          ≡ ok (some w.next, w'))
        × IsTable w'
        × ((i : ℕ) → thread_at w' i ≡ (if tid == i then some w.next else thread_at w i))
        × (w'.thread w.next
            ≡ some (record (new_thread tid tid) { maps = some (w.next + 1); refcnt = 2 }))
        × (w'.maps (w.next + 1) ≡ some no_maps)
  unfolding machine_findnew_thread findnew refcount_inc
  findnew-leader w tid small h e fresh =
      let leader_of = λ (leader : ℕ). findnew balance erase spaces 1 leader leader in
      let b = machine_threads tid in
      let w' = with_leader balance erase spaces leader_of (uncached w b) b tid in
      let (runs, adds, valid, found) =
        findnew_in-leader balance erase spaces leader_of w b tid small h e fresh in
      (
        w',
        runs,
        valid,
        thread_at-one w w' tid (some w.next) found,
        with_leader-new balance erase spaces leader_of (uncached w b) b tid,
        update_same w.maps (w.next + 1) (some no_maps),
      )

  -- A tid that is not in the table, asked for as a thread of a process whose leader is in it, gets a
  -- new thread that shares the leader's maps, which gain a reference; the leader keeps its
  -- references. From then on the tid is found there, and any other tid where it was; and the table
  -- stays valid.
  pub findnew-member :
      (w : World) (tgid tid : ℕ) (l : Ptr) (t : Thread) (ms : Ptr) (maps : Maps)
      → tid < 2 ^ 32
      → tgid < 2 ^ 32
      → ¬ (tgid ≡ tid)
      → IsTable w
      → thread_at w tid ≡ none
      → w.thread w.next ≡ none
      → IsLeader w (machine_threads tgid) tgid l t ms maps
      → (w' : World) × (machine_findnew_thread balance erase spaces tgid tid w
          ≡ ok (some w.next, w'))
        × IsTable w'
        × ((i : ℕ) → thread_at w' i ≡ (if tid == i then some w.next else thread_at w i))
        × (w'.thread w.next ≡ some (record (new_thread tgid tid) { maps = some ms; refcnt = 2 }))
        × (w'.maps ms ≡ some (record maps { refcnt = refcount_inc maps.refcnt }))
        × ((q : Ptr) → ¬ (w.next ≡ q) → w'.thread q ≡ w.thread q)
  unfolding machine_findnew_thread findnew refcount_inc
  findnew-member w tgid tid l t ms maps small small_leader ne h e fresh lead =
      let b = machine_threads tid in
      let c = machine_threads tgid in
      let w₀ = uncached w b in
      let h₀ = IsTable-uncached w b h in
      let e₀ = task_of-uncached w b b tid ∙ e in
      let lead₀ : IsLeader w₀ c tgid l t ms maps = record {
        found = task_of-uncached w b c tgid ∙ lead.found;
        live = lead.live;
        own = lead.own;
        shared = lead.shared;
        held = lead.held;
        referenced = lead.referenced;
        room = lead.room;
      } in
      let leader_of = λ (leader : ℕ). findnew balance erase spaces 1 leader leader in
      let inner = λ (leader : ℕ). findnew balance erase spaces 0 leader leader in
      let w' = with_member balance erase spaces w₀ b c tgid tid l t ms maps in
      let (valid, tasks) =
        with_member-IsTable balance erase spaces w₀ b c tgid tid l t ms maps small h₀ e₀ fresh ne
          lead₀ in
      (
        w',
        findnew_in-none balance erase spaces leader_of w b tgid tid small h e
            ∙ add_thread-member balance erase spaces w₀ b c tgid tid l t ms maps small h₀ e₀ fresh
                ne lead₀ leader_of inner (λ v. refl) small_leader (rw ((==_iff b b).1 refl)),
        valid,
        thread_at-one w w' tid (some w.next) (λ d i.
            tasks d i
            ∙ ap (λ o. if b == d && tid == i then some w.next else o) (task_of-uncached w b d i)),
        with_member-new balance erase spaces w₀ b c tgid tid l t ms maps small h₀ e₀ fresh ne lead₀,
        update_same w.maps ms (some (record maps { refcnt = refcount_inc maps.refcnt })),
        with_member-others balance erase spaces w₀ b c tgid tid l t ms maps small h₀ e₀ fresh ne
            lead₀,
      )
