-- ===== src/Event/Found.antt =====
-- The search for the thread of an event: it is in the table, or its process is new.
use libdw_bcc.Prelude.{ℕ, ◌+◌, ◌^◌, ◌<◌, ==_iff, ◌≡◌, refl, ◌∙◌, arith, none, some, List}
use libdw_bcc.Outcome.{ok}
use libdw_bcc.Refcount.{refcount_inc}
use libdw_bcc.Rbtree.{Balance, Erase, to_list}
use libdw_bcc.Store.{Ptr, Maps, Thread, World, update, update_same, update_other}
use libdw_bcc.Maps.Ranges.{covering}
use libdw_bcc.Maps.Objects.{IsSorted-dsos}
use libdw_bcc.Dsos.Names.{IsSorted}
use libdw_bcc.Dsos.Findnew.{IsUnused}
use libdw_bcc.Thread.Lifetime.{new_thread}
use libdw_bcc.Unwind.Access.{AddrSpaces}
use libdw_bcc.Machine.{machine_threads}
use libdw_bcc.Machine.Findnew.{findnew, machine_findnew_thread}
use libdw_bcc.Machine.Findnew.Known.{with_last_match, with_reference}
use libdw_bcc.Machine.Findnew.Kept.{KeepsTids-one, IsTable-served}
use libdw_bcc.Machine.Findnew.Search.{uncached}
use libdw_bcc.Machine.Findnew.Leader.{no_maps, findnew_in-leader, with_leader, with_leader-new}
use libdw_bcc.Machine.Findnew.Added.{IsTable}
use libdw_bcc.Machine.Laws.{thread_at, findnew-known}
use libdw_bcc.Event.Kept.{IsRanges-kept, covering-kept, same_maps}
use libdw_bcc.Event.Serves.{Serves, IsFound}

module _ (balance : Balance Ptr) (erase : Erase) (spaces : AddrSpaces) where
  -- The thread is in the table.
  pub IsFound-known :
      (w : World) (tgid tid : ℕ) (p ms : Ptr) (maps : Maps)
      → tid < 2 ^ 32
      → (h : Serves w tgid tid p ms maps)
      → let w₁ = with_reference (with_last_match w (machine_threads tid) (some p)) p (h.thread) in
        (machine_findnew_thread balance erase spaces tgid tid w ≡ ok (some p, w₁))
        × IsFound w₁ tgid tid p ms maps
        × ((ps : List Ptr) → (ip : ℕ) → covering w₁ ip ps ≡ covering w ip ps)
  IsFound-known w tgid tid p ms maps small h =
      let b = machine_threads tid in
      let t = h.thread in
      let t₁ : Thread = record t { refcnt = refcount_inc t.refcnt } in
      let w₁ = with_reference (with_last_match w b (some p)) p t in
      let s = update w.thread p (some t₁) in
      let tids =
        KeepsTids-one w.thread s p t t₁ h.live (update_same w.thread p (some t₁)) refl
          (λ q ne. update_other w.thread p q (some t₁) ne) in
      let (table, tasks) = IsTable-served w b tid p s tids h.table h.found in
      (
        findnew-known balance erase spaces w p t tgid tid small h.table h.found h.live h.own,
        record {
          table = table;
          found = tasks b tid ∙ h.found;
          thread = t₁;
          count = t.refcnt;
          live = update_same w.thread p (some t₁);
          own = h.own;
          registered = λ a e. h.ready.2;
          named = h.named;
          counted = refl;
          shared = h.shared;
          referenced = h.referenced;
          room = h.room;
          valid = record {
            holds = h.valid.holds;
            ranges =
                IsRanges-kept w w₁ (to_list maps.entries) (same_maps w (to_list maps.entries))
                  (h.valid.ranges);
          };
          sorted = IsSorted-dsos w w₁ (to_list w.dsos.root) h.sorted;
          unused_map = h.unused_map;
          unused_dso = h.unused_dso;
        },
        λ ps ip. covering-kept w w₁ ip ps (same_maps w ps),
      )

  -- The process is new.
  pub IsFound-leader :
      (w : World) (tid : ℕ)
      → tid < 2 ^ 32
      → IsTable w
      → thread_at w tid ≡ none
      → IsUnused w.thread w.next
      → IsSorted w (to_list w.dsos.root)
      → IsUnused w.map w.next
      → IsUnused w.dso w.next
      → (w₁ : World) × (machine_findnew_thread balance erase spaces tid tid w
          ≡ ok (some w.next, w₁))
        × IsFound w₁ tid tid w.next (w.next + 1) no_maps
  unfolding machine_findnew_thread findnew refcount_inc
  IsFound-leader w tid small h e unused sorted unused_map unused_dso =
      let leader_of = λ (leader : ℕ). findnew balance erase spaces 1 leader leader in
      let b = machine_threads tid in
      let w₁ = with_leader balance erase spaces leader_of (uncached w b) b tid in
      let (runs, adds, valid, found) =
        findnew_in-leader balance erase spaces leader_of w b tid small h e
          (unused w.next (omega arith)) in
      (
        w₁,
        runs,
        record {
          table = valid;
          found = found b tid ∙ rw ((==_iff b b).1 refl, (==_iff tid tid).1 refl);
          thread = record (new_thread tid tid) { maps = some (w.next + 1); refcnt = 2 };
          count = 1;
          live = with_leader-new balance erase spaces leader_of (uncached w b) b tid;
          own = refl;
          registered = λ a e. absurd (cc);
          named = refl;
          counted = refl;
          shared = refl;
          referenced = omega arith;
          room = omega arith;
          valid = record { holds = update_same w.maps (w.next + 1) (some no_maps); ranges = tt };
          sorted = IsSorted-dsos w w₁ (to_list w.dsos.root) sorted;
          unused_map = λ q le. unused_map q (omega (arith, le));
          unused_dso = λ q le. unused_dso q (omega (arith, le));
        },
      )
