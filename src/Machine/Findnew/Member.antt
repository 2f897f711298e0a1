-- ===== src/Machine/Findnew/Member.antt =====
-- A thread that is made for another process: it shares the maps of that process's leader.
use mathlib.Core.Path.{subst}
use libdw_bcc.Prelude.{
  ℕ, ◌+◌, ◌^◌, ◌<◌, ◌==◌, ==_iff, ne→==, ◌&&◌, add32, Bool-cases, inl, inr, ◌≡◌, refl, ◌∙◌, ap, sym,
  true, Option, none, some, if◌then◌else◌,
}
use libdw_bcc.Outcome.{ok}
use libdw_bcc.Refcount.{refcount_inc}
use libdw_bcc.Rbtree.{Balance, Erase, to_list}
use libdw_bcc.Rbtree.Search.{slot}
use libdw_bcc.Store.{Ptr, Maps, Thread, World, Cmd, ◌>>=◌, update_same, update_other}
use libdw_bcc.Thread.Lifetime.{new_thread, thread_new}
use libdw_bcc.Unwind.Access.{AddrSpaces}
use libdw_bcc.Machine.Findnew.{thread_turn, linked, add_thread, findnew_in}
use libdw_bcc.Machine.Table.{tid_of, of_tid-IsTask}
use libdw_bcc.Machine.Findnew.Known.{task_of, with_last_match, with_reference, findnew_in-task_of}
use libdw_bcc.Machine.Findnew.Search.{entries-with_threads, entries-with_last_match}
use libdw_bcc.Machine.Findnew.Added.{
  IsTable, Adds, IsKept, IsTable-Adds, task_of-Adds, to_list-added,
}
use libdw_bcc.Machine.Findnew.Leader.{counted, kept-run}
use libdw_bcc.Machine.Findnew.Shared.{with_shared_maps, with_thread, init_maps-member}

-- A leader in the table, with the maps of its process.
pub record IsLeader (w : World) (c tgid : ℕ) (l : Ptr) (t : Thread) (ms : Ptr) (maps : Maps)
    : Type 0 where
  pub found : task_of w c tgid ≡ some l
  pub live : w.thread l ≡ some t
  pub own : tgid ≡ t.tgid
  pub shared : t.maps ≡ some ms
  pub held : w.maps ms ≡ some maps
  pub referenced : 0 < t.refcnt
  pub room : t.refcnt + 1 < 2 ^ 32

module _ (balance : Balance Ptr) (erase : Erase) (spaces : AddrSpaces) (w : World)
    (b c tgid tid : ℕ) (l : Ptr) (t : Thread) (ms : Ptr) (maps : Maps) where
  abbrev before : World
  before =
      linked balance erase spaces w b tgid tid
        (slot (thread_turn w.thread tid) (w.threads b).entries)

  abbrev led : World
  led = with_reference (with_last_match before c (some l)) l t

  abbrev shared_maps : World
  shared_maps = with_thread (with_shared_maps led w.next (new_thread tgid tid) ms maps) l t

  -- The memory after all of it.
  abbrev pub with_member : World
  with_member =
      counted (with_reference shared_maps w.next (record (new_thread tgid tid) { maps = some ms }))
        b w.next

  module _ (small : tid < 2 ^ 32) (h : IsTable w) (e : task_of w b tid ≡ none)
      (fresh : w.thread w.next ≡ none) (ne : ¬ (tgid ≡ tid))
      (lead : IsLeader w c tgid l t ms maps) where
    not_leader : ¬ (w.next ≡ l)
    not_leader i = cc (fresh, lead.live, ap w.thread i)

    before-Adds : Adds w before b tid w.next
    before-Adds =
        let new = update_same w.thread w.next (some (new_thread tgid tid)) in
        let own : tid_of before.thread w.next ≡ tid = rw (new, tid_of) in
        record {
          fresh = fresh;
          live = (new_thread tgid tid, new, rw own small);
          own = own;
          others = λ q i. rw (ne→== w.next q i);
          entries = rw ((==_iff b b).1 refl) (
              to_list-added balance w.thread tid w.next (w.threads b).entries small ((h b).tasks)
                e);
          elsewhere = λ d i. rw (ne→== b d i);
        }

    before-IsTable : (w.threads b).last_match ≡ none → IsTable before
    before-IsTable empty = IsTable-Adds w before b tid w.next small before-Adds h e λ d.
        elim (Bool-cases (b == d)) [
          | inl here ↦ inl (rw here empty)
          | inr there ↦ elim ((h d).cached) [
            | inl none_there ↦ inl (rw there none_there)
            | inr (q, cache, among) ↦ inr (inr (q, rw there cache, among))
          ]
        ]

    leader_found : task_of before c tgid ≡ some l
    leader_found =
        task_of-Adds w before b tid w.next small before-Adds h e c tgid
        ∙ (elim (Bool-cases (b == c)) [
          | inl here ↦ rw (here, ne→== tid tgid (λ i. ne (sym i))) (lead.found)
          | inr there ↦ rw there (lead.found)
        ])

    leader_tid : tid_of w.thread l ≡ tgid
    leader_tid =
        (of_tid-IsTask w.thread tgid (to_list (w.threads c).entries) l ((h c).tasks) (lead.found)).1

    leader_live : before.thread l ≡ some t
    leader_live = before-Adds.others l not_leader ∙ lead.live

    pub with_member-others : (q : Ptr) → ¬ (w.next ≡ q) → with_member.thread q ≡ w.thread q
    with_member-others q i = elim (Bool-cases (l == q)) [
      | inl e ↦ rw (ne→== w.next q i, e) (sym (ap w.thread (sym ((==_iff l q).0 e)) ∙ lead.live))
      | inr e ↦ rw (ne→== w.next q i, e)
    ]

    pub with_member-new :
        with_member.thread w.next
        ≡ some (record (new_thread tgid tid) { maps = some ms; refcnt = refcount_inc 1 })
    with_member-new =
        update_same shared_maps.thread w.next
          (some (record (new_thread tgid tid) { maps = some ms; refcnt = refcount_inc 1 }))

    with_member-entries : (d : ℕ) → (with_member.threads d).entries ≡ (before.threads d).entries
    with_member-entries d =
        let v =
          with_reference shared_maps w.next (record (new_thread tgid tid) { maps = some ms }) in
        entries-with_threads v b d
          (record (v.threads b) { last_match = some w.next; nr = add32 (v.threads b).nr 1 }) refl
        ∙ entries-with_last_match before c d (some l)

    with_member-Adds : Adds w with_member b tid w.next
    with_member-Adds =
        let own : tid_of with_member.thread w.next ≡ tid = rw (with_member-new, tid_of) in
        record {
          fresh = fresh;
          live = (
            record (new_thread tgid tid) { maps = some ms; refcnt = refcount_inc 1 },
            with_member-new,
            rw own small,
          );
          own = own;
          others = with_member-others;
          entries = ap to_list (with_member-entries b) ∙ before-Adds.entries;
          elsewhere = λ d i. with_member-entries d ∙ before-Adds.elsewhere d i;
        }

    with_member-IsKept : (d : ℕ) → IsKept w b w.next d (with_member.threads d).last_match
    with_member-IsKept d = elim (Bool-cases (b == d)) [
      | inl here ↦ inr (inl (rw here, (==_iff b d).0 here))
      | inr there ↦ elim (Bool-cases (c == d)) [
        | inl at_leader ↦ inr (
            inr (
              l,
              rw (there, at_leader),
              subst (λ i. task_of w i (tid_of w.thread l) ≡ some l) ((==_iff c d).0 at_leader)
                  (ap (task_of w c) leader_tid ∙ lead.found),
            ))
        | inr elsewhere ↦ elim ((h d).cached) [
          | inl none_there ↦ inl (rw (there, elsewhere) none_there)
          | inr (q, cache, among) ↦ inr (inr (q, rw (there, elsewhere) cache, among))
        ]
      ]
    ]

    -- The run, where the search for the leader is the search in its bucket.
    pub add_thread-member :
        (leader_of inner : ℕ → Cmd (Option Ptr))
        → ((v : World)
            → leader_of tgid v ≡ findnew_in balance erase spaces inner true c tgid tgid v)
        → tgid < 2 ^ 32
        → (w.threads b).last_match ≡ none
        → add_thread balance erase spaces leader_of b tgid tid
            (slot (thread_turn w.thread tid) (w.threads b).entries)
            w
          ≡ ok (some w.next, with_member)
    unfolding add_thread thread_new
    add_thread-member leader_of inner leads small_leader empty =
        let new = new_thread tgid tid in
        let finds =
          leads before
          ∙ findnew_in-task_of balance erase spaces inner before c l t tgid tgid small_leader
              (before-IsTable empty c) leader_found leader_live lead.own in
        let mine = update_same w.thread w.next (some new) in
        let led_live =
          update_same before.thread l (some (record t { refcnt = refcount_inc t.refcnt })) in
        rw
          (
            init_maps-member balance erase spaces leader_of before led w.next l ms new t maps mine
                ne (finds, led_live) not_leader
                (update_other before.thread l w.next
                    (some (record t { refcnt = refcount_inc t.refcnt })) (λ i. not_leader (sym i))
                  ∙ mine)
                lead.shared lead.held lead.referenced lead.room,
            ◌>>=◌,
          )
          (kept-run balance erase spaces shared_maps b w.next (record new { maps = some ms })
            (update_other (with_shared_maps led w.next new ms maps).thread l w.next (some t)
                (λ i. not_leader (sym i))
              ∙ update_same led.thread w.next (some (record new { maps = some ms }))))

    -- A tid that is not in the table, of a process whose leader is in it.
    pub with_member-IsTable :
        IsTable with_member
        × ((d i : ℕ)
            → task_of with_member d i ≡ (if b == d && tid == i then some w.next else task_of w d i))
    with_member-IsTable = (
      IsTable-Adds w with_member b tid w.next small with_member-Adds h e with_member-IsKept,
      task_of-Adds w with_member b tid w.next small with_member-Adds h e,
    )
