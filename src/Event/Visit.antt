-- ===== src/Event/Visit.antt =====
-- bpf_dl_iterate_phdr shows a callback the maps of a process.
use libdw_bcc.Prelude.{
  ℕ, ℤ, pos, negsuc, is_neg, ◌<◌, ◌^◌, ◌≡◌, refl, Bool-cases, inl, inr, some, Option, List, [], ◌∷◌,
  if◌then◌else◌,
}
use libdw_bcc.Outcome.{ok}
use libdw_bcc.Rbtree.{Balance, Erase}
use libdw_bcc.Dso.{Dso}
use libdw_bcc.Store.{
  Ptr, Map, Maps, Thread, World, ◌>>=◌, load_map, load_maps, load_dso, update, update_same,
}
use libdw_bcc.Refcount.{refcount_inc}
use libdw_bcc.Unwind.Access.{AddrSpaces}
use libdw_bcc.Unwind.Access.Prepared.{load_thread-ok}
use libdw_bcc.Machine.{machine_threads}
use libdw_bcc.Machine.Findnew.Known.{with_last_match, with_reference}
use libdw_bcc.Machine.Findnew.Added.{IsTable}
use libdw_bcc.Machine.Laws.{thread_at, findnew-known}
use libdw_bcc.Event.{DlPhdrInfo, visit, dl_iterate_phdr}

abbrev pub info_of : Map → Dso → DlPhdrInfo
info_of m dso = record { start_addr = m.start; end_addr = m.end; dlpi_name = dso.long_name }

-- The maps of a list, with what the callback sees of each.
abbrev pub Shows : (Ptr → Option Map) → (Ptr → Option Dso) → List Ptr → List DlPhdrInfo → Type 0
Shows map_at dso_at [] [] = Unit
Shows map_at dso_at [] (i ∷ is_) = ⊥
Shows map_at dso_at (p ∷ ps) [] = ⊥
Shows map_at dso_at (p ∷ ps) (i ∷ is_) =
    ((m : Map) × (d : Ptr) × (dso : Dso) × (map_at p ≡ some m)
      × (m.dso ≡ some d)
      × (dso_at d ≡ some dso)
      × (i ≡ info_of m dso))
    × Shows map_at dso_at ps is_

-- The specification: the callback is called in order, until it returns a negative number.
abbrev pub calls : {S : Type 0} → (DlPhdrInfo → S → ℤ × S) → List DlPhdrInfo → S → ℤ × S
calls callback [] s = (pos 0, s)
calls callback (i ∷ is_) s =
    let (ret, s') = callback i s in
    let rest = calls callback is_ s' in if is_neg ret then (negsuc 0, s') else rest

module _ {S : Type 0} (callback : DlPhdrInfo → S → ℤ × S) where
  visit-calls :
      (w : World) (ps : List Ptr) (is_ : List DlPhdrInfo) (s : S)
      → Shows w.map w.dso ps is_
      → visit callback ps s w ≡ ok (calls callback is_ s, w)
  unfolding visit load_map load_dso
  visit-calls w [] [] s h = refl
  visit-calls w [] (i ∷ is_) s h = absurd h
  visit-calls w (p ∷ ps) [] s h = absurd h
  visit-calls w (p ∷ ps) (i ∷ is_) s ((m, d, dso, live, of_file, named_, shown), h) =
      rw (live, ◌>>=◌)
        (rw (of_file, ◌>>=◌)
          (rw (named_, ◌>>=◌)
            (rw shown (
              let r = callback (info_of m dso) s in
              elim (Bool-cases (is_neg r.0)) [
                | inl stop_ ↦ rw stop_
                | inr goes ↦ rw goes (visit-calls w ps is_ (r.1) h)
              ]))))

  -- The callback sees the maps of the process, in the order in which they were added, with their
  -- ranges and the names of their files, until it returns a negative number; the result is then -1,
  -- and 0 otherwise. The reference to the thread is not given back.
  pub dl_iterate_phdr-calls :
      (balance : Balance Ptr) (erase : Erase) (spaces : AddrSpaces) (w : World) (p ms : Ptr)
      (t : Thread) (maps : Maps) (tgid : ℕ) (s : S) (is_ : List DlPhdrInfo)
      → tgid < 2 ^ 32
      → IsTable w
      → thread_at w tgid ≡ some p
      → w.thread p ≡ some t
      → tgid ≡ t.tgid
      → t.maps ≡ some ms
      → w.maps ms ≡ some maps
      → Shows w.map w.dso maps.head is_
      → dl_iterate_phdr balance erase spaces callback tgid s w
        ≡ ok (
          calls callback is_ s,
          with_reference (with_last_match w (machine_threads tgid) (some p)) p t,
        )
  unfolding dl_iterate_phdr load_maps
  dl_iterate_phdr-calls balance erase spaces w p ms t maps tgid s is_ small h e live same shared
        held shows =
      let w' = with_reference (with_last_match w (machine_threads tgid) (some p)) p t in
      rw (findnew-known balance erase spaces w p t tgid tgid small h e live same, ◌>>=◌)
        (rw
          (
            load_thread-ok w' p (record t { refcnt = refcount_inc t.refcnt })
                (update_same w.thread p (some (record t { refcnt = refcount_inc t.refcnt }))),
            ◌>>=◌,
          )
          (rw (shared, ◌>>=◌)
            (rw (held, ◌>>=◌)
              (visit-calls
                (record w {
                  thread =
                      update w.thread p
                        (some (record t { maps = some ms; refcnt = refcount_inc t.refcnt }));
                  threads = w'.threads;
                })
                maps.head is_ s shows))))
