-- ===== src/Event/Mapped.antt =====
-- bpf_unwind_ctx__process_mmap: from an event to a map of the process.
use libdw_bcc.Prelude.{
  ℕ, pos, ◌+◌, ◌^◌, ◌<◌, ◌&&◌, add64, ltb, leb, ◌≡◌, refl, ◌∙◌, ap, none, some, List, if◌then◌else◌,
}
use libdw_bcc.Outcome.{ok}
use libdw_bcc.Refcount.{refcount_inc}
use libdw_bcc.Rbtree.{Balance, Erase, to_list}
use libdw_bcc.Dso.{Dso}
use libdw_bcc.Store.{Ptr, Maps, Thread, World, update, update_same}
use libdw_bcc.Maps.{maps_find}
use libdw_bcc.Maps.Ranges.{Apart, covering}
use libdw_bcc.Maps.Laws.{IsMaps, maps_find-covering}
use libdw_bcc.Maps.Objects.{
  Mmap2Event, initial_map, with_map, map_new-run, IsSorted-dsos, named-dsos,
}
use libdw_bcc.Dsos.Names.{IsSorted, named}
use libdw_bcc.Unwind.Access.{AddrSpaces}
use libdw_bcc.Unwind.Access.Prepared.{IsCreating}
use libdw_bcc.Machine.{machine_threads}
use libdw_bcc.Machine.Findnew.Known.{with_last_match, with_reference}
use libdw_bcc.Machine.Findnew.Added.{IsTable}
use libdw_bcc.Machine.Laws.{thread_at, findnew-known}
use libdw_bcc.Event.{process_mmap}
use libdw_bcc.Event.Kept.{IsRanges-kept, Apart-kept, covering-kept, same_maps}
use libdw_bcc.Event.Step.{with_event, process_mmap-run}

module _ (balance : Balance Ptr) (erase : Erase) (spaces : AddrSpaces) (c : IsCreating spaces)
    (basename : List ℕ → List ℕ) where
  -- An event for a thread of the table, of a file whose shared object is known, with a range that is
  -- not empty and apart from the maps of the process: the process gets one new map, for which the
  -- maps object has the one reference; the thread has the maps and references that it had. From
  -- then on an address is found in the new map, or where it was found before.
  pub process_mmap-found :
      (w : World) (event : Mmap2Event) (p ms d : Ptr) (t : Thread) (maps : Maps) (dso : Dso)
      → event.tid < 2 ^ 32
      → IsTable w
      → thread_at w event.tid ≡ some p
      → w.thread p ≡ some t
      → event.tgid ≡ t.tgid
      → 0 < t.refcnt
      → t.refcnt + 1 < 2 ^ 32
      → t.maps ≡ some ms
      → IsMaps w ms maps
      → w.map w.next ≡ none
      → IsSorted w (to_list w.dsos.root)
      → named w event.filename (to_list w.dsos.root) ≡ some d
      → w.dso d ≡ some dso
      → event.start < add64 event.start event.len
      → Apart w event.start (add64 event.start event.len) (to_list maps.entries)
      → (w' : World) × (maps' : Maps) × (process_mmap balance erase spaces basename event w
          ≡ ok (pos 0, w'))
        × IsMaps w' ms maps'
        × (w'.map w.next ≡ some (initial_map event d))
        × ((t' : Thread) × (w'.thread p ≡ some t') × (t'.maps ≡ t.maps) × (t'.refcnt ≡ t.refcnt))
        × ((ip : ℕ)
            → maps_find ms ip w'
              ≡ ok (
                if leb event.start ip && ltb ip (add64 event.start event.len)
                    then some w.next
                    else covering w ip (to_list maps.entries),
                w',
              ))
  process_mmap-found w event p ms d t maps dso small h e live own some_ room shared valid fresh
        sorted name known lt apart =
      let t₁ : Thread = record t { refcnt = refcount_inc t.refcnt } in
      let w₁ = with_reference (with_last_match w (machine_threads event.tid) (some p)) p t in
      let w₂ = with_map balance basename w₁ event d dso in
      let ps = to_list maps.entries in
      let valid₁ : IsMaps w₁ ms maps = record {
        holds = valid.holds;
        ranges = IsRanges-kept w w₁ ps (same_maps w ps) (valid.ranges);
      } in
      let (s, t', maps', runs, served, valid', finds) =
        process_mmap-run balance erase spaces c basename w w₁ event p ms d (w.next + 1) w₂.dso
          w.dsos t₁ t.refcnt maps
          (findnew-known balance erase spaces w p t event.tgid event.tid small h e live own)
          (update_same w.thread p (some t₁)) refl some_ room shared valid₁ fresh
          (map_new-run balance basename w₁ event d dso
            (IsSorted-dsos w w₁ (to_list w.dsos.root) sorted)
            (named-dsos w w₁ event.filename (to_list w.dsos.root) ∙ name) known)
          lt
          (Apart-kept w w₁ event.start (add64 event.start event.len) ps (same_maps w ps) apart) in
      let w' = with_event w₁ event d (w.next + 1) w₂.dso w.dsos ms s maps' in
      (
        w',
        maps',
        runs,
        valid',
        update_same
            (update (update w.map w.next (some (initial_map event d))) w.next
              (some (record (initial_map event d) { refcnt = 2 })))
            w.next (some (initial_map event d)),
        (t', served.live, served.maps, served.refcnt),
        λ ip.
            maps_find-covering w' ms maps' ip valid'
            ∙ ap (λ o. ok (o, w'))
                (finds ip
                  ∙ ap
                      (λ o.
                        if leb event.start ip && ltb ip (add64 event.start event.len)
                        then some w.next
                        else o)
                      (covering-kept w w₁ ip ps (same_maps w ps))),
      )
