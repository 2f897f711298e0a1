-- ===== src/Event/Filled.antt =====
-- bpf_unwind_ctx__thread_map: the maps of a process, from what /proc says of it.
mod Tests
use mathlib.Core.Path.{subst}
use libdw_bcc.Prelude.{
  All, ◌≤◌, ℕ, pos, ◌+◌, ◌^◌, ◌<◌, ◌==◌, ◌&&◌, ◌⊎◌, ==_iff, add64, leb, ltb, ◌≡◌, refl, ◌∙◌, ap,
  sym, arith, Bool-cases, inl, inr, true, false, Option, none, some, List, [], ◌∷◌, if◌then◌else◌,
}
use libdw_bcc.Outcome.{Outcome, ok}
use libdw_bcc.Refcount.{refcount_inc}
use libdw_bcc.Rbtree.{Balance, Erase, to_list}
use libdw_bcc.Store.{
  Ptr, Maps, Thread, World, Cmd, ◌>>=◌, ◌>>◌, pure, update, update_same, update_other,
}
use libdw_bcc.Maps.{maps_find}
use libdw_bcc.Maps.Ranges.{IsRanges, covering}
use libdw_bcc.Maps.Laws.{IsMaps, maps_find-covering}
use libdw_bcc.Maps.Objects.{Mmap2Event, IsSorted-dsos}
use libdw_bcc.Dsos.Names.{IsSorted}
use libdw_bcc.Dsos.Findnew.{IsUnused}
use libdw_bcc.Thread.Lifetime.{new_thread}
use libdw_bcc.Unwind.Access.{AddrSpaces}
use libdw_bcc.Unwind.Access.Prepared.{IsCreating}
use libdw_bcc.Machine.{machine_threads}
use libdw_bcc.Machine.Findnew.{findnew, machine_findnew_thread}
use libdw_bcc.Machine.Findnew.Known.{with_last_match, with_reference}
use libdw_bcc.Machine.Findnew.Kept.{KeepsTids-one, IsTable-served}
use libdw_bcc.Machine.Findnew.Search.{uncached}
use libdw_bcc.Machine.Findnew.Leader.{no_maps, findnew_in-leader, with_leader, with_leader-new}
use libdw_bcc.Machine.Findnew.Added.{IsTable}
use libdw_bcc.Machine.Laws.{thread_at, findnew-known}
use libdw_bcc.Event.{ProcMaps, process_mmap, thread_map}
use libdw_bcc.Event.Lines.{Line, Reads, events_of, each, prepare_mmap-each}
use libdw_bcc.Event.Kept.{IsRanges-kept, covering-kept, same_maps}
use libdw_bcc.Event.Serves.{
  IsFree, Serves, Shows, end_of_event, contains, IsEvent, IsFound, IsAdded, process_mmap-IsAdded,
}
use libdw_bcc.Event.Found.{IsFound-known, IsFound-leader}

-- The event that contains an address. Of two the later one counts.
abbrev pub covering_event : ℕ → List Mmap2Event → Option Mmap2Event
covering_event ip [] = none
covering_event ip (e ∷ es) = elim (covering_event ip es) [
  | none ↦ if contains e ip then some e else none
  | some f ↦ some f
]

-- What an address gives: the map of its event, or what it gave before.
abbrev pub IsShown : World → Ptr → Option Ptr → ℕ → Option Mmap2Event → Type 0
IsShown w ms before ip none = maps_find ms ip w ≡ ok (before, w)
IsShown w ms before ip (some e) = (q : Ptr) × (maps_find ms ip w ≡ ok (some q, w)) × Shows w e q

-- The events are of the thread, and their ranges are apart from one another.
abbrev pub AreSeparate : ℕ → ℕ → List Mmap2Event → Type 0
AreSeparate tgid tid [] = Unit
AreSeparate tgid tid (e ∷ es) =
    IsEvent tgid tid e
    × All (λ f. (end_of_event e ≤ f.start) ⊎ (end_of_event f ≤ e.start)) es
    × AreSeparate tgid tid es

-- The ranges of the events are free.
abbrev AreFree : World → List Ptr → List Mmap2Event → Type 0
AreFree w ps = All (λ e. IsFree w e.start (end_of_event e) ps)

-- What the events leave of a process.
abbrev IsFilled :
    World → World → Outcome (Unit {0} × World) → ℕ → ℕ → Ptr → Ptr → Maps → List Mmap2Event → Type 0
IsFilled w w' run tgid tid p ms maps es =
    (run ≡ ok (tt, w'))
    × ((maps' : Maps) × Serves w' tgid tid p ms maps')
    × ((ip : ℕ) → IsShown w' ms (covering w ip (to_list maps.entries)) ip (covering_event ip es))
    × ((e : Mmap2Event) (q : Ptr) → Shows w e q → Shows w' e q)

AreFree-added :
    (w w' : World) (p : Ptr) (ps ps' : List Ptr) (e : Mmap2Event) (es : List Mmap2Event)
    → ((ip : ℕ) → covering w' ip ps' ≡ (if contains e ip then some p else covering w ip ps))
    → All (λ f. (end_of_event e ≤ f.start) ⊎ (end_of_event f ≤ e.start)) es
    → AreFree w ps es
    → AreFree w' ps' es
AreFree-added w w' p ps ps' e [] finds apart free = tt
AreFree-added w w' p ps ps' e (f ∷ es) finds (a, as_) (free, frees) = (
  λ ip le lt. ground (arith, finds ip, free ip le lt, a),
  AreFree-added w w' p ps ps' e es finds as_ frees,
)

AreFree-same :
    (w v : World) (ps : List Ptr) (es : List Mmap2Event)
    → ((ip : ℕ) → covering v ip ps ≡ covering w ip ps)
    → AreFree w ps es
    → AreFree v ps es
AreFree-same w v ps [] same free = tt
AreFree-same w v ps (e ∷ es) same (free, frees) =
    (λ ip le lt. same ip ∙ free ip le lt, AreFree-same w v ps es same frees)

AreFree-none : (w : World) (es : List Mmap2Event) → AreFree w [] es
AreFree-none w [] = tt
AreFree-none w (e ∷ es) = (λ ip le lt. refl, AreFree-none w es)

IsShown-cons :
    (w : World) (ms : Ptr) (p : Ptr) (before : Option Ptr) (e : Mmap2Event) (ip : ℕ)
    (o : Option Mmap2Event)
    → Shows w e p
    → IsShown w ms (if contains e ip then some p else before) ip o
    → IsShown w ms before ip
        (elim o [ none ↦ if contains e ip then some e else none | some f ↦ some f ])
IsShown-cons w ms p before e ip (some f) shows h = h
IsShown-cons w ms p before e ip none shows h = elim (Bool-cases (contains e ip)) [
  | inl here ↦ rw here (p, rw here at h, shows)
  | inr there ↦ rw there (rw there at h)
]

module _ (balance : Balance Ptr) (erase : Erase) (spaces : AddrSpaces) (c : IsCreating spaces)
    (basename : List ℕ → List ℕ) (tgid tid : ℕ) (p ms : Ptr) where
  -- Where the search for the thread of the first event has left `w₁`, and the others do their work.
  each-cons :
      (w w₁ : World) (maps : Maps) (e : Mmap2Event) (es : List Mmap2Event)
      → machine_findnew_thread balance erase spaces tgid tid w ≡ ok (some p, w₁)
      → IsFound w₁ tgid tid p ms maps
      → AreSeparate tgid tid (e ∷ es)
      → AreFree w₁ (to_list maps.entries) (e ∷ es)
      → ((v : World) (maps' : Maps)
          → Serves v tgid tid p ms maps'
          → AreFree v (to_list maps'.entries) es
          → (w' : World) × IsFilled v w'
              (each (process_mmap balance erase spaces basename) es v)
              tgid
              tid
              p
              ms
              maps'
              es)
      → (w' : World) × IsFilled w₁ w'
          (each (process_mmap balance erase spaces basename) (e ∷ es) w)
          tgid
          tid
          p
          ms
          maps
          (e ∷ es)
  each-cons w w₁ maps e es found h (event, apart, separate) (free, frees) rest =
      let (w₂, maps₂, runs, (serves, shows, finds, keeps)) =
        process_mmap-IsAdded balance erase spaces c basename w w₁ e tgid tid p ms maps found h event
          free in
      let (w', (runs', serves', filled, kept)) = rest w₂ maps₂ serves (
        AreFree-added w₁ w₂ w₁.next (to_list maps.entries) (to_list maps₂.entries) e es finds apart
          frees) in
      (
        w',
        (
          rw (runs, ◌>>=◌, ◌>>◌) runs',
          serves',
          λ ip.
              IsShown-cons w' ms w₁.next (covering w₁ ip (to_list maps.entries)) e ip
                (covering_event ip es) (kept e w₁.next shows)
                (subst (λ o. IsShown w' ms o ip (covering_event ip es)) (finds ip) (filled ip)),
          λ f q k. kept f q (keeps f q k),
        ),
      )

  -- Events for a thread that is in the table already.
  each-known :
      (es : List Mmap2Event) (w : World) (maps : Maps)
      → tid < 2 ^ 32
      → Serves w tgid tid p ms maps
      → AreSeparate tgid tid es
      → AreFree w (to_list maps.entries) es
      → (w' : World) × IsFilled w w'
          (each (process_mmap balance erase spaces basename) es w)
          tgid
          tid
          p
          ms
          maps
          es
  each-known [] w maps small h separate free =
      (w, (refl, (maps, h), (λ ip. maps_find-covering w ms maps ip h.valid), λ e q k. k))
  each-known (e ∷ es) w maps small h (event, apart, separate) free =
      let (found, is_found, same) =
        IsFound-known balance erase spaces w tgid tid p ms maps small h in
      let w₁ = with_reference (with_last_match w (machine_threads tid) (some p)) p (h.thread) in
      let (w', (runs, serves, filled, kept)) =
        each-cons w w₁ maps e es found is_found (event, apart, separate)
          (AreFree-same w w₁ (to_list maps.entries) (e ∷ es) (same (to_list maps.entries)) free)
          (λ v maps' h' free'. each-known es v maps' small h' separate free') in
      (
        w',
        (
          runs,
          serves,
          λ ip.
              subst (λ o. IsShown w' ms o ip (covering_event ip (e ∷ es)))
                (same (to_list maps.entries) ip) (filled ip),
          kept,
        ),
      )

module _ (balance : Balance Ptr) (erase : Erase) (spaces : AddrSpaces) (c : IsCreating spaces)
    (basename : List ℕ → List ℕ) (proc : ProcMaps) where
  -- A process that is not in the table, whose file of /proc can be opened and has executable lines
  -- with ranges that are not empty and apart from one another: thread_map runs without a fault, and
  -- then the process is in the table with maps of its own, which are valid. An address gives, in
  -- these maps, the map of the line that contains it, with the line's range, offset, protection and
  -- device, and a shared object whose name is the line's; and no map, if no executable line contains
  -- the address. The shared objects of the lines may be known before, made here, or be the same for
  -- several lines.
  pub thread_map-new :
      (w : World) (event e : Mmap2Event) (es : List Mmap2Event) (tgid : ℕ) (ls : List (List ℕ))
      (xs : List Line)
      → tgid < 2 ^ 32
      → IsTable w
      → thread_at w tgid ≡ none
      → IsUnused w.thread w.next
      → IsUnused w.map w.next
      → IsUnused w.dso w.next
      → IsSorted w (to_list w.dsos.root)
      → proc.open_maps tgid ≡ some ls
      → Reads proc ls xs
      → events_of event.ino_generation tgid tgid xs ≡ e ∷ es
      → AreSeparate tgid tgid (e ∷ es)
      → (w' : World) × (maps : Maps) × (thread_map balance erase spaces basename proc event tgid
            tgid w
          ≡ ok (pos 0, w'))
        × Serves w' tgid tgid w.next (w.next + 1) maps
        × ((ip : ℕ) → IsShown w' (w.next + 1) none ip (covering_event ip (e ∷ es)))
  unfolding thread_map
  thread_map-new w event e es tgid ls xs small table new threads map_ dso_ sorted opened reads
        events separate =
      let process = process_mmap balance erase spaces basename in
      let (w₁, found, is_found) =
        IsFound-leader balance erase spaces w tgid small table new threads sorted map_ dso_ in
      let (w', (runs, (maps, serves), filled, kept)) =
        each-cons balance erase spaces c basename tgid tgid w.next (w.next + 1) w w₁ no_maps e es
          found is_found separate (AreFree-none w₁ (e ∷ es))
          (λ v maps' h free.
            each-known balance erase spaces c basename tgid tgid w.next (w.next + 1) es v maps'
              small h (separate.2) free) in
      (
        w',
        maps,
        prepare_mmap-each proc process tgid tgid event ls xs w opened reads
            ∙ ap (λ l. (each process l >> pure (pos 0)) w) events
            ∙ rw (runs, ◌>>◌, ◌>>=◌),
        serves,
        filled,
      )
