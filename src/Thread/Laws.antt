-- ===== src/Thread/Laws.antt =====
-- A map that is added to a thread is found by address; the name of a thread stays as it is.
use libdw_bcc.Prelude.{
  ℕ, zero, suc, ◌-◌, ◌<◌, ◌≤◌, pos, ◌==◌, ltb, leb, ◌&&◌, Bool-cases, inl, inr, ◌≡◌, refl, ◌∙◌, ap,
  Option, some, List, [], ◌∷◌, ◌++◌, length-append, length-take, true, if◌then◌else◌, length, take,
  take_all, arith,
}
use libdw_bcc.Outcome.{ok}
use libdw_bcc.Refcount.{refcount_inc}
use libdw_bcc.Rbtree.{Balance, to_list}
use libdw_bcc.Store.{
  Ptr, Map, Maps, Thread, World, ◌>>=◌, store_thread, update, update_same, update_other,
}
use libdw_bcc.Symbol.{str_eq_sound}
use libdw_bcc.Maps.{maps_find}
use libdw_bcc.Maps.Ranges.{Apart, covering}
use libdw_bcc.Maps.Laws.{
  IsMaps, SameRanges, IsRanges-frame, covering-frame, inserted, maps_insert-run, maps_find-covering,
}
use libdw_bcc.Unwind.Access.{AddrSpaces}
use libdw_bcc.Unwind.Access.Prepared.{
  IsCreating, IsPrepared, load_thread-ok, flush_access-quiet, prepare_access-Thread,
}
use libdw_bcc.Thread.{
  task_comm_len, c_string, zeros, strncpy, strn_eq, insert_prepared, insert_map, set_comm,
}

c_string-zeros : (n : ℕ) → c_string (zeros n) ≡ []
c_string-zeros zero = refl
c_string-zeros (suc n) = refl

c_string-padded : (s : List ℕ) (n : ℕ) → c_string (c_string s ++ zeros n) ≡ c_string s
c_string-padded [] n = c_string-zeros n
c_string-padded (b ∷ s) n = elim (Bool-cases (b == 0)) [
  | inl e ↦ rw e (c_string-zeros n)
  | inr e ↦ rw e (rw e (ap (λ r. b ∷ r) (c_string-padded s n)))
]

length-c_string : (s : List ℕ) → length (c_string s) ≤ length s
length-c_string [] = omega arith
length-c_string (b ∷ s) = ground (arith, length-c_string s)

-- strncmp found the strings equal, so that strncpy writes what is there.
copy-equal :
    (str name : List ℕ)
    → length name ≡ task_comm_len
    → strn_eq str (c_string name) task_comm_len ≡ true
    → c_string (strncpy str task_comm_len) ≡ c_string name
unfolding strncpy
copy-equal str name size same =
    let short = take_all task_comm_len (c_string name) (omega (arith, length-c_string name)) in
    let equal : take task_comm_len str ≡ c_string name =
      str_eq_sound (take task_comm_len str) (take task_comm_len (c_string name)) same ∙ short in
    rw equal (c_string-padded name (task_comm_len - length str))

-- The memory with a map added.
abbrev pub with_inserted : World → (Ptr → Option Thread) → Ptr → Maps → Ptr → Map → World
with_inserted w threads ms maps p m = record w {
  thread = threads;
  maps = update w.maps ms (some maps);
  map = update w.map p (some (record m { refcnt = refcount_inc m.refcnt }));
}

length-zeros : (n : ℕ) → length (zeros n) ≡ n
length-zeros zero = refl
length-zeros (suc n) = omega (arith, length-zeros n)

length-strncpy : (str : List ℕ) (n : ℕ) → length (strncpy str n) ≡ n
unfolding strncpy
length-strncpy str n = omega (
  arith,
  length-append (take n str) (zeros (n - length str)),
  length-take n str,
  length-zeros (n - length str),
)

module _ (balance : Balance Ptr) (spaces : AddrSpaces) (c : IsCreating spaces) where
  -- The run writes one thread at most, whose name stays.
  pub set_comm-run :
      (w : World) (th : Ptr) (t : Thread) (str : List ℕ)
      → w.thread th ≡ some t
      → length t.name ≡ task_comm_len
      → (threads : Ptr → Option Thread) × (name : List ℕ) × (set_comm balance spaces th str w
          ≡ ok (tt, record w { thread = threads }))
        × (threads th ≡ some (record t { name = name }))
        × (c_string name ≡ c_string t.name)
        × (length name ≡ task_comm_len)
        × ((q : Ptr) → ¬ (th ≡ q) → threads q ≡ w.thread q)
  unfolding set_comm
  set_comm-run w th t str live size =
      elim (Bool-cases (strn_eq str (c_string t.name) task_comm_len)) [
        | inl same ↦
            let t' : Thread = record t { name = strncpy str task_comm_len } in
            let w' : World = record w { thread = update w.thread th (some t') } in
            (
              w'.thread,
              strncpy str task_comm_len,
              (unfold store_thread in
                  rw (load_thread-ok w th t live, ◌>>=◌)
                    (rw same
                      (flush_access-quiet spaces c w' th t' (update_same w.thread th (some t'))))),
              update_same w.thread th (some t'),
              copy-equal str t.name size same,
              length-strncpy str task_comm_len,
              λ q ne. update_other w.thread th q (some t') ne,
            )
        | inr other ↦ (
          w.thread,
          t.name,
          rw (load_thread-ok w th t live, ◌>>=◌) (rw other),
          live,
          refl,
          size,
          λ q ne. refl,
        )
      ]

  -- thread__set_comm never changes the name of a thread, whatever name it is given: it copies the
  -- new name only where it is equal to the old one. The rest of the thread stays as well.
  pub set_comm-keeps_name :
      (w : World) (th : Ptr) (t : Thread) (str : List ℕ)
      → w.thread th ≡ some t
      → length t.name ≡ task_comm_len
      → (w' : World) × (name : List ℕ) × (set_comm balance spaces th str w ≡ ok (tt, w'))
        × (w'.thread th ≡ some (record t { name = name }))
        × (c_string name ≡ c_string t.name)
        × (w'.maps ≡ w.maps)
  set_comm-keeps_name w th t str live size =
      let (threads, name, runs, live', same, long, others) = set_comm-run w th t str live size in
      (record w { thread = threads }, name, runs, live', same, refl)

  -- The run, with what it leaves.
  pub insert_map-run :
      (w : World) (th ms p : Ptr) (t : Thread) (maps : Maps) (m : Map)
      → w.thread th ≡ some t
      → t.maps ≡ some ms
      → IsMaps w ms maps
      → w.map p ≡ some m
      → m.start < m.end
      → Apart w m.start m.end (to_list maps.entries)
      → (threads : Ptr → Option Thread) × (t' : Thread) × (maps' : Maps) × (insert_map balance
            spaces th p w
          ≡ ok (pos 0, with_inserted w threads ms maps' p m))
        × IsPrepared w th t threads t'
        × IsMaps (with_inserted w threads ms maps' p m) ms maps'
        × ((ip : ℕ)
            → covering (with_inserted w threads ms maps' p m) ip (to_list maps'.entries) ≡ (
                if leb m.start ip && ltb ip m.end
                then some p
                else covering w ip (to_list maps.entries)))
  insert_map-run w th ms p t maps m live mapped h k lt apart =
      let (threads, t', prepares, prepared) = prepare_access-Thread spaces c w th t live in
      let w₁ : World = record w { thread = threads } in
      let same : SameRanges w w₁ = λ q. (refl, refl, λ r. r) in
      let valid : IsMaps w₁ ms maps = record {
        holds = h.holds;
        ranges = IsRanges-frame w w₁ (to_list maps.entries) same h.ranges;
      } in
      let (inserts, valid', finds) = maps_insert-run balance w₁ ms p maps m valid k lt apart in
      (
        threads,
        t',
        inserted balance w₁ ms p maps m,
        (unfold insert_map insert_prepared in
            rw (prepares, ◌>>=◌)
              (rw (load_thread-ok w₁ th t' prepared.live, ◌>>=◌)
                (rw (prepared.maps ∙ mapped, ◌>>=◌) (rw (inserts, ◌>>=◌))))),
        prepared,
        valid',
        λ ip.
            finds ip
            ∙ ap (λ r. if leb m.start ip && ltb ip m.end then some p else r)
                (covering-frame w w₁ ip (to_list maps.entries) same),
      )

  -- Adding a live map, apart from those that the thread's process has, succeeds; the process holds
  -- one more reference to it, and the thread has the maps and references that it had; and from then
  -- on an address is found in the new map, or where it was found before.
  pub insert_map-found :
      (w : World) (th ms p : Ptr) (t : Thread) (maps : Maps) (m : Map)
      → w.thread th ≡ some t
      → t.maps ≡ some ms
      → IsMaps w ms maps
      → w.map p ≡ some m
      → m.start < m.end
      → Apart w m.start m.end (to_list maps.entries)
      → (w' : World) × (maps' : Maps) × (insert_map balance spaces th p w ≡ ok (pos 0, w'))
        × IsMaps w' ms maps'
        × (w'.map p ≡ some (record m { refcnt = refcount_inc m.refcnt }))
        × ((t' : Thread) × (w'.thread th ≡ some t') × (t'.maps ≡ t.maps) × (t'.refcnt ≡ t.refcnt))
        × ((ip : ℕ)
            → maps_find ms ip w'
              ≡ ok (
                if leb m.start ip && ltb ip m.end
                    then some p
                    else covering w ip (to_list maps.entries),
                w',
              ))
  insert_map-found w th ms p t maps m live mapped h k lt apart =
      let (threads, t', maps', runs, prepared, valid, finds) =
        insert_map-run w th ms p t maps m live mapped h k lt apart in
      let w' = with_inserted w threads ms maps' p m in
      (
        w',
        maps',
        runs,
        valid,
        update_same w.map p (some (record m { refcnt = refcount_inc m.refcnt })),
        (t', prepared.live, prepared.maps, prepared.refcnt),
        λ ip. maps_find-covering w' ms maps' ip valid ∙ ap (λ o. ok (o, w')) (finds ip),
      )
