-- ===== src/Unwind/Memory/Mapped.antt =====
-- Words outside the saved stack come from the file that is mapped there.
use libdw_bcc.Prelude.{
  ℕ, ◌+◌, ◌-◌, ◌^◌, ◌<◌, ◌≤◌, pos, negsuc, ◌≡◌, Bool-cases, false, ◌⊎◌, inl, inr, none, some, List,
  [], ◌∷◌, length, arith, ◌∙◌, ap, min,
}
use libdw_bcc.Outcome.{ok}
use libdw_bcc.Rbtree.{Balance, to_list}
use libdw_bcc.Utility.{Files}
use libdw_bcc.Dso.{DsoCache, Dso}
use libdw_bcc.Dso.Cache.{read_addr, read_offset}
use libdw_bcc.Dso.Cache.File.{IsFile, IsDso, window}
use libdw_bcc.Dso.Cache.Whole.{read_offset-window}
use libdw_bcc.Store.{
  Ptr, Map, Maps, Thread, World, ◌>>=◌, load_map, load_thread, load_dso, store_dso, update,
}
use libdw_bcc.Maps.{map_ip}
use libdw_bcc.Maps.Ranges.{covers, covering}
use libdw_bcc.Maps.Laws.{IsMaps, maps_find-covering}
use libdw_bcc.Unwind.Encoding.{le_value}
use libdw_bcc.Unwind.Memory.{
  UnwindInfo, find_map, word_size, read_mapped, access_dso_mem, access_mem,
}
use libdw_bcc.Unwind.Memory.Words.{IsSaved, access_mem-outside}

-- The thread of a sample, and the maps of its process.
pub record IsThread (w : World) (ui : UnwindInfo) (ms : Ptr) (maps : Maps) : Type 0 where
  pub thread : Thread
  pub live : w.thread ui.thread ≡ some thread
  pub mapped : thread.maps ≡ some ms
  pub valid : IsMaps w ms maps

-- A map object of a valid dso.
pub record MapsFile (w : World) (p : Ptr) (m : Map) (d : Ptr) (dso : Dso) (name file : List ℕ)
    (fd : ℕ) : Type 0 where
  pub live : w.map p ≡ some m
  pub of_dso : m.dso ≡ some d
  pub dso_live : w.dso d ≡ some dso
  pub valid : IsDso name file fd dso

-- A map that contains an address begins at or below it.
start_le :
    (w : World) (p : Ptr) (m : Map) (ip : ℕ) (ps : List Ptr)
    → w.map p ≡ some m
    → covering w ip ps ≡ some p
    → m.start ≤ ip
start_le w p m ip [] live c = absurd (cc)
start_le w p m ip (q ∷ ps) live c = elim (Bool-cases (covers w ip q)) [
  | inl e ↦ ground (arith, e, c, live)
  | inr e ↦ start_le w p m ip ps live (rw e at c)
]

-- Within 64 bits, map_ip takes the address less the start of the map, plus the map's offset.
map_ip-offset :
    (m : Map) (addr : ℕ)
    → m.start ≤ addr
    → addr < 2 ^ 64
    → addr - m.start + m.pgoff < 2 ^ 64
    → map_ip m addr ≡ addr - m.start + m.pgoff
unfolding map_ip
map_ip-offset m addr le small fits = omega arith

pub find_map-covering :
    (w : World) (ui : UnwindInfo) (ms : Ptr) (maps : Maps) (ip : ℕ)
    → IsThread w ui ms maps
    → find_map ip ui w ≡ ok (covering w ip (to_list maps.entries), w)
unfolding find_map load_thread
find_map-covering w ui ms maps ip t =
    rw (t.live, load_thread, ◌>>=◌) (rw (t.mapped, ◌>>=◌) (maps_find-covering w ms maps ip t.valid))

module _ (balance : Balance DsoCache) {files : Files} {name file : List ℕ} {fd : ℕ}
    (f : IsFile files name file fd) where
  read_mapped-runs :
      (w : World) (p : Ptr) (m : Map) (d : Ptr) (dso dso' : Dso) (addr n : ℕ) (bytes : List ℕ)
      → MapsFile w p m d dso name file fd
      → map_ip m addr ≡ n
      → read_offset balance files dso n word_size ≡ ok (dso', pos 8, bytes)
      → read_mapped balance files addr (some p) w
        ≡ ok ((pos 0, some (le_value bytes)), record w { dso = update w.dso d (some dso') })
  unfolding read_mapped load_map load_dso store_dso read_addr
  read_mapped-runs w p m d dso dso' addr n bytes mf e reads =
      rw (mf.live, load_map, ◌>>=◌)
        (rw (mf.of_dso, ◌>>=◌) (rw (mf.dso_live, load_dso, ◌>>=◌) (rw (e, reads, ◌>>=◌))))

  read_mapped-word :
      (w : World) (p : Ptr) (m : Map) (d : Ptr) (dso : Dso) (addr n : ℕ)
      → MapsFile w p m d dso name file fd
      → map_ip m addr ≡ n
      → n + word_size ≤ length file
      → (dso' : Dso) × (read_mapped balance files addr (some p) w
          ≡ ok (
            (pos 0, some (le_value (window file n word_size))),
            record w { dso = update w.dso d (some dso') },
          ))
        × IsDso name file fd dso'
  read_mapped-word w p m d dso addr n mf e fits =
      let small = f.small in
      let (dso', reads, valid) =
        read_offset-window balance f dso n word_size mf.valid (omega arith) (omega arith)
          (omega arith) in
      let whole : min word_size (length file - n) ≡ 8 = omega arith in
      (
        dso',
        read_mapped-runs w p m d dso dso' addr n (window file n word_size) mf e
            (reads ∙ ap (λ size. ok (dso', pos size, window file n word_size)) whole),
        valid,
      )

  -- Outside the saved stack, a word at an address that a map contains is the word of the mapped
  -- file at the address less the start of the map, plus the offset at which the map begins in the
  -- file; only the cache of that file changes, and stays valid.
  pub access_mem-mapped :
      (w : World) (ui : UnwindInfo) (ss : ℕ) (ms : Ptr) (maps : Maps) (p : Ptr) (m : Map) (d : Ptr)
      (dso : Dso) (addr : ℕ)
      → IsSaved ui ss
      → IsThread w ui ms maps
      → covering w addr (to_list maps.entries) ≡ some p
      → MapsFile w p m d dso name file fd
      → addr - m.start + m.pgoff + word_size ≤ length file
      → addr + word_size < 2 ^ 64
      → (addr < ui.uc.uregs.sp) ⊎ (ui.uc.uregs.sp + ss ≤ addr + word_size)
      → (dso' : Dso) × (access_mem balance files ui addr false w
          ≡ ok (
            (pos 0, some (le_value (window file (addr - m.start + m.pgoff) word_size))),
            record w { dso = update w.dso d (some dso') },
          ))
        × IsDso name file fd dso'
  access_mem-mapped w ui ss ms maps p m d dso addr s t c mf fits nw out =
      let small = f.small in
      let offset =
        map_ip-offset m addr (start_le w p m addr (to_list maps.entries) mf.live c) (omega arith)
          (omega arith) in
      let (dso', reads, valid) =
        read_mapped-word w p m d dso addr (addr - m.start + m.pgoff) mf offset fits in
      (
        dso',
        access_mem-outside balance files ui ss s addr w nw out
            ∙ (unfold access_dso_mem in
                rw (find_map-covering w ui ms maps addr t, ◌>>=◌) (rw c (rw (reads, ◌>>=◌)))),
        valid,
      )

-- The last word of the saved stack, which ends at its end, is not served from it: where no map
-- contains the address the access fails, and 0 is stored.
pub access_mem-last_word :
    (balance : Balance DsoCache) (files : Files) (w : World) (ui : UnwindInfo) (ss : ℕ) (ms : Ptr)
    (maps : Maps) (addr : ℕ)
    → IsSaved ui ss
    → IsThread w ui ms maps
    → addr + word_size ≡ ui.uc.uregs.sp + ss
    → covering w addr (to_list maps.entries) ≡ none
    → access_mem balance files ui addr false w ≡ ok ((negsuc 0, some 0), w)
access_mem-last_word balance files w ui ss ms maps addr s t e c =
    access_mem-outside balance files ui ss s addr w (omega (arith, s.no_wrap)) (inr (omega arith))
    ∙ (unfold access_dso_mem read_mapped in
        rw (find_map-covering w ui ms maps addr t, ◌>>=◌) (rw c))
