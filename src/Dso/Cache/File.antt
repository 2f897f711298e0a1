-- ===== src/Dso/Cache/File.antt =====
-- The data file, a dso of it at any time, opening it, and a copy out of a chunk.
use libdw_bcc.Prelude.{
  ℕ, ◌+◌, ◌-◌, ◌%◌, ◌^◌, ◌<◌, ◌≤◌, min, pos, negsuc, ◌≡◌, refl, ◌⊎◌, inl, inr, true, false, some,
  List, arith, length, take, drop, sub64, ltb, ge→ltb, ◌∙◌, ap, length-take, length-drop,
  take-drop-take,
}
use libdw_bcc.Outcome.{ok}
use libdw_bcc.Rbtree.{Tree, to_list}
use libdw_bcc.Rbtree.Search.{descend}
use libdw_bcc.Utility.{Files, path_max, is_regular_file}
use libdw_bcc.Dso.{okay, DsoCache, Dso}
use libdw_bcc.Dso.Open.{do_open, open_dso, try_to_open_dso, binary_type_filename, is_error}
use libdw_bcc.Dso.Cache.{cache_turn, cache_size, memcpy}
use libdw_bcc.Dso.Cache.Valid.{IsChunk, IsCache}

-- A regular file that stays as it is: it can be opened, and pread gives what it holds.
pub record IsFile (files : Files) (name file : List ℕ) (fd : ℕ) : Type 0 where
  pub regular : files.stat name ≡ some true
  pub opens : files.open_rdonly name ≡ some fd
  pub stats : files.fstat fd ≡ some (length file)
  pub reads :
      (count offset : ℕ) → files.pread fd count offset ≡ some (take count (drop offset file))
  pub small : length file < 2 ^ 63

-- A dso of that file, at any time: not opened, or opened, and with any part of it cached.
pub record IsDso (name file : List ℕ) (fd : ℕ) (dso : Dso) : Type 0 where
  pub cached : IsCache file (to_list dso.content.cache)
  pub named : binary_type_filename dso path_max ≡ name
  pub closed_or_open : (dso.content.fd ≡ negsuc 0) ⊎ (dso.content.fd ≡ pos fd)
  pub no_error : is_error dso.content.status ≡ false
  pub size_known : (dso.content.file_size ≡ 0) ⊎ (dso.content.file_size ≡ length file)

-- The bytes of the file from an offset on, up to a number of them.
-- Where a read can go on: inside the file, or at its end, if that is the end of a page or lies in
-- a cached one.
pub data IsReadable (file : List ℕ) (t : Tree DsoCache) (o : ℕ) : Type 0 where
  inside : o < length file → IsReadable file t o
  page_end : o ≡ length file → o % cache_size ≡ 0 → IsReadable file t o
  cached_end :
      o ≡ length file → (e : DsoCache) → descend (cache_turn o) t ≡ some e → IsReadable file t o

abbrev pub window : List ℕ → ℕ → ℕ → List ℕ
window file offset count = take count (drop offset file)

module _ (file : List ℕ) (small : length file < 2 ^ 63) (e : DsoCache)
    (chunk : IsChunk file e) where
  chunk_length : length e.bytes ≡ min cache_size (length file - e.offset)
  chunk_length =
      ap length chunk.window
      ∙ length-take cache_size (drop e.offset file)
      ∙ ap (min cache_size) (length-drop e.offset file)

  -- A copy out of a chunk that covers the offset.
  pub memcpy-IsChunk :
      (o n k : ℕ)
      → e.offset ≤ o
      → o < e.offset + cache_size
      → o ≤ length file
      → k ≡ min (min cache_size (length file - e.offset) - (o - e.offset)) n
      → memcpy e o n ≡ ok (window file o k, k)
  unfolding memcpy
  memcpy-IsChunk o n k lo hi h ek =
      let at : sub64 o e.offset ≡ o - e.offset = omega arith in
      let left : sub64 e.size (o - e.offset)
          ≡ min cache_size (length file - e.offset) - (o - e.offset) =
        omega (arith, chunk_length, chunk.sized, chunk.within) in
      let fits : ltb (length e.bytes) (o - e.offset + k) ≡ false =
        ge→ltb _ _ (omega (arith, chunk_length)) in
      let bytes : take k (drop (o - e.offset) e.bytes) ≡ window file o k = rw (chunk.window) (
        take-drop-take k (o - e.offset) cache_size e.offset file (omega arith)
        ∙ ap (λ j. window file j k) (omega arith)) in
      rw (at, left, ← ek, fits, bytes)

module _ {files : Files} {name file : List ℕ} {fd : ℕ} (f : IsFile files name file fd) where
  regular-true : is_regular_file files name ≡ true
  unfolding is_regular_file
  regular-true = rw (f.regular, is_regular_file)

  do_open-ok : do_open files name ≡ ok (pos fd)
  unfolding do_open
  do_open-ok = rw (f.opens, do_open)

  open_dso-ok :
      (dso : Dso) → binary_type_filename dso path_max ≡ name → open_dso files dso ≡ ok (pos fd)
  unfolding open_dso
  open_dso-ok dso named = rw (named, regular-true, do_open-ok)

  -- The file is open afterwards, and nothing else changed.
  pub try_to_open-IsDso :
      (dso : Dso)
      → IsDso name file fd dso
      → (dso' : Dso) × (try_to_open_dso files dso ≡ ok dso')
        × (dso'.content.fd ≡ pos fd)
        × (dso'.content.cache ≡ dso.content.cache)
        × IsDso name file fd dso'
  unfolding try_to_open_dso binary_type_filename
  try_to_open-IsDso dso d = elim d.closed_or_open [
    | inl closed ↦ (
      record dso { content = record (dso.content) { fd = pos fd; status = okay } },
      rw closed (rw (open_dso-ok dso d.named)),
      refl,
      refl,
      record {
        cached = d.cached;
        named = d.named;
        closed_or_open = inr refl;
        no_error = refl;
        size_known = d.size_known;
      },
    )
    | inr opened ↦ (dso, rw opened, opened, refl, d)
  ]
