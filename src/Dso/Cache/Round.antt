-- ===== src/Dso/Cache/Round.antt =====
-- One call of dso_cache_read: it returns bytes of the file, and the read can go on behind them.
use libdw_bcc.Prelude.{
  ℕ, ◌+◌, ◌-◌, ◌%◌, ◌<◌, ◌≤◌, min, pos, ◌≡◌, refl, inl, inr, ◌==◌, false, ne→==, none, some, List,
  [], arith, length, take, drop, ◌∙◌, ap, drop_all, length-take, length-drop, Option-cases,
}
use libdw_bcc.Outcome.{ok}
use libdw_bcc.Rbtree.{Balance}
use libdw_bcc.Rbtree.Search.{descend}
use libdw_bcc.Utility.{Files}
use libdw_bcc.Dso.{DsoCache, Dso}
use libdw_bcc.Dso.Cache.{
  cache_turn, cache_size, align_down, memcpy, insert, read_chunk, read_file, read, dso_cache_read,
}
use libdw_bcc.Dso.Cache as Cache
use libdw_bcc.Dso.Cache.Valid.{IsChunk}
use libdw_bcc.Dso.Cache.File.{
  IsFile, IsDso, IsReadable, inside, page_end, cached_end, window, memcpy-IsChunk,
  try_to_open-IsDso,
}
use libdw_bcc.Dso.Cache.Grow.{descend-page, found-IsChunk, next-IsReadable, insert-IsChunk}

module _ (balance : Balance DsoCache) {files : Files} {name file : List ℕ} {fd : ℕ}
    (f : IsFile files name file fd) where
  -- What a call leaves: `k` bytes of the file, none only at its end.
  pub record Round (dso : Dso) (o n : ℕ) : Type 0 where
    pub after : Dso
    pub k : ℕ
    pub returns : dso_cache_read balance files dso o n ≡ ok (after, pos k, window file o k)
    pub le_size : k ≤ n
    pub le_file : o + k ≤ length file
    pub progress : o < length file → 0 < k
    pub valid : IsDso name file fd after
    pub next : IsReadable file after.content.cache (o + k)

  find-descend :
      (dso : Dso) (o : ℕ) (e : DsoCache)
      → IsChunk file e
      → descend (cache_turn o) dso.content.cache ≡ some e
      → Cache.find dso o ≡ ok (some e)
  unfolding Cache.find
  find-descend dso o e chunk h = rw (h, chunk.live)

  -- The chunk is in the cache.
  hit-Round :
      (dso : Dso) (o n : ℕ) (e : DsoCache)
      → IsDso name file fd dso
      → 0 < n
      → o ≤ length file
      → descend (cache_turn o) dso.content.cache ≡ some e
      → Round dso o n
  hit-Round dso o n e d pos_n le h =
      let (chunk, lo, hi) = found-IsChunk f dso.content.cache o e d.cached h in
      let k = min (min cache_size (length file - e.offset) - (o - e.offset)) n in
      record {
        after = dso;
        k = k;
        returns =
            unfold dso_cache_read in
            rw (
              find-descend dso o e chunk h,
              memcpy-IsChunk file f.small e chunk o n k lo hi le refl,
            );
        le_size = omega arith;
        le_file = omega arith;
        progress = λ lt. omega arith;
        valid = d;
        next =
            next-IsReadable f dso.content.cache o (o + k) e d.cached h (omega arith) (omega arith)
              (omega arith);
      }

  pub find-none :
      (dso : Dso) (o : ℕ)
      → descend (cache_turn o) dso.content.cache ≡ none
      → Cache.find dso o ≡ ok none
  unfolding Cache.find
  find-none dso o h = rw h

  read_file_end :
      (dso : Dso) (o n : ℕ)
      → o ≡ length file
      → o % cache_size ≡ 0
      → read_file balance files dso (pos fd) o n ≡ ok (dso, pos 0, [])
  unfolding read_file
  read_file_end dso o n e m =
      rw (f.reads cache_size (align_down o), read_file)
        (rw (drop_all (align_down o) file (omega arith)))

  -- At the end of the last page pread returns 0.
  end-Round :
      (dso : Dso) (o n : ℕ)
      → IsDso name file fd dso
      → o ≡ length file
      → o % cache_size ≡ 0
      → descend (cache_turn o) dso.content.cache ≡ none
      → Round dso o n
  end-Round dso o n d e m h =
      let (dso', opens, isopen, same, d') = try_to_open-IsDso f dso d in
      record {
        after = dso';
        k = 0;
        returns =
            unfold dso_cache_read read in
            rw (find-none dso o h) (rw opens (rw isopen (read_file_end dso' o n e m)));
        le_size = omega arith;
        le_file = omega arith;
        progress = λ lt. absurd (omega arith);
        valid = d';
        next = page_end (omega arith) (omega arith);
      }

  -- The chunk that pread fills, for an offset inside the file.
  abbrev pub chunk_at : ℕ → DsoCache
  chunk_at o =
      let bytes = take cache_size (drop (align_down o) file) in
      record { offset = align_down o; size = length bytes; bytes = bytes; freed = false }

  pub chunk_at-IsChunk : (o : ℕ) → align_down o < length file → IsChunk file (chunk_at o)
  chunk_at-IsChunk o lt = record {
    live = refl;
    aligned = omega arith;
    within = omega arith;
    sized = refl;
    window = refl;
  }

  pub read_file_inside :
      (dso : Dso) (o n : ℕ)
      → align_down o < length file
      → read_file balance files dso (pos fd) o n ≡ read_chunk balance files dso (chunk_at o) o n
  unfolding read_file
  read_file_inside dso o n lt =
      let filled : (length (take cache_size (drop (align_down o) file)) == 0) ≡ false = ne→== _ 0 (
        omega (
          arith,
          length-take cache_size (drop (align_down o) file),
          length-drop (align_down o) file,
        )) in
      rw (f.reads cache_size (align_down o), read_file) (rw filled)

  -- The chunk has to be read: it joins the cache, and is not freed since a byte was copied.
  miss-Round :
      (dso : Dso) (o n : ℕ)
      → IsDso name file fd dso
      → 0 < n
      → o < length file
      → descend (cache_turn o) dso.content.cache ≡ none
      → Round dso o n
  miss-Round dso o n d pos_n lt h =
      let (opened, opens, isopen, same, d₁) = try_to_open-IsDso f dso d in
      let start : align_down o < length file = omega arith in
      let chunk = chunk_at-IsChunk o start in
      let miss : descend (cache_turn (align_down o)) opened.content.cache ≡ none =
        descend-page f opened.content.cache (align_down o) o d₁.cached (omega arith)
        ∙ ap (descend (cache_turn o)) same
        ∙ h in
      let (after, inserted, d₂, there) =
        insert-IsChunk balance f opened (chunk_at o) d₁ chunk miss in
      let there' : descend (cache_turn o) after.content.cache ≡ some (chunk_at o) =
        descend-page f after.content.cache o (align_down o) d₂.cached (omega arith) ∙ there in
      let k = min (min cache_size (length file - align_down o) - (o - align_down o)) n in
      let copied =
        memcpy-IsChunk file f.small (chunk_at o) chunk o n k (omega arith) (omega arith)
          (omega arith) refl in
      let some_bytes : (k == 0) ≡ false = ne→== k 0 (omega arith) in
      record {
        after = after;
        k = k;
        returns =
            unfold dso_cache_read read in
            rw (find-none dso o h) (
              rw opens (
                rw isopen (
                  rw (read_file_inside opened o n start)
                    (unfold read_chunk in rw inserted (rw copied (rw some_bytes))))));
        le_size = omega arith;
        le_file = omega arith;
        progress = λ p. omega arith;
        valid = d₂;
        next =
            next-IsReadable f after.content.cache o (o + k) (chunk_at o) d₂.cached there'
              (omega arith) (omega arith) (omega arith);
      }

  -- Every call where the read can go on.
  pub readable-Round :
      (dso : Dso) (o n : ℕ)
      → IsDso name file fd dso
      → 0 < n
      → IsReadable file dso.content.cache o
      → Round dso o n
  readable-Round dso o n d p (inside lt) =
      elim (Option-cases (descend (cache_turn o) dso.content.cache)) [
        | inl miss ↦ miss-Round dso o n d p lt miss
        | inr (e, hit) ↦ hit-Round dso o n e d p (omega arith) hit
      ]
  readable-Round dso o n d p (page_end q m) =
      elim (Option-cases (descend (cache_turn o) dso.content.cache)) [
        | inl miss ↦ end-Round dso o n d q m miss
        | inr (e, hit) ↦ hit-Round dso o n e d p (omega arith) hit
      ]
  readable-Round dso o n d p (cached_end q e hit) = hit-Round dso o n e d p (omega arith) hit
