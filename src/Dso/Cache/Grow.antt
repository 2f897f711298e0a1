-- ===== src/Dso/Cache/Grow.antt =====
-- What a search of the cache finds, and how the cache grows by a chunk.
use native.Mathlib.Decide.{dec_lt, ℕ_discrete}
use libdw_bcc.Prelude.{ℕ, ◌+◌, ◌%◌, ◌<◌, ◌≤◌, ◌≡◌, none, some, List, arith, length, ◌∙◌, ap, sym}
use libdw_bcc.Outcome.{ok}
use libdw_bcc.Rbtree.{Tree, Balance, to_list, rb_link_node}
use libdw_bcc.Rbtree.Search.{
  stop, find, place, descend, slot, IsCut, descend-eq-find, to_list-link, find-place, find-congr,
}
use libdw_bcc.Utility.{Files}
use libdw_bcc.Dso.{DsoCache, Dso}
use libdw_bcc.Dso.Open.{binary_type_filename}
use libdw_bcc.Dso.Cache.{
  set_cache, cache_turn, cache_size, align_down, memcpy, insert, read_chunk, read_file, read,
  dso_cache_read,
}
use libdw_bcc.Dso.Cache as Cache
use libdw_bcc.Dso.Cache.File.{IsFile, IsDso, IsReadable, inside, page_end, cached_end}
use libdw_bcc.Dso.Cache.Valid.{
  IsChunk, IsCache, IsCache-IsCut, find-IsCache, turn_page, place-IsCache,
}

module _ {files : Files} {name file : List ℕ} {fd : ℕ} (f : IsFile files name file fd) where
  pub descend-page :
      (t : Tree DsoCache) (o p : ℕ)
      → IsCache file (to_list t)
      → align_down o ≡ align_down p
      → descend (cache_turn o) t ≡ descend (cache_turn p) t
  descend-page t o p c h =
      descend-eq-find (cache_turn o) t (IsCache-IsCut file f.small o (to_list t) c)
      ∙ find-congr (cache_turn o) (cache_turn p) (to_list t)
          (turn_page file f.small o p (to_list t) h c)
      ∙ sym (descend-eq-find (cache_turn p) t (IsCache-IsCut file f.small p (to_list t) c))

  -- What a descent finds.
  pub found-IsChunk :
      (t : Tree DsoCache) (o : ℕ) (e : DsoCache)
      → IsCache file (to_list t)
      → descend (cache_turn o) t ≡ some e
      → IsChunk file e × (e.offset ≤ o) × (o < e.offset + cache_size)
  found-IsChunk t o e c h =
      find-IsCache file f.small o (to_list t) e c
        (sym (descend-eq-find (cache_turn o) t (IsCache-IsCut file f.small o (to_list t) c)) ∙ h)

  -- Up to the end of a cached chunk, and of the file, a read can go on.
  pub next-IsReadable :
      (t : Tree DsoCache) (o p : ℕ) (e : DsoCache)
      → IsCache file (to_list t)
      → descend (cache_turn o) t ≡ some e
      → o ≤ p
      → p ≤ e.offset + cache_size
      → p ≤ length file
      → IsReadable file t p
  next-IsReadable t o p e c h le hi len = elim (dec_lt p (length file)) [
    | yes lt ↦ inside lt
    | no ge ↦ elim (ℕ_discrete (p % cache_size) 0) [
      | yes m ↦ page_end (omega arith) m
      | no m ↦
          let (chunk, lo, up) = found-IsChunk t o e c h in
          cached_end (omega arith) e (descend-page t p o c (omega (arith, chunk.aligned)) ∙ h)
    ]
  ]

  turn_self : (e : DsoCache) → IsChunk file e → cache_turn e.offset e ≡ stop
  unfolding cache_turn
  turn_self e chunk = let small = f.small in ground (arith, chunk)

module _ (balance : Balance DsoCache) {files : Files} {name file : List ℕ} {fd : ℕ}
    (f : IsFile files name file fd) where
  -- A new chunk joins the cache, and the same search finds it.
  pub insert-IsChunk :
      (dso : Dso) (e : DsoCache)
      → IsDso name file fd dso
      → IsChunk file e
      → descend (cache_turn e.offset) dso.content.cache ≡ none
      → (dso' : Dso) × (insert balance files dso e ≡ ok (dso', none))
        × IsDso name file fd dso'
        × (descend (cache_turn e.offset) dso'.content.cache ≡ some e)
  unfolding insert Cache.find binary_type_filename
  insert-IsChunk dso e d chunk h =
      let turn = cache_turn e.offset in
      let t = dso.content.cache in
      let linked = rb_link_node e (slot turn t) t in
      let t' = balance.rb_insert_color (slot turn t) linked in
      let cut : IsCut turn (to_list t) = IsCache-IsCut file f.small e.offset (to_list t) d.cached in
      let fresh : find turn (to_list t) ≡ none = sym (descend-eq-find turn t cut) ∙ h in
      let order : to_list t' ≡ place turn e (to_list t) =
        balance.insert_keeps_order (slot turn t) linked ∙ to_list-link turn e t cut fresh in
      let valid : IsCache file (to_list t') =
        rw order (place-IsCache file f.small e (to_list t) chunk d.cached fresh) in
      let found : descend turn t' ≡ some e =
        descend-eq-find turn t' (IsCache-IsCut file f.small e.offset (to_list t') valid)
        ∙ ap (find turn) order
        ∙ find-place turn e (to_list t) (turn_self f e chunk) fresh in
      (
        set_cache dso t',
        rw h,
        record {
          cached = valid;
          named = d.named;
          closed_or_open = d.closed_or_open;
          no_error = d.no_error;
          size_known = d.size_known;
        },
        found,
      )
