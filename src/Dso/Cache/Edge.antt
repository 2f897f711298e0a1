-- ===== src/Dso/Cache/Edge.antt =====
-- Reads at and past the end of the file.
use libdw_bcc.Prelude.{
  ℕ, ◌%◌, ◌<◌, pos, negsuc, ◌≡◌, ◌≢◌, refl, ◌⊎◌, inl, inr, ◌==◌, ltb, lt→ltb, true, Bool-cases,
  ==_iff, none, some, List, [], arith, length, ◌∙◌, ap, sym, add64,
}
use mathlib.Core.Option.{some-injective}
use libdw_bcc.Outcome.{ok, fault}
use libdw_bcc.Rbtree.{Color, Tree, leaf, node, Balance}
use libdw_bcc.Rbtree.Search.{
  Turn, descend-left, descend-right, descend-stop, descend, stop, go_left, go_right,
}
use libdw_bcc.Utility.{Files}
use libdw_bcc.Dso.{DsoCache, Dso}
use libdw_bcc.Dso.Cache.{
  cache_turn, cache_size, align_down, free_in, set_cache, memcpy, insert, read_chunk, read,
  dso_cache_read, data_read_offset, read_offset,
}
use libdw_bcc.Dso.Cache as Cache
use libdw_bcc.Dso.Cache.File.{IsFile, IsDso, memcpy-IsChunk, try_to_open-IsDso}
use libdw_bcc.Dso.Cache.Grow.{descend-page, insert-IsChunk}
use libdw_bcc.Dso.Cache.Round.{chunk_at, chunk_at-IsChunk, read_file_inside, find-none}
use libdw_bcc.Dso.Cache.Whole.{data_file_size-IsDso}

-- After the block found at an offset is freed, the same search runs into a freed block.
abbrev FindsFreed : ℕ → Tree DsoCache → Type 0
FindsFreed o t = (d : DsoCache) × (descend (cache_turn o) t ≡ some d) × (d.freed ≡ true)

freed_turn : (o : ℕ) (a : DsoCache) → cache_turn o (record a { freed = true }) ≡ stop
unfolding cache_turn
freed_turn o a = refl

FindsFreed-node :
    (o : ℕ) (c : Color) (l : Tree DsoCache) (a : DsoCache) (r l' r' : Tree DsoCache) (e : DsoCache)
    (t : Turn)
    → cache_turn o a ≡ t
    → descend (cache_turn o) (node c l a r) ≡ some e
    → (a.offset ≢ e.offset)
    → (descend (cache_turn o) l ≡ some e → FindsFreed o l')
    → (descend (cache_turn o) r ≡ some e → FindsFreed o r')
    → FindsFreed o (node c l' a r')
FindsFreed-node o c l a r l' r' e go_left g h other il ir =
    let (d, p, q) = il (sym (descend-left (cache_turn o) c l a r g) ∙ h) in
    (d, descend-left (cache_turn o) c l' a r' g ∙ p, q)
FindsFreed-node o c l a r l' r' e go_right g h other il ir =
    let (d, p, q) = ir (sym (descend-right (cache_turn o) c l a r g) ∙ h) in
    (d, descend-right (cache_turn o) c l' a r' g ∙ p, q)
FindsFreed-node o c l a r l' r' e stop g h other il ir =
    let same : some a ≡ some e = sym (descend-stop (cache_turn o) c l a r g) ∙ h in
    absurd (other (ap DsoCache.offset (some-injective a e same)))

descend-free_in :
    (o b : ℕ) (t : Tree DsoCache) (e : DsoCache)
    → descend (cache_turn o) t ≡ some e
    → e.offset ≡ b
    → FindsFreed o (free_in b t)
unfolding free_in
descend-free_in o b leaf e h q = absurd (unfold descend in cc)
descend-free_in o b (node c l a r) e h q =
    let il = λ (g : descend (cache_turn o) l ≡ some e). descend-free_in o b l e g q in
    let ir = λ (g : descend (cache_turn o) r ≡ some e). descend-free_in o b r e g q in
    elim (Bool-cases (a.offset == b)) [
      | inl same ↦ (
        record a { freed = true },
        rw same (
            descend-stop (cache_turn o) c (free_in b l) (record a { freed = true }) (free_in b r)
              (freed_turn o a)),
        refl,
      )
      | inr other ↦ rw other (
          FindsFreed-node o c l a r (free_in b l) (free_in b r) e (cache_turn o a) refl h
            (λ p. cc ((==_iff a.offset b).1 (p ∙ q))) il ir)
    ]

module _ (balance : Balance DsoCache) {files : Files} {name file : List ℕ} {fd : ℕ}
    (f : IsFile files name file fd) where
  -- Past the end of the file dso__data_read_offset returns -1 and no bytes, as it does where offset
  -- + size wraps around, and the dso stays valid.
  pub read_offset-past_end :
      (dso : Dso) (o n : ℕ)
      → IsDso name file fd dso
      → (length file < o) ⊎ (add64 o n < o)
      → (dso' : Dso) × (read_offset balance files dso o n ≡ ok (dso', negsuc 0, []))
        × IsDso name file fd dso'
  read_offset-past_end dso o n d h =
      let (sized, sizes, size, d₁) = data_file_size-IsDso balance f dso d in
      (
        sized,
        unfold read_offset data_read_offset in
            rw (d.no_error) (
              rw sizes (elim h [
                | inl past ↦ rw (size, lt→ltb (length file) o past)
                | inr wraps ↦ elim (Bool-cases (ltb (length file) o)) [
                  | inl past ↦ rw (size, past)
                  | inr before ↦ rw (size, before, lt→ltb (add64 o n) o wraps)
                ]
              ])),
        d₁,
      )

  -- A read at the very end of a file that ends inside a page, where that page is not cached,
  -- copies nothing, but links the page into the tree and frees it: the next search for that offset
  -- faults.
  pub read_at_end-frees :
      (dso : Dso) (o n : ℕ)
      → IsDso name file fd dso
      → o ≡ length file
      → 0 < o % cache_size
      → descend (cache_turn o) dso.content.cache ≡ none
      → (dso' : Dso) × (dso_cache_read balance files dso o n ≡ ok (dso', pos 0, []))
        × (Cache.find dso' o ≡ fault)
  read_at_end-frees dso o n d e m h =
      let (opened, opens, isopen, same, d₁) = try_to_open-IsDso f dso d in
      let start : align_down o < length file = omega arith in
      let chunk = chunk_at-IsChunk balance f o start in
      let miss : descend (cache_turn (align_down o)) opened.content.cache ≡ none =
        descend-page f opened.content.cache (align_down o) o d₁.cached (omega arith)
        ∙ ap (descend (cache_turn o)) same
        ∙ h in
      let (grown, inserted, d₂, there) =
        insert-IsChunk balance f opened (chunk_at balance f o) d₁ chunk miss in
      let there' : descend (cache_turn o) grown.content.cache ≡ some (chunk_at balance f o) =
        descend-page f grown.content.cache o (align_down o) d₂.cached (omega arith) ∙ there in
      let copied : memcpy (chunk_at balance f o) o n ≡ ok ([], 0) =
        memcpy-IsChunk file f.small (chunk_at balance f o) chunk o n 0 (omega arith) (omega arith)
          (omega arith) (omega arith) in
      let (hit, found, freed) =
        descend-free_in o (align_down o) grown.content.cache (chunk_at balance f o) there' refl in
      (
        set_cache grown (free_in (align_down o) grown.content.cache),
        unfold dso_cache_read read in
            rw (find-none balance f dso o h) (
              rw opens (
                rw isopen (
                  rw (read_file_inside balance f opened o n start)
                    (unfold read_chunk in rw inserted (rw copied))))),
        unfold Cache.find in rw (found) (rw freed),
      )
