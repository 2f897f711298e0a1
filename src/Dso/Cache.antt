-- ===== src/Dso/Cache.antt =====
-- dso_cache_read and cached_read: the data file, read in chunks of 4096 bytes that are kept in a
-- search tree.
pub mod Valid
pub mod File
pub mod Grow
pub mod Round
pub mod Whole
pub mod Edge
mod Tests
use libdw_bcc.Prelude.{
  ℕ, zero, suc, ◌+◌, ◌-◌, ◌%◌, min, ℤ, pos, negsuc, neg, ◌==◌, ltb, leb, add64, sub64, true, false,
  not, Option, none, some, List, [], ◌++◌, if◌then◌else◌, length, take, drop,
}
use libdw_bcc.Outcome.{Outcome, ok, fault, ◌>>=◌, ◌>>◌, assert}
use libdw_bcc.Rbtree.{Tree, leaf, node, Balance, rb_link_node}
use libdw_bcc.Rbtree.Search.{Turn, go_left, go_right, stop, descend, slot}
use libdw_bcc.Utility.{Files}
use libdw_bcc.Dso.{error, DsoCache, Dso}
use libdw_bcc.Dso.Open.{try_to_open_dso, data_file_size, set_status, is_error}

-- DSO__DATA_CACHE_SIZE
abbrev pub cache_size : ℕ
cache_size = 4096

-- offset & DSO__DATA_CACHE_MASK
abbrev pub align_down : ℕ → ℕ
align_down offset = offset - offset % cache_size

-- The comparison of both loops. A freed block cannot be read: the loop faults there.
unfoldable pub cache_turn : ℕ → DsoCache → Turn
cache_turn offset cache =
    if cache.freed
    then stop
    else if ltb offset cache.offset
    then go_left
    else if leb (add64 cache.offset cache_size) offset
    then go_right
    else stop

-- What the loop reads at the node where it stops.
abbrev pub deref : Option DsoCache → Outcome (Option DsoCache)
deref none = ok none
deref (some cache) = if cache.freed then fault else ok (some cache)

unfoldable pub find : Dso → ℕ → Outcome (Option DsoCache)
unfolding cache_turn descend
find dso offset = deref (descend (cache_turn offset) dso.content.cache)

abbrev pub set_cache : Dso → Tree DsoCache → Dso
set_cache dso t = record dso { content = record (dso.content) { cache = t } }

-- dso_cache__memcpy: the bytes copied; their number is the result. It faults past the bytes that
-- pread wrote.
unfoldable pub memcpy : DsoCache → ℕ → ℕ → Outcome (List ℕ × ℕ)
memcpy cache offset size =
    let cache_offset = sub64 offset cache.offset in
    let copied = min (sub64 cache.size cache_offset) size in
    if ltb (length cache.bytes) (cache_offset + copied)
    then fault
    else ok (take copied (drop cache_offset cache.bytes), copied)

-- free(cache) on a block that the tree may hold: there it is the entry with this offset.
unfoldable pub free_in : ℕ → Tree DsoCache → Tree DsoCache
free_in offset leaf = leaf
free_in offset (node c l e r) =
    node c (free_in offset l) (if e.offset == offset then record e { freed = true } else e)
      (free_in offset r)

module _ (balance : Balance DsoCache) (files : Files) where
  -- dso_cache__insert: the entry that was there already, or none and the tree with the new one.
  unfoldable pub insert : Dso → DsoCache → Outcome (Dso × Option DsoCache)
  unfolding find slot rb_link_node
  insert dso new = do
    old ← find dso new.offset
    let t = dso.content.cache
    let p = slot (cache_turn new.offset) t
    elim old [
      | none ↦ ok (set_cache dso (balance.rb_insert_color p (rb_link_node new p t)), none)
      | some cache ↦ ok (dso, some cache)
    ]

  -- The end of dso_cache__read, with a chunk that pread filled: it goes into the tree, the asked
  -- bytes are copied, and the chunk is freed if there were none.
  unfoldable pub read_chunk : Dso → DsoCache → ℕ → ℕ → Outcome (Dso × ℤ × List ℕ)
  unfolding insert memcpy free_in
  read_chunk dso new offset size = do
    (dso', old) ← insert dso new
    let cache : DsoCache = elim old [ none ↦ new | some o ↦ o ]
    (copy, ret) ← memcpy cache offset size
    let freed = set_cache dso' (free_in cache.offset dso'.content.cache)
    ok (if ret == 0 then freed else dso', pos ret, copy)

  -- dso_cache__read after the file is open: pread of the chunk that holds `offset`.
  unfoldable pub read_file : Dso → ℤ → ℕ → ℕ → Outcome (Dso × ℤ × List ℕ)
  unfolding read_chunk
  read_file dso (negsuc n) offset size = ok (set_status dso error, neg files.errno, [])
  read_file dso (pos fd) offset size = elim (files.pread fd cache_size (align_down offset)) [
    | none ↦ ok (dso, negsuc 0, [])
    | some bytes ↦
        if length bytes == 0
        then ok (dso, pos 0, [])
        else read_chunk dso
            (record {
              offset = align_down offset;
              size = length bytes;
              bytes = bytes;
              freed = false;
            })
            offset size
  ]

  -- dso_cache__read
  unfoldable pub read : Dso → ℕ → ℕ → Outcome (Dso × ℤ × List ℕ)
  unfolding read_file try_to_open_dso
  read dso offset size = do
    opened ← try_to_open_dso files dso
    read_file opened opened.content.fd offset size

  -- dso_cache_read
  unfoldable pub dso_cache_read : Dso → ℕ → ℕ → Outcome (Dso × ℤ × List ℕ)
  unfolding read find memcpy
  dso_cache_read dso offset size = do
    found ← find dso offset
    elim found [
      | none ↦ read dso offset size
      | some cache ↦ do (copy, ret) ← memcpy cache offset size; ok (dso, pos ret, copy)
    ]

  -- The loop of cached_read. A round reads one byte at least, so `size` rounds suffice; `out` is
  -- what is in the buffer, and `r` its length. The size is a ssize_t that is not negative: the
  -- model is the code's for sizes below 2^63, where a comparison with it is one of numbers.
  unfoldable pub cached_read_loop : ℕ → Dso → ℕ → ℕ → ℕ → List ℕ → Outcome (Dso × ℤ × List ℕ)
  cached_read_loop zero dso offset size r out = fault
  cached_read_loop (suc fuel) dso offset size r out =
      dso_cache_read dso offset size >>= λ (dso', ret, copy). elim ret [
        | negsuc n ↦ ok (dso', negsuc n, out)
        | pos k ↦ if k == 0 then ok (dso', pos r, out) else do
          assert (leb k size)
          let rest = cached_read_loop fuel dso' (add64 offset k) (size - k) (r + k) (out ++ copy)
          if size - k == 0 then ok (dso', pos (r + k), out ++ copy) else rest
      ]

  unfoldable pub cached_read : Dso → ℕ → ℕ → Outcome (Dso × ℤ × List ℕ)
  cached_read dso offset size = cached_read_loop (size + 1) dso offset size 0 []

  unfoldable pub data_read_offset : Dso → ℕ → ℕ → Outcome (Dso × ℤ × List ℕ)
  data_read_offset dso offset size = do
    (dso', err) ← data_file_size files dso
    elim err [
      | negsuc n ↦ ok (dso', negsuc 0, [])
      | pos n ↦
          if not (n == 0)
          then ok (dso', negsuc 0, [])
          else if ltb dso'.content.file_size offset
          then ok (dso', negsuc 0, [])
          else if ltb (add64 offset size) offset
          then ok (dso', negsuc 0, [])
          else cached_read dso' offset size
    ]

  -- dso__data_read_offset
  unfoldable pub read_offset : Dso → ℕ → ℕ → Outcome (Dso × ℤ × List ℕ)
  read_offset dso offset size =
      if is_error dso.content.status
      then ok (dso, negsuc 0, [])
      else data_read_offset dso offset size

  -- dso__data_read_addr: map->map_ip is always map_ip, which is passed in.
  unfoldable pub read_addr : Dso → (ℕ → ℕ) → ℕ → ℕ → Outcome (Dso × ℤ × List ℕ)
  read_addr dso map_ip addr size = read_offset dso (map_ip addr) size
