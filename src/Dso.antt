-- ===== src/Dso.antt =====
-- src/dso.h and src/dso.c: a shared object file, its data file and the cache of its pages.
pub mod Open
pub mod Cache
use libdw_bcc.Prelude.{ℕ, ℤ, Bool, List}
use libdw_bcc.Rbtree.{Tree}

-- enum dso_data_status
pub data DataStatus : Type 0 where
  error unknown okay : DataStatus

-- struct dso_cache. `data` holds the bytes that pread wrote; `freed` says that the block was given
-- back to the allocator (while a tree may still hold it).
pub record DsoCache : Type 0 where
  pub offset : ℕ
  pub size : ℕ
  pub bytes : List ℕ
  pub freed : Bool

-- The struct `data` in struct dso.
pub record DsoData : Type 0 where
  pub cache : Tree DsoCache
  pub fd : ℤ
  pub status : DataStatus
  pub file_size : ℕ
  pub eh_frame_hdr_offset : ℕ

-- struct dso, without the links, the mutex, the names' lengths, the flags that say which names were
-- allocated, the root and `name`. Only dso__new sets the long name, from the argument that it also
-- copies to `name`: the two are equal, and the code that reads `name` reads `long_name` here.
pub record Dso : Type 0 where
  pub content : DsoData
  pub short_name : List ℕ
  pub long_name : List ℕ
  pub refcnt : ℕ
