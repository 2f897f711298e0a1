-- ===== src/Dso/Cache/Tests.antt =====
-- The cache on a small file, and the theorems at that file.
use libdw_bcc.Prelude.{
  ℕ, ◌-◌, ◌^◌, ◌<◌, min, pos, negsuc, ◌≡◌, refl, inl, some, List, [], ◌∷◌, true, arith, length,
  take, drop,
}
use libdw_bcc.Outcome.{ok, fault}
use libdw_bcc.Rbtree.Concrete.{root_black}
use libdw_bcc.Rbtree.{leaf}
use libdw_bcc.Rbtree.Search.{descend}
use libdw_bcc.Utility.{Files, path_join}
use libdw_bcc.Dso.{unknown, Dso}
use libdw_bcc.Dso.Open.{binary_type_filename}
use libdw_bcc.Dso.Cache.{cache_turn, dso_cache_read, read_offset, align_down}
use libdw_bcc.Dso.Cache as Cache
use libdw_bcc.Dso.Cache.File.{IsFile, IsDso, window}
use libdw_bcc.Dso.Cache.Whole.{read_offset-window}
use libdw_bcc.Dso.Cache.Edge.{read_offset-past_end, read_at_end-frees}

abbrev elf_bytes : List ℕ
elf_bytes = 0x7f ∷ 0x45 ∷ 0x4c ∷ 0x46 ∷ 2 ∷ []

abbrev lib_name : List ℕ
lib_name = 0x2f ∷ 0x61 ∷ []

-- A system with one file, of any content.
abbrev one_file : List ℕ → Files
one_file bytes = record {
  stat = λ name. some true;
  open_rdonly = λ name. some 3;
  fstat = λ fd. some (length bytes);
  pread = λ fd count offset. some (take count (drop offset bytes));
  errno = 2;
}

one_file-IsFile :
    (bytes : List ℕ) → length bytes < 2 ^ 63 → IsFile (one_file bytes) lib_name bytes 3
one_file-IsFile bytes small = record {
  regular = refl;
  opens = refl;
  stats = refl;
  reads = λ count offset. refl;
  small = small;
}

abbrev fresh_dso : Dso
fresh_dso = record {
  content = record {
    cache = leaf;
    fd = negsuc 0;
    status = unknown;
    file_size = 0;
    eh_frame_hdr_offset = 0;
  };
  short_name = lib_name;
  long_name = lib_name;
  refcnt = 1;
}

fresh_dso-IsDso : (bytes : List ℕ) → IsDso lib_name bytes 3 fresh_dso
unfolding binary_type_filename path_join
fresh_dso-IsDso bytes = record {
  cached = tt;
  named = refl;
  closed_or_open = inl refl;
  no_error = refl;
  size_known = inl refl;
}

read_offset-window_example :
    (dso' : Dso) × (read_offset root_black (one_file elf_bytes) fresh_dso 1 8
      ≡ ok (dso', pos (min 8 (5 - 1)), window elf_bytes 1 8))
    × IsDso lib_name elf_bytes 3 dso'
read_offset-window_example =
    read_offset-window root_black (one_file-IsFile elf_bytes (omega arith)) fresh_dso 1 8
      (fresh_dso-IsDso elf_bytes) (omega arith) (omega arith) (omega arith)

read_offset-past_end_example :
    (dso' : Dso) × (read_offset root_black (one_file elf_bytes) fresh_dso 6 8
      ≡ ok (dso', negsuc 0, []))
    × IsDso lib_name elf_bytes 3 dso'
read_offset-past_end_example =
    read_offset-past_end root_black (one_file-IsFile elf_bytes (omega arith)) fresh_dso 6 8
      (fresh_dso-IsDso elf_bytes) (inl (omega arith))

read_at_end-frees_example :
    (dso' : Dso) × (dso_cache_read root_black (one_file elf_bytes) fresh_dso 5 8
      ≡ ok (dso', pos 0, []))
    × (Cache.find dso' 5 ≡ fault)
read_at_end-frees_example =
    read_at_end-frees root_black (one_file-IsFile elf_bytes (omega arith)) fresh_dso 5 8
      (fresh_dso-IsDso elf_bytes) refl (omega arith) (unfold descend in refl)
