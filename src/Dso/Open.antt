-- ===== src/Dso/Open.antt =====
-- Opening the data file, and its size.
use libdw_bcc.Prelude.{
  ℕ, ℤ, pos, negsuc, neg, is_neg, ◌==◌, Bool, true, false, none, some, List, [], if◌then◌else◌, not,
}
use libdw_bcc.Outcome.{Outcome, ok, abort, ◌>>=◌, ◌>>◌, assert}
use libdw_bcc.Utility.{Files, path_max, path_join, is_regular_file}
use libdw_bcc.Dso.{DataStatus, error, unknown, okay, Dso}

abbrev pub is_error : DataStatus → Bool
is_error error = true
is_error unknown = false
is_error okay = false

abbrev pub set_status : Dso → DataStatus → Dso
set_status dso s = record dso { content = record (dso.content) { status = s } }

-- dso__read_binary_type_filename
unfoldable pub binary_type_filename : Dso → ℕ → List ℕ
binary_type_filename dso size = (path_join size [] dso.long_name).0

module _ (files : Files) where
  -- A file that cannot be opened ends in `assert(0)`.
  unfoldable pub do_open : List ℕ → Outcome ℤ
  do_open name = elim (files.open_rdonly name) [ none ↦ abort | some fd ↦ ok (pos fd) ]

  unfoldable pub open_dso : Dso → Outcome ℤ
  unfolding binary_type_filename do_open
  open_dso dso =
      let name = binary_type_filename dso path_max in
      do assert (is_regular_file files name); do_open name

  unfoldable pub try_to_open_dso : Dso → Outcome Dso
  unfolding open_dso
  try_to_open_dso dso = if not (is_neg dso.content.fd) then ok dso else do
    fd ← open_dso dso
    let status = if is_neg fd then error else okay
    ok (record dso { content = record (dso.content) { fd = fd; status = status } })

  -- dso__data_get_fd
  unfoldable pub get_fd : Dso → Outcome (Dso × ℤ)
  unfolding try_to_open_dso
  get_fd dso =
      if is_error dso.content.status
      then ok (dso, negsuc 0)
      else do opened ← try_to_open_dso dso; ok (opened, opened.content.fd)

  -- data_file_size, once the file is open: fstat.
  unfoldable pub set_file_size : Dso → ℤ → Outcome (Dso × ℤ)
  set_file_size dso (negsuc n) = ok (set_status dso error, neg files.errno)
  set_file_size dso (pos fd) = elim (files.fstat fd) [
    | none ↦ ok (set_status dso error, neg files.errno)
    | some st_size ↦
        ok (record dso { content = record (dso.content) { file_size = st_size } }, pos 0)
  ]

  -- data_file_size: the size is read once, and 0 says that it was not read yet.
  unfoldable pub data_file_size : Dso → Outcome (Dso × ℤ)
  unfolding try_to_open_dso set_file_size
  data_file_size dso =
      if not (dso.content.file_size == 0)
      then ok (dso, pos 0)
      else if is_error dso.content.status
      then ok (dso, negsuc 0)
      else do opened ← try_to_open_dso dso; set_file_size opened opened.content.fd
