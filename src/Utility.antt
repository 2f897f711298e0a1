-- ===== src/Utility.antt =====
-- src/utility.c: paths, and the calls of the operating system on a file. A C string is the list
-- of its bytes, without the final zero.
use libdw_bcc.Prelude.{
  ℕ, ◌-◌, Bool, false, Option, none, some, List, [], ◌∷◌, ◌++◌, ltb, ◌==◌, if◌then◌else◌, length,
  take,
}

-- What the code asks of the system: stat(2) with S_ISREG, open(2), fstat(2), pread(2). `none` is
-- the error return, after which `errno` holds the reason.
pub record Files : Type 0 where
  pub stat : List ℕ → Option Bool
  pub open_rdonly : List ℕ → Option ℕ
  pub fstat : ℕ → Option ℕ
  pub pread : ℕ → ℕ → ℕ → Option (List ℕ)
  pub errno : ℕ

-- PATH_MAX
abbrev pub path_max : ℕ
path_max = 4096

-- The formatted text as vsnprintf stores it in a buffer of `size` bytes.
abbrev pub stored : ℕ → List ℕ → List ℕ
stored size text = take (size - 1) text

-- The number of bytes stored, for a text of `i` bytes.
unfoldable pub vscnprintf : ℕ → ℕ → ℕ
vscnprintf size i = if ltb i size then i else if size == 0 then 0 else size - 1

-- The separator: path1[0] ? "/" : "".
abbrev pub separator : List ℕ → List ℕ
separator [] = []
separator (c ∷ path) = 0x2f ∷ []

-- path__join: the bytes in `bf`, and the result.
unfoldable pub path_join : ℕ → List ℕ → List ℕ → List ℕ × ℕ
unfolding vscnprintf
path_join size path1 path2 =
    let text = path1 ++ separator path1 ++ path2 in
    (stored size text, vscnprintf size (length text))

unfoldable pub is_regular_file : Files → List ℕ → Bool
is_regular_file files file = elim (files.stat file) [ none ↦ false | some regular ↦ regular ]
