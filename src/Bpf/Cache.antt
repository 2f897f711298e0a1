-- ===== src/Bpf/Cache.antt =====
-- The table `cache` of the BPF program: samples that are being taken, by time and thread.
use libdw_bcc.Prelude.{
  ℕ, ℤ, ◌==◌, ==_iff, ◌&&◌, Bool, true, Bool-cases, inl, inr, ◌≡◌, refl, ap, Option, none, some,
  List, [], ◌∷◌, if◌then◌else◌,
}
use libdw_bcc.Ptrace.{PtRegs}

-- struct key_
abbrev pub Key : Type 0
Key = ℕ × ℕ

-- struct unwind_ctx, as the program fills it.
pub record UnwindCtx : Type 0 where
  pub ts : ℕ
  pub tid : ℕ
  pub tgid : ℕ
  pub uregs : PtRegs
  pub name : List ℕ
  pub size : ℤ
  pub stack : List ℕ

abbrev pub Entries : Type 0
Entries = List (Key × UnwindCtx)

abbrev pub same_key : Key → Key → Bool
same_key (ts, id) (ts', id') = ts == ts' && id == id'

-- The element of a key.
unfoldable pub find : Key → Entries → Option UnwindCtx
find k [] = none
find k ((j, uc) ∷ es) = if same_key j k then some uc else find k es

-- What a program writes through the pointer to an element, which is made if there is none.
unfoldable pub put : Key → UnwindCtx → Entries → Entries
put k uc [] = (k, uc) ∷ []
put k uc ((j, old) ∷ es) =
    let rest = put k uc es in if same_key j k then (j, uc) ∷ es else (j, old) ∷ rest

-- cache.delete
unfoldable pub delete : Key → Entries → Entries
delete k [] = []
delete k ((j, uc) ∷ es) = let rest = delete k es in if same_key j k then es else (j, uc) ∷ rest

same_key_refl : (k : Key) → same_key k k ≡ true
same_key_refl (ts, id) = rw ((==_iff ts ts).1 refl, (==_iff id id).1 refl)

-- An element that was not there is gone after it is deleted.
pub delete-put :
    (k : Key) (uc : UnwindCtx) (es : Entries) → find k es ≡ none → delete k (put k uc es) ≡ es
unfolding find put delete
delete-put k uc [] h = rw (same_key_refl k)
delete-put k uc ((j, old) ∷ es) h = elim (Bool-cases (same_key j k)) [
  | inl e ↦ let there : some old ≡ none = rw e at h in absurd (cc)
  | inr e ↦ rw e (rw e (ap (λ r. (j, old) ∷ r) (delete-put k uc es (rw e at h))))
]

-- An element that is put is found.
pub find-put : (k : Key) (uc : UnwindCtx) (es : Entries) → find k (put k uc es) ≡ some uc
unfolding find put
find-put k uc [] = rw (same_key_refl k)
find-put k uc ((j, old) ∷ es) = elim (Bool-cases (same_key j k)) [
  | inl e ↦ rw e (rw e)
  | inr e ↦ rw e (rw e (find-put k uc es))
]
