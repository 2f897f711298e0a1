-- ===== src/Dso/Cache/Whole.antt =====
-- A whole read: cached_read, and dso__data_read_offset around it.
use libdw_bcc.Prelude.{
  ℕ, zero, suc, ◌+◌, ◌-◌, ◌^◌, ◌<◌, min, pos, ◌≡◌, refl, inl, inr, ◌==◌, false, true, Bool-cases,
  ==_iff, ge→ltb, pos_of_ne, le→leb, List, [], ◌++◌, arith, length, take, drop, ◌∙◌, ap, sym, add64,
  take-append-take, drop-drop, drop_all, take-nil,
}
use mathlib.Core.List.{append_assoc, append-nil}
use libdw_bcc.Outcome.{ok}
use libdw_bcc.Rbtree.{Balance}
use libdw_bcc.Utility.{Files}
use libdw_bcc.Dso.{DsoCache, Dso}
use libdw_bcc.Dso.Cache.{cached_read_loop, cached_read, data_read_offset, read_offset}
use libdw_bcc.Dso.Open.{data_file_size, set_file_size, binary_type_filename}
use native.Mathlib.Nat.{zero-add}
use libdw_bcc.Dso.Cache.File.{try_to_open-IsDso, IsFile, IsDso, IsReadable, inside, window}
use libdw_bcc.Dso.Cache.Round.{Round, readable-Round}

-- Two neighbouring windows make one.
window-append :
    (file : List ℕ) (o k m : ℕ) → window file o k ++ window file (o + k) m ≡ window file o (k + m)
window-append file o k m =
    ap (λ w. window file o k ++ take m w) (sym (drop-drop k o file))
    ∙ take-append-take k m (drop o file)

module _ (balance : Balance DsoCache) {files : Files} {name file : List ℕ} {fd : ℕ}
    (f : IsFile files name file fd) where
  -- What the loop delivers: all bytes up to the size asked for, or to the end of the file.
  pub record Delivers (fuel : ℕ) (dso : Dso) (o n r : ℕ) (out : List ℕ) : Type 0 where
    pub after : Dso
    pub returns :
        cached_read_loop balance files fuel dso o n r out
        ≡ ok (after, pos (r + min n (length file - o)), out ++ window file o n)
    pub valid : IsDso name file fd after

  -- A round that reads nothing stands at the end of the file.
  at_end : (dso : Dso) (o n : ℕ) (q : Round balance f dso o n) → q.k ≡ 0 → o ≡ length file
  at_end dso o n q e = ground (arith, q.le_file, q.progress)

  step_end :
      (fuel : ℕ) (dso : Dso) (o n r : ℕ) (out : List ℕ) (q : Round balance f dso o n)
      → (q.k == 0) ≡ true
      → Delivers (suc fuel) dso o n r out
  step_end fuel dso o n r out q z =
      let e = at_end dso o n q ((==_iff q.k 0).0 z) in
      let none_left : r + min n (length file - o) ≡ r = omega arith in
      let nothing : window file o n ≡ [] = rw (drop_all o file (omega arith)) (take-nil n) in
      record {
        after = q.after;
        returns =
            unfold cached_read_loop in rw q.returns (rw z (rw (none_left, nothing, append-nil)));
        valid = q.valid;
      }

  step_full :
      (fuel : ℕ) (dso : Dso) (o n r : ℕ) (out : List ℕ) (q : Round balance f dso o n)
      → (q.k == 0) ≡ false
      → (n - q.k == 0) ≡ true
      → Delivers (suc fuel) dso o n r out
  step_full fuel dso o n r out q z full =
      let k_n : q.k ≡ n = omega (arith, (==_iff (n - q.k) 0).0 full, q.le_size) in
      let all : r + min n (length file - o) ≡ r + q.k = omega (arith, q.le_file) in
      record {
        after = q.after;
        returns =
            unfold cached_read_loop in
            rw q.returns (rw (z, le→leb q.k n q.le_size, full, all) (rw k_n));
        valid = q.valid;
      }

  step_more :
      (fuel : ℕ) (dso : Dso) (o n r : ℕ) (out : List ℕ) (q : Round balance f dso o n)
      → (q.k == 0) ≡ false
      → (n - q.k == 0) ≡ false
      → Delivers fuel q.after (o + q.k) (n - q.k) (r + q.k) (out ++ window file o q.k)
      → Delivers (suc fuel) dso o n r out
  step_more fuel dso o n r out q z more rest =
      let no_wrap : add64 o q.k ≡ o + q.k = omega (arith, f.small, q.le_file) in
      let total : r + q.k + min (n - q.k) (length file - (o + q.k)) ≡ r + min n (length file - o) =
        omega (arith, q.le_file, q.le_size) in
      let k_n : q.k + (n - q.k) ≡ n = omega (arith, q.le_size) in
      let joined : (out ++ window file o q.k) ++ window file (o + q.k) (n - q.k)
          ≡ out ++ window file o n =
        append_assoc out (window file o q.k) (window file (o + q.k) (n - q.k))
        ∙ ap (λ w. out ++ w) (window-append file o q.k (n - q.k) ∙ ap (window file o) k_n) in
      record {
        after = rest.after;
        returns =
            unfold cached_read_loop in
            rw q.returns
              (rw (z, le→leb q.k n q.le_size, more, no_wrap) (rest.returns ∙ rw (total, joined)));
        valid = rest.valid;
      }

  loop-Delivers :
      (fuel : ℕ) (dso : Dso) (o n r : ℕ) (out : List ℕ)
      → n < fuel
      → 0 < n
      → IsDso name file fd dso
      → IsReadable file dso.content.cache o
      → Delivers fuel dso o n r out
  loop-Delivers zero dso o n r out lt p d readable = absurd (omega arith)
  loop-Delivers (suc fuel) dso o n r out lt p d readable =
      let q = readable-Round balance f dso o n d p readable in
      let rest = λ (z : (q.k == 0) ≡ false) (more : (n - q.k == 0) ≡ false).
        loop-Delivers fuel q.after (o + q.k) (n - q.k) (r + q.k) (out ++ window file o q.k)
          (omega (arith, pos_of_ne q.k z)) (pos_of_ne (n - q.k) more) q.valid q.next in
      elim (Bool-cases (q.k == 0)) [
        | inl z ↦ step_end fuel dso o n r out q z
        | inr z ↦ elim (Bool-cases (n - q.k == 0)) [
          | inl full ↦ step_full fuel dso o n r out q z full
          | inr more ↦ step_more fuel dso o n r out q z more (rest z more)
        ]
      ]

  cached_read_delivers :
      (dso : Dso) (o n : ℕ)
      → IsDso name file fd dso
      → 0 < n
      → o < length file
      → (dso' : Dso) × (cached_read balance files dso o n
          ≡ ok (dso', pos (min n (length file - o)), window file o n))
        × IsDso name file fd dso'
  unfolding cached_read
  cached_read_delivers dso o n d p lt =
      let all = loop-Delivers (n + 1) dso o n 0 [] (omega arith) p d (inside lt) in
      (all.after, all.returns ∙ rw zero-add, all.valid)

  fstat-ok :
      (dso : Dso)
      → set_file_size files dso (pos fd)
        ≡ ok (record dso { content = record (dso.content) { file_size = length file } }, pos 0)
  unfolding set_file_size
  fstat-ok dso = rw (f.stats, set_file_size)

  -- The file's size is known afterwards.
  pub data_file_size-IsDso :
      (dso : Dso)
      → IsDso name file fd dso
      → (dso' : Dso) × (data_file_size files dso ≡ ok (dso', pos 0))
        × (dso'.content.file_size ≡ length file)
        × IsDso name file fd dso'
  data_file_size-IsDso dso d = elim (Bool-cases (dso.content.file_size == 0)) [
    | inr known ↦ (
      dso,
      unfold data_file_size in rw known,
      elim d.size_known [
        | inl z ↦ absurd (omega (arith, pos_of_ne dso.content.file_size known))
        | inr e ↦ e
      ],
      d,
    )
    | inl unread ↦
        let (opened, opens, isopen, same, d') = try_to_open-IsDso f dso d in
        (
          record opened { content = record (opened.content) { file_size = length file } },
          unfold data_file_size in
              rw (unread, d.no_error)
                (rw opens (ap (set_file_size files opened) isopen ∙ fstat-ok opened)),
          refl,
          record {
            cached = d'.cached;
            named = unfold binary_type_filename in d'.named;
            closed_or_open = d'.closed_or_open;
            no_error = d'.no_error;
            size_known = inr refl;
          },
        )
  ]

  -- Inside the file dso__data_read_offset returns the file's bytes from the offset on, as many as
  -- were asked for or as there are to the end of the file, whatever is cached and whether or not
  -- the file was open; and the dso stays valid.
  pub read_offset-window :
      (dso : Dso) (o n : ℕ)
      → IsDso name file fd dso
      → 0 < n
      → o < length file
      → o + n < 2 ^ 64
      → (dso' : Dso) × (read_offset balance files dso o n
          ≡ ok (dso', pos (min n (length file - o)), window file o n))
        × IsDso name file fd dso'
  read_offset-window dso o n d p lt fits =
      let (sized, sizes, size, d₁) = data_file_size-IsDso dso d in
      let (after, reads, d₂) = cached_read_delivers sized o n d₁ p lt in
      let no_wrap : add64 o n ≡ o + n = omega arith in
      (
        after,
        unfold read_offset data_read_offset in
            rw (d.no_error) (
              rw sizes (
                rw
                  (
                    size,
                    ge→ltb (length file) o (omega arith),
                    no_wrap,
                    ge→ltb (o + n) o (omega arith),
                  )
                  reads)),
        d₂,
      )
