-- ===== src/Refcount/Threads.antt =====
-- Any number of threads that each drop one reference, in any interleaving of the two accesses of
-- refcount_dec_and_test.
use libdw_bcc.Prelude.{
  ℕ, zero, suc, ◌+◌, ◌<◌, ◌^◌, ◌≡◌, refl, Bool, true, false, ◌==◌, List, [], ◌∷◌, ◌++◌, arith,
  sub32, ◌∙◌, ap, sym,
}
use mathlib.Core.Path.{subst}
use mathlib.Core.List.{append-nil}

-- Where a thread is in refcount_dec_and_test; `done b` has returned b.
pub data Phase : Type 0 where
  before between : Phase
  done : Bool → Phase

pub record Shared : Type 0 where
  pub refs : ℕ
  pub threads : List Phase

-- One atomic access by one of the threads.
pub data Step : Shared → Shared → Type 0 where
  fetch_sub :
      (refs : ℕ) (xs ys : List Phase)
      → Step
          (record { refs = refs; threads = xs ++ before ∷ ys })
          (record { refs = sub32 refs 1; threads = xs ++ between ∷ ys })
  load :
      (refs : ℕ) (xs ys : List Phase)
      → Step
          (record { refs = refs; threads = xs ++ between ∷ ys })
          (record { refs = refs; threads = xs ++ done (refs == 0) ∷ ys })

pub data Reach (s : Shared) : Shared → Type 0 where
  here : Reach s s
  next : {t u : Shared} → Reach s t → Step t u → Reach s u

abbrev pub copies : ℕ → Phase → List Phase
copies zero p = []
copies (suc n) p = p ∷ copies n p

-- `n` threads hold the only `n` references, and each is about to drop its own.
abbrev pub start : ℕ → Shared
start n = record { refs = n; threads = copies n before }

-- Some thread has returned true, or will read the count after its subtraction.
abbrev pub released : List Phase → ℕ
released [] = 0
released (before ∷ ps) = released ps
released (between ∷ ps) = suc (released ps)
released (done true ∷ ps) = suc (released ps)
released (done false ∷ ps) = released ps

abbrev pub waiting : List Phase → ℕ
waiting [] = 0
waiting (before ∷ ps) = suc (waiting ps)
waiting (between ∷ ps) = waiting ps
waiting (done b ∷ ps) = waiting ps

abbrev pub IsDone : List Phase → Type 0
IsDone [] = Unit
IsDone (before ∷ ps) = ⊥
IsDone (between ∷ ps) = ⊥
IsDone (done b ∷ ps) = IsDone ps

abbrev pub trues : List Phase → ℕ
trues [] = 0
trues (before ∷ ps) = trues ps
trues (between ∷ ps) = trues ps
trues (done true ∷ ps) = suc (trues ps)
trues (done false ∷ ps) = trues ps

released-append : (xs ys : List Phase) → released (xs ++ ys) ≡ released xs + released ys
released-append [] ys = omega arith
released-append (before ∷ xs) ys = released-append xs ys
released-append (between ∷ xs) ys = omega (arith, released-append xs ys)
released-append (done true ∷ xs) ys = omega (arith, released-append xs ys)
released-append (done false ∷ xs) ys = released-append xs ys

waiting-append : (xs ys : List Phase) → waiting (xs ++ ys) ≡ waiting xs + waiting ys
waiting-append [] ys = omega arith
waiting-append (before ∷ xs) ys = omega (arith, waiting-append xs ys)
waiting-append (between ∷ xs) ys = waiting-append xs ys
waiting-append (done b ∷ xs) ys = waiting-append xs ys

-- The count is the number of threads that have not dropped theirs, and at 0 somebody will see it.
pub record IsCounted (s : Shared) : Type 0 where
  pub counted : s.refs ≡ waiting s.threads
  pub bounded : s.refs < 2 ^ 32
  pub seen : s.refs ≡ 0 → 0 < released s.threads

Step-IsCounted : {s t : Shared} → Step s t → IsCounted s → IsCounted t
Step-IsCounted (fetch_sub refs xs ys) c = record {
  counted = omega (
    arith,
    c.counted,
    c.bounded,
    waiting-append xs (before ∷ ys),
    waiting-append xs (between ∷ ys),
  );
  bounded = omega arith;
  seen = λ z. omega (arith, released-append xs (between ∷ ys));
}
Step-IsCounted (load refs xs ys) c = record {
  counted = omega (
    arith,
    c.counted,
    waiting-append xs (between ∷ ys),
    waiting-append xs (done (refs == 0) ∷ ys),
  );
  bounded = c.bounded;
  seen = λ z. rw z (omega (arith, released-append xs (done true ∷ ys)));
}

waiting-copies : (n : ℕ) → waiting (copies n before) ≡ n
waiting-copies zero = refl
waiting-copies (suc n) = ap suc (waiting-copies n)

start-IsCounted : (n : ℕ) → 0 < n → n < 2 ^ 32 → IsCounted (start n)
start-IsCounted n p h = record {
  counted = sym (waiting-copies n);
  bounded = h;
  seen = λ z. absurd (omega arith);
}

Reach-IsCounted : {s t : Shared} → Reach s t → IsCounted s → IsCounted t
Reach-IsCounted here c = c
Reach-IsCounted (next r st) c = Step-IsCounted st (Reach-IsCounted r c)

done_counts : (ps : List Phase) → IsDone ps → (waiting ps ≡ 0) × (released ps ≡ trues ps)
done_counts [] d = (refl, refl)
done_counts (before ∷ ps) d = absurd d
done_counts (between ∷ ps) d = absurd d
done_counts (done true ∷ ps) d = omega (arith, done_counts ps d)
done_counts (done false ∷ ps) d = done_counts ps d

-- However the accesses interleave, when all the threads have returned some thread has returned
-- true: the object is not leaked.
pub some_thread_releases :
    (n : ℕ) {s : Shared}
    → 0 < n
    → n < 2 ^ 32
    → Reach (start n) s
    → IsDone s.threads
    → 0 < trues s.threads
some_thread_releases n {s} p h r d =
    let c = Reach-IsCounted r (start-IsCounted n p h) in
    let counts = done_counts s.threads d in
    omega (arith, c.seen (omega (arith, c.counted, counts)), counts)

along : {s t u : Shared} → t ≡ u → Reach s t → Reach s u
along {s} e r = subst (λ x. Reach s x) e r

copies-snoc : (n : ℕ) (p : Phase) (ps : List Phase) → copies n p ++ p ∷ ps ≡ p ∷ (copies n p ++ ps)
copies-snoc zero p ps = refl
copies-snoc (suc n) p ps = ap (λ qs. p ∷ qs) (copies-snoc n p ps)

abbrev at : ℕ → List Phase → Shared
at r ps = record { refs = r; threads = ps }

-- All the subtractions, one thread after the other.
all_subtract :
    {s : Shared} (m n : ℕ)
    → n < 2 ^ 32
    → Reach s (at n (copies m between ++ copies n before))
    → Reach s (at 0 (copies (m + n) between))
all_subtract m zero h r =
    along (ap (at 0) (append-nil (copies m between) ∙ ap (λ k. copies k between) (omega arith))) r
all_subtract m (suc n) h r =
    let stepped = next r (fetch_sub (suc n) (copies m between) (copies n before)) in
    let less : sub32 (suc n) 1 ≡ n = omega arith in
    let shifted = along (λ i. at (less i) (copies-snoc m between (copies n before) i)) stepped in
    along (ap (λ k. at 0 (copies k between)) (omega arith))
      (all_subtract (suc m) n (omega arith) shifted)

-- Then all the loads.
all_load :
    {s : Shared} (m n : ℕ)
    → Reach s (at 0 (copies m (done true) ++ copies n between))
    → Reach s (at 0 (copies (m + n) (done true)))
all_load m zero r =
    along
      (ap (at 0) (append-nil (copies m (done true)) ∙ ap (λ k. copies k (done true)) (omega arith)))
      r
all_load m (suc n) r =
    let stepped = next r (load 0 (copies m (done true)) (copies n between)) in
    let shifted = along (ap (at 0) (copies-snoc m (done true) (copies n between))) stepped in
    along (ap (λ k. at 0 (copies k (done true))) (omega arith)) (all_load (suc m) n shifted)

-- There is an interleaving in which every one of the threads returns true, so that each of them
-- would delete the object.
pub all_threads_release :
    (n : ℕ) → n < 2 ^ 32 → Reach (start n) (record { refs = 0; threads = copies n (done true) })
all_threads_release n h = along (ap (λ k. at 0 (copies k (done true))) (omega arith)) (
    all_load 0 n
      (along (ap (λ k. at 0 (copies k between)) (omega arith)) (all_subtract 0 n h here)))
