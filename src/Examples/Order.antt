-- ===== src/Examples/Order.antt =====
-- The samples of the process are taken out of the queue in the order in which they come, and read
-- where they lie.
use libdw_bcc.Prelude.{
  ℕ, ◌==◌, ◌≡◌, ◌+◌, refl, ◌∙◌, ap, sym, ◌++◌, List, [], ◌∷◌, arith, ==_iff, if◌then◌else◌,
}
use mathlib.Core.List.{append_assoc}
use libdw_bcc.Store.{Ptr}
use libdw_bcc.Unwind.Memory.{UnwindCtx}
use libdw_bcc.Examples.Wakeups.{pop_front_lem, total}
use libdw_bcc.Examples.Resolved.{holds, taken, given, Run-resolved}
use libdw_bcc.Examples.{
  Effect, silent, written, pushed, resolved, popped, Worker, Task, System, TaskStep, enter, leave,
  take, sleep, wake, print, Step, poll, poll_end, poll_return, arrive, handle, ignore, notify,
  notify_nobody, work, stop_poller, stop_task, Run, here, next, tasks_of,
}

-- The pointers that were queued, and those that were taken out, in the order of the run.
abbrev pub pushes : List Effect → List Ptr
pushes [] = []
pushes (silent ∷ es) = pushes es
pushes (written p uc ∷ es) = pushes es
pushes (pushed p uc ∷ es) = pushes es ++ (p ∷ [])
pushes (popped p ∷ es) = pushes es
pushes (resolved p uc ∷ es) = pushes es

abbrev pub pops : List Effect → List Ptr
pops [] = []
pops (silent ∷ es) = pops es
pops (written p uc ∷ es) = pops es
pops (pushed p uc ∷ es) = pops es
pops (popped p ∷ es) = pops es ++ (p ∷ [])
pops (resolved p uc ∷ es) = pops es

-- The sample that was last written at a place.
abbrev pub latest : (Ptr → UnwindCtx) → List Effect → Ptr → UnwindCtx
latest b [] p = b p
latest b (silent ∷ es) p = latest b es p
latest b (written q uc ∷ es) p = if p == q then uc else latest b es p
latest b (pushed q uc ∷ es) p = latest b es p
latest b (popped q ∷ es) p = latest b es p
latest b (resolved q uc ∷ es) p = latest b es p

-- A sample is of the process when its pointer is queued, and what is queued or resolved is what was
-- last written there until then.
abbrev pub AreLatest : ℕ → (Ptr → UnwindCtx) → List Effect → Type 0
AreLatest tgid b [] = Unit
AreLatest tgid b (silent ∷ es) = AreLatest tgid b es
AreLatest tgid b (written p uc ∷ es) = AreLatest tgid b es
AreLatest tgid b (pushed p uc ∷ es) = (uc ≡ latest b es p) × (uc.tgid ≡ tgid) × AreLatest tgid b es
AreLatest tgid b (popped p ∷ es) = AreLatest tgid b es
AreLatest tgid b (resolved p uc ∷ es) = (uc ≡ latest b es p) × AreLatest tgid b es

-- The effect of a step on the queue.
abbrev Moves : List Ptr → Effect → List Ptr → Type 0
Moves q silent q' = q' ≡ q
Moves q (written p uc) q' = q' ≡ q
Moves q (pushed p uc) q' = q' ≡ q ++ (p ∷ [])
Moves q (popped p) q' = q ≡ p ∷ q'
Moves q (resolved p uc) q' = q' ≡ q

TaskStep-Moves :
    {b : Ptr → UnwindCtx} {q q' : List Ptr} {t : Task} {e : Effect} {state : Worker}
    → TaskStep b q t e q' state
    → Moves q e q'
TaskStep-Moves (enter a h) = refl
TaskStep-Moves (leave a h) = refl
TaskStep-Moves (take p rest a h) = pop_front_lem _ p rest h
TaskStep-Moves (sleep a h) = refl
TaskStep-Moves (wake a) = refl
TaskStep-Moves (print p a) = refl

Step-Moves : {tgid : ℕ} {s s' : System} {e : Effect} → Step tgid s e s' → Moves s.queue e s'.queue
Step-Moves (poll a b) = refl
Step-Moves (poll_end a b) = refl
Step-Moves (poll_return a) = refl
Step-Moves (arrive p uc) = refl
Step-Moves (handle p a b) = refl
Step-Moves (ignore p a b) = refl
Step-Moves (notify xs ys t a b c) = refl
Step-Moves (notify_nobody a b) = refl
Step-Moves (work xs ys t a b) = TaskStep-Moves b
Step-Moves (stop_poller a) = refl
Step-Moves (stop_task xs ys t a f) = refl

-- The effect of a step on the buffer, and what the step finds there.
abbrev Reads : ℕ → (Ptr → UnwindCtx) → Effect → (Ptr → UnwindCtx) → Type 0
Reads tgid b silent b' = (p : Ptr) → b' p ≡ b p
Reads tgid b (written q uc) b' = (p : Ptr) → b' p ≡ (if p == q then uc else b p)
Reads tgid b (pushed q uc) b' = (uc ≡ b q) × (uc.tgid ≡ tgid) × ((p : Ptr) → b' p ≡ b p)
Reads tgid b (popped q) b' = (p : Ptr) → b' p ≡ b p
Reads tgid b (resolved q uc) b' = (uc ≡ b q) × ((p : Ptr) → b' p ≡ b p)

TaskStep-Reads :
    {b : Ptr → UnwindCtx} {q q' : List Ptr} {t : Task} {e : Effect} {state : Worker}
    → (tgid : ℕ) → TaskStep b q t e q' state
    → Reads tgid b e b
TaskStep-Reads tgid (enter a h) = λ p. refl
TaskStep-Reads tgid (leave a h) = λ p. refl
TaskStep-Reads tgid (take q rest a h) = λ p. refl
TaskStep-Reads tgid (sleep a h) = λ p. refl
TaskStep-Reads tgid (wake a) = λ p. refl
TaskStep-Reads tgid (print q a) = (refl, λ p. refl)

Step-Reads :
    {tgid : ℕ} {s s' : System} {e : Effect} → Step tgid s e s' → Reads tgid s.buffer e s'.buffer
Step-Reads (poll a b) = λ p. refl
Step-Reads (poll_end a b) = λ p. refl
Step-Reads (poll_return a) = λ p. refl
Step-Reads (arrive q uc) = λ p. refl
Step-Reads {tgid} {s} (handle q a b) = (refl, (==_iff (s.buffer q).tgid tgid).0 b, λ p. refl)
Step-Reads (ignore q a b) = λ p. refl
Step-Reads (notify xs ys t a b c) = λ p. refl
Step-Reads (notify_nobody a b) = λ p. refl
Step-Reads {tgid} (work xs ys t a b) = TaskStep-Reads tgid b
Step-Reads (stop_poller a) = λ p. refl
Step-Reads (stop_task xs ys t a f) = λ p. refl

-- What came is what was taken out, and what is still there.
moved :
    (es : List Effect) (e : Effect) (q q' : List Ptr)
    → Moves q e q'
    → pushes es ≡ pops es ++ q
    → pushes (e ∷ es) ≡ pops (e ∷ es) ++ q'
moved es silent q q' m h = h ∙ ap (λ l. pops es ++ l) (sym m)
moved es (written p uc) q q' m h = h ∙ ap (λ l. pops es ++ l) (sym m)
moved es (resolved p uc) q q' m h = h ∙ ap (λ l. pops es ++ l) (sym m)
moved es (pushed p uc) q q' m h =
    ap (λ l. l ++ (p ∷ [])) h ∙ append_assoc (pops es) q (p ∷ []) ∙ ap (λ l. pops es ++ l) (sym m)
moved es (popped p) q q' m h =
    h ∙ ap (λ l. pops es ++ l) m ∙ sym (append_assoc (pops es) (p ∷ []) q')

-- The buffer holds what was last written to it.
stored :
    (tgid : ℕ) (start : Ptr → UnwindCtx) (es : List Effect) (e : Effect) (b b' : Ptr → UnwindCtx)
    → Reads tgid b e b'
    → ((p : Ptr) → b p ≡ latest start es p)
    → AreLatest tgid start es
    → ((p : Ptr) → b' p ≡ latest start (e ∷ es) p) × AreLatest tgid start (e ∷ es)
stored tgid start es silent b b' r h l = (λ p. r p ∙ h p, l)
stored tgid start es (written q uc) b b' r h l =
    (λ p. r p ∙ ap (λ x. if p == q then uc else x) (h p), l)
stored tgid start es (pushed q uc) b b' (at, own, r) h l = (λ p. r p ∙ h p, (at ∙ h q, own, l))
stored tgid start es (popped q) b b' r h l = (λ p. r p ∙ h p, l)
stored tgid start es (resolved q uc) b b' (at, r) h l = (λ p. r p ∙ h p, (at ∙ h q, l))

-- In any run of any number of threads, in any interleaving of their steps and of the writes to the
-- perf buffer: the pointers that were taken out of the queue, followed by those that are in it, are
-- all the pointers that were queued, in the order in which they were; so that none is lost, and none
-- is taken twice. A sample is of the traced process when its pointer is queued, and is then what was
-- last written there; the sample that is resolved for a pointer is what was last written there by
-- that time, which may be another one. And each pointer is resolved as many times as it was taken
-- out, but for those that threads still hold.
pub Run-order :
    {tgid : ℕ} {buffer : Ptr → UnwindCtx} {tasks : List Task} {es : List Effect} {s : System}
    → Run tgid (tasks_of buffer tasks) es s
    → (pushes es ≡ pops es ++ s.queue)
      × ((p : Ptr) → s.buffer p ≡ latest buffer es p)
      × AreLatest tgid buffer es
      × ((p : Ptr) → total (holds p) tasks + taken p es ≡ given p es + total (holds p) s.tasks)
Run-order here = (refl, (λ p. refl), tt, λ p. omega arith)
Run-order {tgid} {buffer} (next {effects} {effect} {t} {u} run step) =
    let (order, same, are_latest, _) = Run-order run in
    let (same', are_latest') =
      stored tgid buffer effects effect t.buffer u.buffer (Step-Reads step) same are_latest in
    (
      moved effects effect t.queue u.queue (Step-Moves step) order,
      same',
      are_latest',
      λ p. Run-resolved p (next run step),
    )
