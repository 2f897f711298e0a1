-- ===== src/Examples/Resolved.antt =====
-- Each pointer that is taken out of the queue is resolved once.
use libdw_bcc.Prelude.{ℕ, ◌+◌, ◌==◌, ◌≡◌, ap, ◌++◌, List, [], ◌∷◌, arith, if◌then◌else◌, true}
use libdw_bcc.Store.{Ptr}
use libdw_bcc.Unwind.Memory.{UnwindCtx}
use libdw_bcc.Examples.{
  Effect, silent, written, pushed, resolved, popped, Worker, work_test, popping, waiting, resolving,
  work_done, Task, System, TaskStep, enter, leave, take, sleep, wake, print, Step, poll, poll_end,
  poll_return, arrive, handle, ignore, notify, notify_nobody, work, stop_poller, stop_task, Run,
  here, next, tasks_of,
}
use libdw_bcc.Examples.Wakeups.{total, total-append, total_at}

abbrev same : Ptr → Ptr → ℕ
same p q = if p == q then 1 else 0

-- Whether a thread has taken the pointer, and not resolved it yet.
abbrev pub holds : Ptr → Worker → ℕ
holds p work_test = 0
holds p popping = 0
holds p waiting = 0
holds p (resolving q) = same p q
holds p work_done = 0

abbrev takes : Ptr → Effect → ℕ
takes p silent = 0
takes p (written q uc) = 0
takes p (pushed q uc) = 0
takes p (popped q) = same p q
takes p (resolved q uc) = 0

abbrev gives : Ptr → Effect → ℕ
gives p silent = 0
gives p (written q uc) = 0
gives p (pushed q uc) = 0
gives p (popped q) = 0
gives p (resolved q uc) = same p q

-- How many times the pointer was taken out of the queue, and how many times it was resolved.
abbrev pub taken : Ptr → List Effect → ℕ
taken p [] = 0
taken p (e ∷ es) = takes p e + taken p es

abbrev pub given : Ptr → List Effect → ℕ
given p [] = 0
given p (e ∷ es) = gives p e + given p es

TaskStep-holds :
    {b : Ptr → UnwindCtx} {q q' : List Ptr} {t : Task} {e : Effect} {state : Worker}
    → (p : Ptr) → TaskStep b q t e q' state
    → holds p t.state + takes p e ≡ gives p e + holds p state
TaskStep-holds p (enter a h) = omega (arith, ap (holds p) a)
TaskStep-holds p (leave a h) = omega (arith, ap (holds p) a)
TaskStep-holds p (take q rest a h) = omega (arith, ap (holds p) a)
TaskStep-holds p (sleep a h) = omega (arith, ap (holds p) a)
TaskStep-holds p (wake a) = omega (arith, ap (holds p) a)
TaskStep-holds p (print q a) = omega (arith, ap (holds p) a)

-- One thread moves on, the others stay.
moves_on :
    (p : Ptr) (ts xs ys : List Task) (t u : Task)
    → ts ≡ xs ++ t ∷ ys
    → total (holds p) (xs ++ u ∷ ys) + holds p t.state ≡ total (holds p) ts + holds p u.state
moves_on p ts xs ys t u a =
    omega (arith, total_at (holds p) ts xs ys t a, total-append (holds p) xs (u ∷ ys))

Step-holds :
    {tgid : ℕ} {s s' : System} {e : Effect}
    → (p : Ptr) → Step tgid s e s'
    → total (holds p) s.tasks + takes p e ≡ gives p e + total (holds p) s'.tasks
Step-holds p (poll a b) = omega arith
Step-holds p (poll_end a b) = omega arith
Step-holds p (poll_return a) = omega arith
Step-holds p (arrive q uc) = omega arith
Step-holds p (handle q a b) = omega arith
Step-holds p (ignore q a b) = omega arith
Step-holds {tgid} {s} p (notify xs ys t a b c) =
    omega (arith, moves_on p s.tasks xs ys t (record t { state = popping }) b, ap (holds p) c)
Step-holds p (notify_nobody a b) = omega arith
Step-holds {tgid} {s} p (work {effect} {queue} {state} xs ys t a b) =
    omega (arith, moves_on p s.tasks xs ys t (record t { state = state }) a, TaskStep-holds p b)
Step-holds p (stop_poller a) = omega arith
Step-holds {tgid} {s} p (stop_task xs ys t a f) =
    omega (arith, moves_on p s.tasks xs ys t (record t { stop = true }) a)

pub Run-resolved :
    {tgid : ℕ} {buffer : Ptr → UnwindCtx} {tasks : List Task} {es : List Effect} {s : System}
    → (p : Ptr) → Run tgid (tasks_of buffer tasks) es s
    → total (holds p) tasks + taken p es ≡ given p es + total (holds p) s.tasks
Run-resolved p here = omega arith
Run-resolved p (next run step) = omega (arith, Run-resolved p run, Step-holds p step)
