-- ===== src/Examples/Stop.antt =====
-- The exit signals are not enough to end the threads.
use libdw_bcc.Prelude.{ℕ, ◌+◌, ◌<◌, ◌≤◌, ◌≡◌, refl, ap, All, List, [], ◌∷◌, arith, true}
use libdw_bcc.Store.{Ptr}
use libdw_bcc.Unwind.Memory.{UnwindCtx}
use libdw_bcc.Examples.{
  Effect, Worker, work_done, Poller, poll_test, poll_done, Task, System, TaskStep, enter, leave,
  take, sleep, wake, print, Step, poll, poll_end, poll_return, arrive, handle, ignore, notify,
  notify_nobody, work, stop_poller, stop_task, Run, here, next,
}
use libdw_bcc.Examples.Wakeups.{
  pop_front_lem, is_popping, is_waiting, total, total-append, total_at,
}

-- The poller has ended, and there is no sample left.
abbrev pub IsOver : System → Type 0
IsOver s = (s.poller ≡ poll_done) × (s.queue ≡ [])

abbrev pub in_pop : List Task → ℕ
in_pop tasks = total is_waiting tasks + total is_popping tasks

-- All threads are behind their loops, and main can join them.
abbrev pub AreDone : List Task → Type 0
AreDone tasks = All (λ t. t.state ≡ work_done) tasks

AreDone-in_pop : (ts : List Task) → AreDone ts → in_pop ts ≡ 0
AreDone-in_pop [] h = refl
AreDone-in_pop (t ∷ ts) (h, hs) =
    omega (arith, ap is_waiting h, ap is_popping h, AreDone-in_pop ts hs)

TaskStep-over :
    {b : Ptr → UnwindCtx} {q q' : List Ptr} {t : Task} {e : Effect} {state : Worker}
    → TaskStep b q t e q' state
    → q ≡ []
    → (q' ≡ []) × (is_waiting t.state + is_popping t.state ≤ is_waiting state + is_popping state)
TaskStep-over (enter a b) h = (h, omega (arith, ap is_waiting a, ap is_popping a))
TaskStep-over (leave a b) h = (h, omega (arith, ap is_waiting a, ap is_popping a))
TaskStep-over (take uc rest a b) h = absurd (cc (h, pop_front_lem _ uc rest b))
TaskStep-over (sleep a b) h = (h, omega (arith, ap is_waiting a, ap is_popping a))
TaskStep-over (wake a) h = (h, omega (arith, ap is_waiting a, ap is_popping a))
TaskStep-over (print uc a) h = (h, omega (arith, ap is_waiting a, ap is_popping a))

not_over : (p : Poller) → p ≡ poll_done → ¬ (p ≡ poll_test)
not_over p h k = cc

Step-IsOver :
    {tgid : ℕ} {s s' : System} {e : Effect}
    → Step tgid s e s'
    → IsOver s
    → IsOver s' × (in_pop s.tasks ≤ in_pop s'.tasks)
Step-IsOver (poll a b) (p, q) = absurd (cc (a, p))
Step-IsOver (poll_end a b) (p, q) = absurd (cc (a, p))
Step-IsOver (poll_return a) (p, q) = absurd (cc (a, p))
Step-IsOver (arrive uc sample) h = (h, omega arith)
Step-IsOver (handle uc a b) (p, q) = absurd (cc (a, p))
Step-IsOver (ignore uc a b) (p, q) = absurd (cc (a, p))
Step-IsOver (notify xs ys t a b c) (p, q) = absurd (cc (a, p))
Step-IsOver (notify_nobody a b) (p, q) = absurd (cc (a, p))
Step-IsOver {s} (work {effect} {queue} {state} xs ys t a b) (p, q) =
    let (empty, le) = TaskStep-over b q in
    (
      (p, empty),
      omega (
        arith,
        le,
        total_at is_waiting s.tasks xs ys t a,
        total_at is_popping s.tasks xs ys t a,
        total-append is_waiting xs (record t { state = state } ∷ ys),
        total-append is_popping xs (record t { state = state } ∷ ys),
      ),
    )
Step-IsOver (stop_poller a) h = (h, omega arith)
Step-IsOver {s} (stop_task xs ys t a f) h = (
  h,
  omega (
    arith,
    total_at is_waiting s.tasks xs ys t a,
    total_at is_popping s.tasks xs ys t a,
    total-append is_waiting xs (record t { stop = true } ∷ ys),
    total-append is_popping xs (record t { stop = true } ∷ ys),
  ),
)

Run-IsOver :
    {tgid : ℕ} {s s' : System} {es : List Effect}
    → Run tgid s es s'
    → IsOver s
    → IsOver s' × (in_pop s.tasks ≤ in_pop s'.tasks)
Run-IsOver here h = (h, omega arith)
Run-IsOver (next run step) h =
    let (over, le) = Run-IsOver run h in
    let (over', le') = Step-IsOver step over in (over', omega (arith, le, le'))

-- Where the poller has ended and the queue is empty while some thread is in Queue::pop, no run from
-- there ends all threads, whatever exit signals are set: main waits for them forever.
pub Run-stuck :
    {tgid : ℕ} {s s' : System} {es : List Effect}
    → Run tgid s es s'
    → IsOver s
    → 0 < in_pop s.tasks
    → ¬ AreDone s'.tasks
Run-stuck {tgid} {s} {s'} run over some_ done =
    omega (arith, (Run-IsOver run over).1, some_, AreDone-in_pop s'.tasks done)
