-- ===== src/Examples/Wakeups.antt =====
-- The notifications of Queue::push are enough.
use libdw_bcc.Prelude.{
  ℕ, ◌+◌, ◌<◌, ◌≤◌, ◌≡◌, refl, ◌∙◌, ap, ◌++◌, none, some, List, [], ◌∷◌, length, arith, true,
}
use libdw_bcc.Store.{Ptr}
use libdw_bcc.Unwind.Memory.{UnwindCtx}
use libdw_bcc.Examples.{
  push_back, pop_front, Effect, Worker, work_test, popping, waiting, resolving, work_done, Poller,
  poll_test, polling, notifying, poll_done, Task, System, TaskStep, enter, leave, take, sleep, wake,
  print, Step, poll, poll_end, poll_return, arrive, handle, ignore, notify, notify_nobody, work,
  stop_poller, stop_task, Run, here, next, tasks_of,
}

abbrev pub is_popping : Worker → ℕ
is_popping work_test = 0
is_popping popping = 1
is_popping waiting = 0
is_popping (resolving uc) = 0
is_popping work_done = 0

abbrev pub is_waiting : Worker → ℕ
is_waiting work_test = 0
is_waiting popping = 0
is_waiting waiting = 1
is_waiting (resolving uc) = 0
is_waiting work_done = 0

-- The number of threads of some kind.
abbrev pub total : (Worker → ℕ) → List Task → ℕ
total f [] = 0
total f (t ∷ ts) = f t.state + total f ts

-- A notification that is still to come.
abbrev pub pending : Poller → ℕ
pending poll_test = 0
pending polling = 0
pending notifying = 1
pending poll_done = 0

pub total-append :
    (f : Worker → ℕ) (xs ys : List Task) → total f (xs ++ ys) ≡ total f xs + total f ys
total-append f [] ys = omega arith
total-append f (t ∷ xs) ys = omega (arith, total-append f xs ys)

-- The number, where one thread is singled out.
pub total_at :
    (f : Worker → ℕ) (ts xs ys : List Task) (t : Task)
    → ts ≡ xs ++ t ∷ ys
    → total f ts ≡ total f xs + (f t.state + total f ys)
total_at f ts xs ys t e = ap (total f) e ∙ total-append f xs (t ∷ ys)

nobody :
    (ts : List Task)
    → ((xs ys : List Task) (t : Task) → ts ≡ xs ++ t ∷ ys → ¬ (t.state ≡ waiting))
    → total is_waiting ts ≡ 0
nobody [] h = refl
nobody (t ∷ ts) h =
    let rest = nobody ts (λ xs ys u e. h (t ∷ xs) ys u (ap (λ l. t ∷ l) e)) in
    omega (arith, rest, awake t.state (h [] ts t refl))
  where
    awake : (state : Worker) → ¬ (state ≡ waiting) → is_waiting state ≡ 0
    awake work_test n = refl
    awake popping n = refl
    awake waiting n = absurd (n refl)
    awake (resolving uc) n = refl
    awake work_done n = refl

-- While a thread sleeps, there are as many threads awake in Queue::pop, or about to be woken, as
-- there are samples.
abbrev IsWoken : List Ptr → Poller → List Task → Type 0
IsWoken queue poller tasks =
    0 < total is_waiting tasks → length queue ≤ total is_popping tasks + pending poller

pub pop_front_lem :
    (q : List Ptr) (p : Ptr) (rest : List Ptr) → pop_front q ≡ some (p, rest) → q ≡ p ∷ rest
pop_front_lem [] p rest e = absurd (cc)
pop_front_lem (x ∷ q) p rest e = cc

length-push_back : (uc : Ptr) (q : List Ptr) → length (push_back uc q) ≡ length q + 1
length-push_back uc [] = refl
length-push_back uc (x ∷ q) = omega (arith, length-push_back uc q)

pop_front-none : (q : List Ptr) → pop_front q ≡ none → q ≡ []
pop_front-none [] e = refl
pop_front-none (x ∷ q) e = absurd (cc)

-- What one thread does, where the others are counted.
TaskStep-IsWoken :
    {b : Ptr → UnwindCtx} {q q' : List Ptr} {t : Task} {e : Effect} {state : Worker}
    → (waits pops : ℕ) → TaskStep b q t e q' state
    → (0 < is_waiting t.state + waits → length q ≤ is_popping t.state + pops)
    → 0 < is_waiting state + waits
    → length q' ≤ is_popping state + pops
TaskStep-IsWoken waits pops (enter a b) h w =
    omega (arith, h (omega (arith, ap is_waiting a, w)), ap is_popping a)
TaskStep-IsWoken waits pops (leave a b) h w =
    omega (arith, h (omega (arith, ap is_waiting a, w)), ap is_popping a)
TaskStep-IsWoken waits pops (take uc rest a b) h w = omega (
  arith,
  h (omega (arith, ap is_waiting a, w)),
  ap is_popping a,
  ap length (pop_front_lem _ uc rest b),
)
TaskStep-IsWoken waits pops (sleep a b) h w = omega (arith, ap length (pop_front-none _ b))
TaskStep-IsWoken waits pops (wake a) h w =
    omega (arith, h (omega (arith, ap is_waiting a)), ap is_popping a)
TaskStep-IsWoken waits pops (print uc a) h w =
    omega (arith, h (omega (arith, ap is_waiting a, w)), ap is_popping a)

Step-IsWoken :
    {tgid : ℕ} {s s' : System} {e : Effect}
    → Step tgid s e s'
    → IsWoken s.queue s.poller s.tasks
    → IsWoken s'.queue s'.poller s'.tasks
Step-IsWoken (poll a b) h w = omega (arith, h w, ap pending a)
Step-IsWoken (poll_end a b) h w = omega (arith, h w, ap pending a)
Step-IsWoken (poll_return a) h w = omega (arith, h w, ap pending a)
Step-IsWoken {s} (handle uc a b) h w = omega (arith, h w, ap pending a, length-push_back uc s.queue)
Step-IsWoken (arrive uc sample) h w = h w
Step-IsWoken (ignore uc a b) h w = h w
Step-IsWoken {s} (notify xs ys t a b c) h w =
    let waits = total_at is_waiting s.tasks xs ys t b in
    let pops = total_at is_popping s.tasks xs ys t b in
    omega (
      arith,
      h (omega (arith, waits, ap is_waiting c)),
      pops,
      ap is_popping c,
      ap pending a,
      total-append is_popping xs (record t { state = popping } ∷ ys),
    )
Step-IsWoken {s} (notify_nobody a b) h w = absurd (omega (arith, w, nobody s.tasks b))
Step-IsWoken {s} (work {effect} {queue} {state} xs ys t a b) h w =
    let waits = total is_waiting xs + total is_waiting ys in
    let pops = total is_popping xs + total is_popping ys + pending s.poller in
    let before_waits = total_at is_waiting s.tasks xs ys t a in
    let before_pops = total_at is_popping s.tasks xs ys t a in
    let after_waits = total-append is_waiting xs (record t { state = state } ∷ ys) in
    let after_pops = total-append is_popping xs (record t { state = state } ∷ ys) in
    let step =
      TaskStep-IsWoken waits pops b
        (λ i. omega (arith, h (omega (arith, i, before_waits)), before_pops))
        (omega (arith, w, after_waits)) in
    omega (arith, step, after_pops)
Step-IsWoken (stop_poller a) h w = h w
Step-IsWoken {s} (stop_task xs ys t a f) h w = omega (
  arith,
  h (
      omega (
        arith,
        w,
        total_at is_waiting s.tasks xs ys t a,
        total-append is_waiting xs (record t { stop = true } ∷ ys),
      )),
  total_at is_popping s.tasks xs ys t a,
  total-append is_popping xs (record t { stop = true } ∷ ys),
)

-- In any run of any number of threads that are at the start of their loops: while some thread
-- sleeps in Queue::pop, the queue holds no more samples than there are threads awake in Queue::pop
-- or about to be woken. So no sample lies in the queue with nobody to take it.
pub Run-IsWoken :
    {tgid : ℕ} {buffer : Ptr → UnwindCtx} {tasks : List Task} {es : List Effect} {s : System}
    → Run tgid (tasks_of buffer tasks) es s
    → 0 < total is_waiting s.tasks
    → length s.queue ≤ total is_popping s.tasks + pending s.poller
Run-IsWoken here w = omega arith
Run-IsWoken (next run step) w = Step-IsWoken step (Run-IsWoken run) w
