-- ===== src/Examples.antt =====
-- examples/syscall_parallel.cc, with examples/queue.h and examples/stoppable.h: one thread polls
-- the samples of a process into a queue, and several threads take them out and resolve them. The
-- steps of all threads interleave.
mod Order
mod Wakeups
mod Resolved
mod Stop
mod Tests
use libdw_bcc.Prelude.{
  ℕ, if◌then◌else◌, ◌==◌, ◌≡◌, ◌++◌, Bool, true, false, Option, none, some, List, [], ◌∷◌,
}
use libdw_bcc.Store.{Ptr}
use libdw_bcc.Unwind.Memory.{UnwindCtx}

-- The critical section of Queue::push.
abbrev pub push_back : {A : Type 0} → A → List A → List A
push_back x queue = queue ++ (x ∷ [])

-- One round of the critical section of Queue::pop: the object in front, and the queue without it;
-- or the thread has to wait.
abbrev pub pop_front : {A : Type 0} → List A → Option (A × List A)
pop_front [] = none
pop_front (x ∷ queue) = some (x, queue)

-- Where a thread is in ResolveCallchainTask::run: at the test of its loop, in Queue::pop and
-- awake, asleep there in cond_.wait, with the pointer to a sample, or behind the loop.
pub data Worker : Type 0 where
  work_test popping waiting : Worker
  resolving : Ptr → Worker
  work_done : Worker

-- A thread with its exit signal (Stoppable). Whether stopRequested sees the signal is the test of a
-- future that is ready or not.
pub record Task : Type 0 where
  pub state : Worker
  pub stop : Bool

-- Where the polling thread is in EventPollTask::run: at the test of its loop, in
-- poll_perf_buffer, in Queue::push behind the critical section, or behind the loop.
pub data Poller : Type 0 where
  poll_test polling notifying poll_done : Poller

-- The queue holds pointers into the memory of the perf buffer, whose samples are `buffer`.
pub record System : Type 0 where
  pub buffer : Ptr → UnwindCtx
  pub queue : List Ptr
  pub poller : Poller
  pub poll_stop : Bool
  pub tasks : List Task

-- What a step does to the queue and to the buffer. A pointer is queued with the sample that the
-- handler finds there, and the sample of a pointer is resolved as it is by then.
pub data Effect : Type 0 where
  silent : Effect
  written pushed resolved : Ptr → UnwindCtx → Effect
  popped : Ptr → Effect

-- A step of one of the resolving threads, with the queue before and behind it.
pub data TaskStep (buffer : Ptr → UnwindCtx) (queue : List Ptr) (t : Task)
    : Effect → List Ptr → Worker → Type 0 where
  enter : t.state ≡ work_test → t.stop ≡ false → TaskStep buffer queue t silent queue popping
  leave : t.state ≡ work_test → t.stop ≡ true → TaskStep buffer queue t silent queue work_done
  take :
      (uc : Ptr) (rest : List Ptr)
      → t.state ≡ popping
      → pop_front queue ≡ some (uc, rest)
      → TaskStep buffer queue t (popped uc) rest (resolving uc)
  sleep : t.state ≡ popping → pop_front queue ≡ none → TaskStep buffer queue t silent queue waiting
  -- A condition variable may wake a thread without a notification.
  wake : t.state ≡ waiting → TaskStep buffer queue t silent queue popping
  -- The sample is read, resolved and printed, in one step. Where that fails, the process exits: the
  -- run ends here.
  print :
      (uc : Ptr)
      → t.state ≡ resolving uc
      → TaskStep buffer queue t (resolved uc (buffer uc)) queue work_test

-- A step of the system that traces the process `tgid`.
pub data Step (tgid : ℕ) (s : System) : Effect → System → Type 0 where
  -- EventPollTask::run
  poll :
      s.poller ≡ poll_test
      → s.poll_stop ≡ false
      → Step tgid s silent (record s { poller = polling })
  poll_end :
      s.poller ≡ poll_test
      → s.poll_stop ≡ true
      → Step tgid s silent (record s { poller = poll_done })
  poll_return : s.poller ≡ polling → Step tgid s silent (record s { poller = poll_test })
  -- A sample is written to the perf buffer, at a new place or at one that was used before, at any
  -- time between two steps of the threads.
  arrive :
      (raw : Ptr) (sample : UnwindCtx)
      → Step tgid s
          (written raw sample)
          (record s { buffer = λ p. if p == raw then sample else s.buffer p })
  -- unwind_ctx_handler, on a sample of the process and on another one
  handle :
      (raw : Ptr)
      → s.poller ≡ polling
      → ((s.buffer raw).tgid == tgid) ≡ true
      → Step tgid s
          (pushed raw (s.buffer raw))
          (record s { queue = push_back raw s.queue; poller = notifying })
  ignore :
      (raw : Ptr)
      → s.poller ≡ polling
      → ((s.buffer raw).tgid == tgid) ≡ false
      → Step tgid s silent s
  -- cond_.notify_one wakes one thread that waits, if there is one.
  notify :
      (before after : List Task) (t : Task)
      → s.poller ≡ notifying
      → s.tasks ≡ before ++ t ∷ after
      → t.state ≡ waiting
      → Step tgid s silent
          (record s { poller = polling; tasks = before ++ record t { state = popping } ∷ after })
  notify_nobody :
      s.poller ≡ notifying
      → ((before after : List Task) (t : Task)
          → s.tasks ≡ before ++ t ∷ after
          → ¬ (t.state ≡ waiting))
      → Step tgid s silent (record s { poller = polling })
  work :
      {effect : Effect} {queue : List Ptr} {state : Worker}
      → (before after : List Task) (t : Task) → s.tasks ≡ before ++ t ∷ after
      → TaskStep s.buffer s.queue t effect queue state
      → Step tgid s effect
          (record s { queue = queue; tasks = before ++ record t { state = state } ∷ after })
  -- signal_handler: the exit signals of the threads, one after the other. set_value throws for a
  -- signal that is already set, which ends the process: a run has no such step.
  stop_poller : s.poll_stop ≡ false → Step tgid s silent (record s { poll_stop = true })
  stop_task :
      (before after : List Task) (t : Task)
      → s.tasks ≡ before ++ t ∷ after
      → t.stop ≡ false
      → Step tgid s silent (record s { tasks = before ++ record t { stop = true } ∷ after })

-- A run, with what its steps did, the last one first.
pub data Run (tgid : ℕ) (s : System) : List Effect → System → Type 0 where
  here : Run tgid s [] s
  next :
      {effects : List Effect} {effect : Effect} {t u : System}
      → Run tgid s effects t
      → Step tgid t effect u
      → Run tgid s (effect ∷ effects) u

-- main, once its threads run, with what the perf buffer then holds.
abbrev pub tasks_of : (Ptr → UnwindCtx) → List Task → System
tasks_of buffer tasks = record {
  buffer = buffer;
  queue = [];
  poller = poll_test;
  poll_stop = false;
  tasks = tasks;
}

abbrev pub new_task : Task
new_task = record { state = work_test; stop = false }
