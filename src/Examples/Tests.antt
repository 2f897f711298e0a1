-- ===== src/Examples/Tests.antt =====
-- One thread resolves the samples of the process 40. The place 1 of the perf buffer is used twice.
use libdw_bcc.Prelude.{
  pos, ◌+◌, ◌≤◌, ◌==◌, ◌≡◌, refl, ◌++◌, arith, true, List, [], ◌∷◌, if◌then◌else◌, length,
}
use libdw_bcc.Store.{Ptr}
use libdw_bcc.Unwind.Memory.{UnwindCtx}
use libdw_bcc.Examples.{
  Effect, silent, written, pushed, resolved, popped, popping, waiting, resolving, notifying,
  polling, poll_done, Task, System, enter, take, sleep, wake, print, poll, poll_end, arrive, handle,
  notify, work, stop_poller, stop_task, Run, here, next, tasks_of, new_task,
}
use libdw_bcc.Examples.Order.{pushes, pops, latest, AreLatest, Run-order}
use libdw_bcc.Examples.Resolved.{holds, taken, given}
use libdw_bcc.Examples.Stop.{AreDone, Run-stuck}
use libdw_bcc.Examples.Wakeups.{total, is_popping, pending, Run-IsWoken}

abbrev sample : UnwindCtx
sample = record {
  tid = 41;
  tgid = 40;
  uregs = record {
    r15 = 0;
    r14 = 0;
    r13 = 0;
    r12 = 0;
    bp = 0;
    bx = 0;
    r11 = 0;
    r10 = 0;
    r9 = 0;
    r8 = 0;
    ax = 0;
    cx = 0;
    dx = 0;
    si = 0;
    di = 0;
    orig_ax = 0;
    ip = 0x4001;
    cs = 51;
    flags = 2;
    sp = 0x7000;
    ss = 43;
  };
  name = 0x61 ∷ [];
  size = pos 0;
  stack = [];
}

-- A sample of another process.
abbrev other : UnwindCtx
other = record sample { tid = 51; tgid = 50 }

abbrev buffer : Ptr → UnwindCtx
buffer p = other

abbrev started : System
started = tasks_of buffer (new_task ∷ [])

abbrev sleeper : Task
sleeper = record new_task { state = waiting }

-- The thread goes to sleep on the empty queue.
abbrev asleep : System
asleep = record started { tasks = sleeper ∷ [] }

to_sleep : Run 40 started (silent ∷ silent ∷ []) asleep
to_sleep =
    next (next here (work [] [] new_task refl (enter refl refl)))
      (work [] [] (record new_task { state = popping }) refl (sleep refl refl))

-- A sample comes, and the thread is not notified yet.
abbrev with_sample : Ptr → UnwindCtx
with_sample p = if p == 1 then sample else buffer p

abbrev unnotified : System
unnotified = record asleep { buffer = with_sample; queue = 1 ∷ []; poller = notifying }

to_unnotified :
    Run 40 started (pushed 1 sample ∷ written 1 sample ∷ silent ∷ silent ∷ silent ∷ []) unnotified
to_unnotified = next (next (next to_sleep (poll refl refl)) (arrive 1 sample)) (handle 1 refl refl)

Run-IsWoken_example : length unnotified.queue ≤ total is_popping (sleeper ∷ []) + pending notifying
Run-IsWoken_example = Run-IsWoken to_unnotified (omega arith)

-- The thread takes the pointer.
abbrev busy : System
busy = record unnotified {
  queue = [];
  poller = polling;
  tasks = record new_task { state = resolving 1 } ∷ [];
}

abbrev taking : List Effect
taking = popped 1 ∷ silent ∷ pushed 1 sample ∷ written 1 sample ∷ silent ∷ silent ∷ silent ∷ []

to_busy : Run 40 started taking busy
to_busy =
    next (next to_unnotified (notify [] [] sleeper refl refl refl))
      (work [] [] (record new_task { state = popping }) refl (take 1 [] refl refl))

-- Another sample is written to its place before it is read, and is resolved for it, although it is
-- of another process.
abbrev overwritten : System
overwritten = record busy {
  buffer = λ p. if p == 1 then other else with_sample p;
  tasks = new_task ∷ [];
}

abbrev overwriting : List Effect
overwriting = resolved 1 other ∷ written 1 other ∷ taking

to_overwritten : Run 40 started overwriting overwritten
to_overwritten =
    next (next to_busy (arrive 1 other))
      (work [] [] (record new_task { state = resolving 1 }) refl (print 1 refl))

Run-order_example :
    (pushes overwriting ≡ pops overwriting ++ [])
    × ((p : Ptr) → overwritten.buffer p ≡ latest buffer overwriting p)
    × AreLatest 40 buffer overwriting
    × ((p : Ptr)
        → total (holds p) (new_task ∷ []) + taken p overwriting
          ≡ given p overwriting + total (holds p) (new_task ∷ []))
Run-order_example = Run-order to_overwritten

-- Both threads are told to stop, and the poller ends.
abbrev over : System
over = record {
  buffer = buffer;
  queue = [];
  poller = poll_done;
  poll_stop = true;
  tasks = record sleeper { stop = true } ∷ [];
}

to_over : Run 40 started (silent ∷ silent ∷ silent ∷ silent ∷ silent ∷ []) over
to_over =
    next (next (next to_sleep (stop_poller refl)) (stop_task [] [] sleeper refl refl))
      (poll_end refl refl)

-- The thread wakes up by itself, and sleeps again.
back_to_sleep : Run 40 over (silent ∷ silent ∷ []) over
back_to_sleep =
    next (next here (work [] [] (record sleeper { stop = true }) refl (wake refl)))
      (work [] [] (record new_task { state = popping; stop = true }) refl (sleep refl refl))

Run-stuck_example : ¬ AreDone (record sleeper { stop = true } ∷ [])
Run-stuck_example = Run-stuck back_to_sleep (refl, refl) (omega arith)
