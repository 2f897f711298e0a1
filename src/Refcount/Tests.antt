-- ===== src/Refcount/Tests.antt =====
-- Counts at their bounds, and two threads that drop the last two references.
use libdw_bcc.Prelude.{◌<◌, ◌≡◌, refl, true, arith}
use libdw_bcc.Refcount.{refcount_dec_and_test}
use libdw_bcc.Refcount.Threads.{
  Reach, start, done, copies, trues, some_thread_releases, all_threads_release,
}

last_reference : refcount_dec_and_test 1 ≡ (0, true)
unfolding refcount_dec_and_test
last_reference = refl

all_threads_release_example : Reach (start 2) (record { refs = 0; threads = copies 2 (done true) })
all_threads_release_example = all_threads_release 2 (omega arith)

some_thread_releases_example : 0 < trues (copies 2 (done true))
some_thread_releases_example =
    some_thread_releases 2 (omega arith) (omega arith) (all_threads_release 2 (omega arith)) tt
