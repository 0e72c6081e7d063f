-- ===== src/Storage/Wakeup.antt =====
-- `activeHandlers_--` and `notify_one` run without `handlersMutex_`, so they can come between the
-- predicate of `wait` and the sleep.
use distributed_file_storage.Base.{ℕ, zero, suc, ◌≡◌, ◌≢◌, refl, Bool, arith}
use distributed_file_storage.Storage.Lifecycle.{
  Position, checking, falling_asleep, asleep, Threads, ThreadStep, loop, leave_loop, accept, refuse,
  increment, spawn, die, finish, decrement, notify, return, see_handlers, sleep, wake, Schedule,
  here, next,
}

-- The thread of `start` at a position, with handlers in `handleClient` and before `notify_one`, and
-- none between the two.
abbrev pub threads_at : Position → Bool → ℕ → ℕ → Threads
threads_at position running serving leaving = record {
  running = running;
  active_handlers = serving;
  serving = serving;
  ending = 0;
  leaving = leaving;
  position = position;
}

-- A sleeping thread with no handler left to wake it has no step but a wake-up that nobody asked for.
pub only_wake :
    {s t : Threads}
    → ThreadStep s t
    → s.position ≡ asleep
    → s.serving ≡ 0
    → s.ending ≡ 0
    → s.leaving ≡ 0
    → t ≡ record s { position = checking }
only_wake (loop s at up) p n m l = cc
only_wake (leave_loop s at down) p n m l = cc
only_wake (accept s at) p n m l = cc
only_wake (refuse s at) p n m l = cc
only_wake (increment s at) p n m l = cc
only_wake (spawn s at) p n m l = cc
only_wake (die s k busy) p n m l = absurd (omega arith)
only_wake (finish s k busy) p n m l = absurd (omega arith)
only_wake (decrement s k a busy count) p n m l = absurd (omega arith)
only_wake (notify s k last) p n m l = absurd (omega arith)
only_wake (return s at empty) p n m l = cc
only_wake (see_handlers s at some_handler) p n m l = cc
only_wake (sleep s at) p n m l = cc
only_wake (wake s at) p n m l = refl

module _ (s : Threads) (running : Bool) where
  all_notify :
      (l : ℕ)
      → Schedule s (threads_at falling_asleep running 0 l)
      → Schedule s (threads_at falling_asleep running 0 0)
  all_notify zero run = run
  all_notify (suc l) run = all_notify l (next run (notify _ l refl))

  all_finish :
      (n l : ℕ)
      → Schedule s (threads_at falling_asleep running n l)
      → Schedule s (threads_at falling_asleep running 0 0)
  all_finish zero l run = all_notify l run
  all_finish (suc n) l run =
      all_finish n (suc l) (next (next run (finish _ n refl)) (decrement _ 0 n refl refl))

-- While `start` looks at the predicate of its wait, let one handler at least be in `handleClient`.
-- Then there is a run in which all of them come to their end and notify before `start` falls asleep:
-- it sleeps with no handler left, and nobody to wake it.
pub lost_wakeup :
    (running : Bool) (n l : ℕ)
    → n ≢ 0
    → Schedule (threads_at checking running n l) (threads_at asleep running 0 0)
lost_wakeup running n l some_handler =
    let start = threads_at checking running n l in
    next (all_finish start running n l (next here (see_handlers start refl some_handler)))
      (sleep _ refl)
