-- ===== src/Storage/Lifecycle.antt =====
-- The threads of `StorageNode::start`: the accept loop, the handlers that it detaches, and the wait
-- for them. A step is one atomic action of one thread, and the threads take turns in any order.
use distributed_file_storage.Base.{ℕ, suc, ◌+◌, ◌≤◌, ◌≡◌, ◌≢◌, refl, ap, Bool, true, false, arith}

-- Where the thread of `start` stands: at `while (running_)`, in `acceptClient`, before
-- `activeHandlers_++`, before the thread of the handler is made, at the predicate of `wait`, behind
-- the predicate and before it sleeps, asleep, or behind the return.
pub data Position : Type 0 where
  testing : Position
  accepting : Position
  counting : Position
  spawning : Position
  checking : Position
  falling_asleep : Position
  asleep : Position
  done : Position

-- `serving` counts the threads in `handleClient`, `ending` those between its return and
-- `activeHandlers_--`, `leaving` those behind that and before `notify_one`.
pub record Threads : Type 0 where
  pub running : Bool
  pub active_handlers : ℕ
  pub serving : ℕ
  pub ending : ℕ
  pub leaving : ℕ
  pub position : Position

-- `notify_one` wakes the thread only if it is asleep.
abbrev pub woken : Position → Position
woken testing = testing
woken accepting = accepting
woken counting = counting
woken spawning = spawning
woken checking = checking
woken falling_asleep = falling_asleep
woken asleep = checking
woken done = done

-- `handlersMutex_` is held by no thread but that of `start`, so no step waits for it.
pub data ThreadStep : Threads → Threads → Type 0 where
  loop :
      (s : Threads)
      → s.position ≡ testing
      → s.running ≡ true
      → ThreadStep s (record s { position = accepting })
  leave_loop :
      (s : Threads)
      → s.position ≡ testing
      → s.running ≡ false
      → ThreadStep s (record s { position = checking })
  accept : (s : Threads) → s.position ≡ accepting → ThreadStep s (record s { position = counting })
  refuse : (s : Threads) → s.position ≡ accepting → ThreadStep s (record s { position = testing })
  increment :
      (s : Threads)
      → s.position ≡ counting
      → ThreadStep s (record s { active_handlers = suc s.active_handlers; position = spawning })
  spawn :
      (s : Threads)
      → s.position ≡ spawning
      → ThreadStep s (record s { serving = suc s.serving; position = testing })
  die : (s : Threads) (k : ℕ) → s.serving ≡ suc k → ThreadStep s (record s { running = false })
  finish :
      (s : Threads) (k : ℕ)
      → s.serving ≡ suc k
      → ThreadStep s (record s { serving = k; ending = suc s.ending })
  decrement :
      (s : Threads) (k a : ℕ)
      → s.ending ≡ suc k
      → s.active_handlers ≡ suc a
      → ThreadStep s (record s { active_handlers = a; ending = k; leaving = suc s.leaving })
  notify :
      (s : Threads) (k : ℕ)
      → s.leaving ≡ suc k
      → ThreadStep s (record s { leaving = k; position = woken s.position })
  return :
      (s : Threads)
      → s.position ≡ checking
      → s.active_handlers ≡ 0
      → ThreadStep s (record s { position = done })
  see_handlers :
      (s : Threads)
      → s.position ≡ checking
      → s.active_handlers ≢ 0
      → ThreadStep s (record s { position = falling_asleep })
  sleep :
      (s : Threads) → s.position ≡ falling_asleep → ThreadStep s (record s { position = asleep })
  wake : (s : Threads) → s.position ≡ asleep → ThreadStep s (record s { position = checking })

pub data Schedule (s : Threads) : Threads → Type 0 where
  here : Schedule s s
  next : {t u : Threads} → Schedule s t → ThreadStep t u → Schedule s u

-- `start`, behind `running_ = true`.
abbrev pub just_started : Threads
just_started = record {
  running = true;
  active_handlers = 0;
  serving = 0;
  ending = 0;
  leaving = 0;
  position = testing;
}

-- A handler that is counted and whose thread is not made yet.
abbrev pub to_spawn : Position → ℕ
to_spawn testing = 0
to_spawn accepting = 0
to_spawn counting = 0
to_spawn spawning = 1
to_spawn checking = 0
to_spawn falling_asleep = 0
to_spawn asleep = 0
to_spawn done = 0

abbrev pub IsQuiet : Position → ℕ → Type 0
IsQuiet testing handlers = Unit
IsQuiet accepting handlers = Unit
IsQuiet counting handlers = Unit
IsQuiet spawning handlers = Unit
IsQuiet checking handlers = Unit
IsQuiet falling_asleep handlers = Unit
IsQuiet asleep handlers = Unit
IsQuiet done handlers = handlers ≡ 0

-- The counter is the number of the handlers that have not decremented it, those included whose thread
-- is still to be made, and there is none of them when `start` has returned.
pub record IsCounted (s : Threads) : Type 0 where
  pub counted : s.active_handlers ≡ s.serving + s.ending + to_spawn s.position
  pub quiet : IsQuiet s.position (s.serving + s.ending)

woken-IsQuiet : (p : Position) (n : ℕ) → IsQuiet p n → IsQuiet (woken p) n
woken-IsQuiet testing n h = tt
woken-IsQuiet accepting n h = tt
woken-IsQuiet counting n h = tt
woken-IsQuiet spawning n h = tt
woken-IsQuiet checking n h = tt
woken-IsQuiet falling_asleep n h = tt
woken-IsQuiet asleep n h = tt
woken-IsQuiet done n h = h

to_spawn-woken : (p : Position) → to_spawn (woken p) ≡ to_spawn p
to_spawn-woken testing = refl
to_spawn-woken accepting = refl
to_spawn-woken counting = refl
to_spawn-woken spawning = refl
to_spawn-woken checking = refl
to_spawn-woken falling_asleep = refl
to_spawn-woken asleep = refl
to_spawn-woken done = refl

-- It stays so while the handlers become no more.
fewer-IsQuiet : (p : Position) (n k : ℕ) → k ≤ n → IsQuiet p n → IsQuiet p k
fewer-IsQuiet testing n k e h = tt
fewer-IsQuiet accepting n k e h = tt
fewer-IsQuiet counting n k e h = tt
fewer-IsQuiet spawning n k e h = tt
fewer-IsQuiet checking n k e h = tt
fewer-IsQuiet falling_asleep n k e h = tt
fewer-IsQuiet asleep n k e h = tt
fewer-IsQuiet done n k e h = omega arith

ThreadStep-IsCounted : {s t : Threads} → ThreadStep s t → IsCounted s → IsCounted t
ThreadStep-IsCounted (loop s at up) h = record {
  counted = omega (arith, h.counted, ap to_spawn at);
  quiet = tt;
}
ThreadStep-IsCounted (leave_loop s at down) h = record {
  counted = omega (arith, h.counted, ap to_spawn at);
  quiet = tt;
}
ThreadStep-IsCounted (accept s at) h = record {
  counted = omega (arith, h.counted, ap to_spawn at);
  quiet = tt;
}
ThreadStep-IsCounted (refuse s at) h = record {
  counted = omega (arith, h.counted, ap to_spawn at);
  quiet = tt;
}
ThreadStep-IsCounted (increment s at) h = record {
  counted = omega (arith, h.counted, ap to_spawn at);
  quiet = tt;
}
ThreadStep-IsCounted (spawn s at) h = record {
  counted = omega (arith, h.counted, ap to_spawn at);
  quiet = tt;
}
ThreadStep-IsCounted (die s k busy) h = record { counted = h.counted; quiet = h.quiet }
ThreadStep-IsCounted (finish s k busy) h = record {
  counted = omega (arith, h.counted, busy);
  quiet =
      fewer-IsQuiet s.position (s.serving + s.ending) (k + suc s.ending) (omega (arith, busy))
        h.quiet;
}
ThreadStep-IsCounted (decrement s k a busy count) h = record {
  counted = omega (arith, h.counted, busy, count);
  quiet =
      fewer-IsQuiet s.position (s.serving + s.ending) (s.serving + k) (omega (arith, busy)) h.quiet;
}
ThreadStep-IsCounted (notify s k last) h = record {
  counted = omega (arith, h.counted, to_spawn-woken s.position);
  quiet = woken-IsQuiet s.position (s.serving + s.ending) h.quiet;
}
ThreadStep-IsCounted (return s at empty) h = record {
  counted = omega (arith, h.counted, ap to_spawn at);
  quiet = omega (arith, h.counted, empty);
}
ThreadStep-IsCounted (see_handlers s at some_handler) h = record {
  counted = omega (arith, h.counted, ap to_spawn at);
  quiet = tt;
}
ThreadStep-IsCounted (sleep s at) h = record {
  counted = omega (arith, h.counted, ap to_spawn at);
  quiet = tt;
}
ThreadStep-IsCounted (wake s at) h = record {
  counted = omega (arith, h.counted, ap to_spawn at);
  quiet = tt;
}

-- Whatever the threads do, in whatever order: `activeHandlers_` is the number of handlers that are
-- counted and have not decremented it, be their thread still to be made, in `handleClient` or behind
-- it, and when `start` has returned there is none of them.
pub Schedule-IsCounted : {t : Threads} → Schedule just_started t → IsCounted t
Schedule-IsCounted here = record { counted = refl; quiet = tt }
Schedule-IsCounted (next run step) = ThreadStep-IsCounted step (Schedule-IsCounted run)
