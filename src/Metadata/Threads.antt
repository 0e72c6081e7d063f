-- ===== src/Metadata/Threads.antt =====
-- The threads of `MetadataNode::start`: those of the accept loop, which has the lines of
-- `StorageNode::start`, and the thread of `healthCheckLoop`, which is detached and not counted.
pub mod Kept
pub mod Failures
use distributed_file_storage.Base.{ℕ, suc, ◌≡◌, Bool, true, false, Bytes}
use distributed_file_storage.Base.Int.{ℤ}
use distributed_file_storage.Metadata.{
  Link, MetadataNode, Exchange, new_node, is_set, handle_command, ping_next,
  handle_next_node_failure,
}
use distributed_file_storage.Storage.Lifecycle.{Threads, ThreadStep, just_started}

-- Where `healthCheckLoop` stands: at `while (running_)`, in `sleep_for`, at the test of
-- `nextNodePort_` and the ping, behind a ping that failed, or behind the loop.
pub data Health : Type 0 where
  looping : Health
  sleeping : Health
  pinging : Health
  failing : Health
  ended : Health

pub record NodeThreads : Type 0 where
  pub threads : Threads
  pub health : Health
  pub node : MetadataNode

-- `running_` stands in the node and in the threads. A handler runs its command in one step, by
-- `chainMutex_` or `storeMutex_`.
pub data NodeStep : NodeThreads → NodeThreads → Type 0 where
  turns :
      (s : NodeThreads) (t : Threads)
      → ThreadStep s.threads t
      → t.running ≡ s.threads.running
      → NodeStep s (record s { threads = t })
  handles :
      (s : NodeThreads) (k : ℕ) (e : Exchange) (command : Bytes)
      → s.threads.serving ≡ suc k
      → (handle_command e command s.node).node.running ≡ s.node.running
      → NodeStep s (record s { node = (handle_command e command s.node).node })
  dies :
      (s : NodeThreads) (k : ℕ) (e : Exchange) (command : Bytes)
      → s.threads.serving ≡ suc k
      → (handle_command e command s.node).node.running ≡ false
      → NodeStep s (record s {
        node = (handle_command e command s.node).node;
        threads = record s.threads { running = false };
      })
  health_sleeps :
      (s : NodeThreads)
      → s.health ≡ looping
      → s.threads.running ≡ true
      → NodeStep s (record s { health = sleeping })
  health_ends :
      (s : NodeThreads)
      → s.health ≡ looping
      → s.threads.running ≡ false
      → NodeStep s (record s { health = ended })
  health_wakes :
      (s : NodeThreads) → s.health ≡ sleeping → NodeStep s (record s { health = pinging })
  health_alone :
      (s : NodeThreads)
      → s.health ≡ pinging
      → is_set s.node.next_node ≡ false
      → NodeStep s (record s { health = looping })
  health_answered :
      (s : NodeThreads) (e : Exchange)
      → s.health ≡ pinging
      → is_set s.node.next_node ≡ true
      → ping_next e ≡ true
      → NodeStep s (record s { health = looping })
  health_unanswered :
      (s : NodeThreads) (e : Exchange)
      → s.health ≡ pinging
      → is_set s.node.next_node ≡ true
      → ping_next e ≡ false
      → NodeStep s (record s { health = failing })
  health_recovers :
      (s : NodeThreads)
      → s.health ≡ failing
      → NodeStep s (record s { health = looping; node = (handle_next_node_failure s.node).0 })

pub data NodeRun (s : NodeThreads) : NodeThreads → Type 0 where
  begins : NodeRun s s
  goes_on : {t u : NodeThreads} → NodeRun s t → NodeStep t u → NodeRun s u

-- The constructor and `start` up to its loop.
abbrev pub started_node : Link → ℤ → NodeThreads
started_node next port = record {
  threads = just_started;
  health = looping;
  node = new_node next port;
}
