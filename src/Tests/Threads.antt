-- ===== src/Tests/Threads.antt =====
-- One client that connects, and a DIE.
use distributed_file_storage.Base.{◌≡◌, refl, true, false, [], codes}
use distributed_file_storage.Base.Int.{pos}
use distributed_file_storage.Streams.{read_word, read_int}
use distributed_file_storage.Metadata.{
  Link, Exchange, no_link, is_last, new_node, ping_next, read_link,
}
use distributed_file_storage.Metadata.Roles.{IsLinked}
use distributed_file_storage.Metadata.Threads.{
  pinging, failing, NodeThreads, NodeStep, turns, health_sleeps, health_wakes, health_unanswered,
  NodeRun, begins, goes_on, started_node,
}
use distributed_file_storage.Metadata.Threads.Kept.{FailsWithNext, NodeRun-IsLinked}
use distributed_file_storage.Metadata.Threads.Failures.{
  IsUpdateNext, new_next_dropped, health_outlives_start,
}
use distributed_file_storage.Storage.Lifecycle.{
  testing, done, checking, asleep, Threads, loop, leave_loop, accept, increment, spawn, refuse, die,
  Schedule, here, next, just_started, IsCounted, Schedule-IsCounted,
}
use distributed_file_storage.Storage.Wakeup.{threads_at, lost_wakeup}

abbrev one_client : Threads
one_client = threads_at checking false 1 0

one_client_run : Schedule just_started one_client
one_client_run =
    next
      (next
        (next
          (next
            (next (next (next (next here (loop _ refl refl)) (accept _ refl)) (increment _ refl))
              (spawn _ refl))
            (loop _ refl refl))
          (die _ 0 refl))
        (refuse _ refl))
      (leave_loop _ refl refl)

Schedule-IsCounted_example : IsCounted one_client
Schedule-IsCounted_example = Schedule-IsCounted one_client_run

lost_wakeup_example : Schedule one_client (threads_at asleep false 0 0)
lost_wakeup_example = lost_wakeup false 1 0 (λ e. cc)

-- A metadata node with a next one, and one client; the next node does not answer the ping.
abbrev next_link : Link
next_link = record { ip = codes "127.0.0.1"; port = pos 9002 }

abbrev silent_exchange : Exchange
silent_exchange = record { connects = false; sends = false; response = [] }

abbrev with_client : NodeThreads
with_client = record {
  threads = threads_at testing true 1 0;
  health = failing;
  node = new_node next_link (pos 9001);
}

ping_unanswered : ping_next silent_exchange ≡ false
unfolding ping_next
ping_unanswered = refl

abbrev with_client_run : NodeRun (started_node next_link (pos 9001)) with_client
with_client_run =
    goes_on
      (goes_on
        (goes_on
          (goes_on
            (goes_on
              (goes_on (goes_on begins (turns _ _ (loop _ refl refl) refl))
                (turns _ _ (accept _ refl) refl))
              (turns _ _ (increment _ refl) refl))
            (turns _ _ (spawn _ refl) refl))
          (health_sleeps _ refl refl))
        (health_wakes _ refl))
      (health_unanswered _ silent_exchange refl refl ping_unanswered)

NodeRun-IsLinked_example :
    IsLinked with_client.node × FailsWithNext with_client × IsCounted with_client.threads
NodeRun-IsLinked_example =
    NodeRun-IsLinked next_link (pos 9001) with_client_run
      (((((((tt, tt), tt), tt), tt), tt), tt), tt)

abbrev other_link : Link
other_link = record { ip = codes "127.0.0.1"; port = pos 9005 }

update_read : IsUpdateNext (codes "UPDATE_NEXT 127.0.0.1 9005") other_link
unfolding read_word read_int read_link
update_read = (codes " 127.0.0.1 9005", refl, refl)

new_next_dropped_example :
    (t : NodeThreads) × (u : NodeThreads) × NodeRun with_client t
    × (t.node.next_node ≡ other_link)
    × NodeStep t u
    × (u.node.next_node ≡ no_link)
    × (is_last u.node.role ≡ true)
new_next_dropped_example =
    new_next_dropped with_client 0 silent_exchange (codes "UPDATE_NEXT 127.0.0.1 9005") other_link
      refl refl refl update_read

health_outlives_start_example :
    (t : NodeThreads) × (u : NodeThreads) × NodeRun (started_node next_link (pos 9001)) t
    × (t.threads.position ≡ done)
    × NodeStep t u
    × (u.health ≡ pinging)
health_outlives_start_example = health_outlives_start next_link (pos 9001)
