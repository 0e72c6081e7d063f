-- ===== src/Metadata/Threads/Failures.antt =====
-- The health check against the other threads: a command may come in between a ping and what it leads
-- to, and `start` does not wait for the health check.
use distributed_file_storage.Base.{
  ℕ, suc, ◌≡◌, [], refl, ap, ◌∙◌, true, false, some, Bytes, arith, codes,
}
use distributed_file_storage.Base.Equality.{Bytes_eq, bytes_eq}
use distributed_file_storage.Base.Int.{ℤ}
use distributed_file_storage.Streams.{read_word}
use distributed_file_storage.Metadata.{
  Link, MetadataNode, Exchange, no_link, new_node, is_last, is_set, read_link, dispatch,
  handle_command, handle_next_node_failure,
}
use distributed_file_storage.Metadata.Commands.{next_changed}
use distributed_file_storage.Metadata.Threads.{
  looping, sleeping, pinging, failing, NodeThreads, health_wakes, NodeStep, turns, handles, dies,
  health_sleeps, started_node, health_recovers, NodeRun, begins, goes_on,
}
use distributed_file_storage.Storage.Lifecycle.{
  done, loop, leave_loop, accept, increment, spawn, finish, decrement, notify, return,
}

-- What a command that asks no other node gets from one.
abbrev unheard : Exchange
unheard = record { connects = false; sends = false; response = [] }

-- The command is an UPDATE_NEXT with this link.
abbrev pub IsUpdateNext : Bytes → Link → Type 0
IsUpdateNext command link =
    (s : Bytes) × (read_word command ≡ some (codes "UPDATE_NEXT", s)) × (read_link s ≡ some link)

handle_update_next :
    (e : Exchange) (command : Bytes) (link : Link) (n : MetadataNode)
    → IsUpdateNext command link
    → (handle_command e command n).node ≡ next_changed n link
unfolding handle_command dispatch bytes_eq
handle_update_next e command link n (s, first, rest) = rw (first, rest) refl

failure_alone :
    (n : MetadataNode)
    → is_set n.skip_to ≡ false
    → ((handle_next_node_failure n).0.next_node ≡ no_link)
      × (is_last (handle_next_node_failure n).0.role ≡ true)
unfolding handle_next_node_failure
failure_alone n alone = ground arith

-- Let a ping of the next node have failed, on a node that has no skip node, and let a handler be
-- about to do an UPDATE_NEXT. Then there is a run in which the handler puts the new next node in, and
-- the health check takes it away at once, without a ping of it: the node is left without a next node,
-- as TAIL or SINGLE.
pub new_next_dropped :
    (s : NodeThreads) (k : ℕ) (e : Exchange) (command : Bytes) (link : Link)
    → s.health ≡ failing
    → s.threads.serving ≡ suc k
    → is_set s.node.skip_to ≡ false
    → IsUpdateNext command link
    → (t : NodeThreads) × (u : NodeThreads) × NodeRun s t
      × (t.node.next_node ≡ link)
      × NodeStep t u
      × (u.node.next_node ≡ no_link)
      × (is_last u.node.role ≡ true)
new_next_dropped s k e command link at busy alone update =
    let after = handle_update_next e command link s.node update in
    let t : NodeThreads = record s { node = (handle_command e command s.node).node } in
    let u : NodeThreads = record t {
      health = looping;
      node = (handle_next_node_failure t.node).0;
    } in
    let (dropped, last) = failure_alone t.node (ap (λ n. is_set n.skip_to) after ∙ alone) in
    (
      t,
      u,
      goes_on begins (handles s k e command busy (ap (λ n. n.running) after)),
      ap (λ n. n.next_node) after,
      health_recovers t at,
      dropped,
      last,
    )

die_stops :
    (e : Exchange) (n : MetadataNode) → (handle_command e (codes "DIE") n).node.running ≡ false
unfolding handle_command dispatch bytes_eq read_word
die_stops e n = refl

-- A client connects and sends DIE, its handler ends, and `start` returns, while the health check is
-- in its sleep.
stopped_asleep :
    (next : Link) (port : ℤ)
    → (t : NodeThreads) × NodeRun (started_node next port) t
      × (t.threads.position ≡ done)
      × (t.health ≡ sleeping)
stopped_asleep next_node port =
    let served =
      goes_on
        (goes_on
          (goes_on
            (goes_on (goes_on begins (health_sleeps (started_node next_node port) refl refl))
              (turns _ _ (loop _ refl refl) refl))
            (turns _ _ (accept _ refl) refl))
          (turns _ _ (increment _ refl) refl))
        (turns _ _ (spawn _ refl) refl) in
    let told =
      goes_on served
        (dies _ 0 unheard (codes "DIE") refl (die_stops unheard (new_node next_node port))) in
    let left =
      goes_on
        (goes_on (goes_on told (turns _ _ (finish _ 0 refl) refl))
          (turns _ _ (decrement _ 0 0 refl refl) refl))
        (turns _ _ (notify _ 0 refl) refl) in
    (
      _,
      goes_on (goes_on left (turns _ _ (leave_loop _ refl refl) refl))
          (turns _ _ (return _ refl refl) refl),
      refl,
      refl,
    )

-- Every metadata node that is started can get to where `start` has returned and the health check is
-- still there: its next step is to look at the members of the node.
pub health_outlives_start :
    (next : Link) (port : ℤ)
    → (t : NodeThreads) × (u : NodeThreads) × NodeRun (started_node next port) t
      × (t.threads.position ≡ done)
      × NodeStep t u
      × (u.health ≡ pinging)
health_outlives_start next_node port =
    let (t, run, returned, asleep) = stopped_asleep next_node port in
    (t, record t { health = pinging }, run, returned, health_wakes t asleep, refl)
