-- ===== src/Metadata/Threads/Kept.antt =====
-- What holds of a metadata node in every run of its threads.
use distributed_file_storage.Base.{◌≡◌, refl, sym, ◌∙◌, true, Bytes, arith}
use distributed_file_storage.Base.Int.{ℤ}
use distributed_file_storage.Metadata.{
  Link, MetadataNode, Exchange, is_set, handle_command, handle_next_node_failure,
}
use distributed_file_storage.Metadata.Commands.{IsKept, KeepsNext, handle_command_keeps}
use distributed_file_storage.Metadata.Roles.{
  IsLinked, handle_command-IsLinked, handle_next_node_failure-IsLinked,
}
use distributed_file_storage.Metadata.Threads.{
  failing, NodeThreads, NodeStep, turns, handles, dies, health_sleeps, health_ends, health_wakes,
  health_alone, health_answered, health_unanswered, health_recovers, NodeRun, begins, goes_on,
  started_node,
}
use distributed_file_storage.Storage.Lifecycle.{
  Schedule, here, next, die, IsCounted, Schedule-IsCounted,
}

-- No command of the step takes the next node away.
abbrev pub StepKeepsNext : {s t : NodeThreads} → NodeStep s t → Type 0
StepKeepsNext (turns s t step same) = Unit
StepKeepsNext (handles s k e command busy up) = KeepsNext command
StepKeepsNext (dies s k e command busy down) = KeepsNext command
StepKeepsNext (health_sleeps s at up) = Unit
StepKeepsNext (health_ends s at down) = Unit
StepKeepsNext (health_wakes s at) = Unit
StepKeepsNext (health_alone s at unset) = Unit
StepKeepsNext (health_answered s e at set up) = Unit
StepKeepsNext (health_unanswered s e at set down) = Unit
StepKeepsNext (health_recovers s at) = Unit

abbrev pub RunKeepsNext : {s t : NodeThreads} → NodeRun s t → Type 0
RunKeepsNext begins = Unit
RunKeepsNext (goes_on run step) = RunKeepsNext run × StepKeepsNext step

HasNext : MetadataNode → Type 0
HasNext n = is_set n.next_node ≡ true

HasNext-IsKept : IsKept HasNext
unfolding HasNext
HasNext-IsKept = record {
  stored = λ meta n h. h;
  prev_set = λ link n h. h;
  next_set = λ link n named h. named;
  skip_set = λ link n h. h;
  stopped = λ n h. h;
}

keeps-HasNext :
    (e : Exchange) (command : Bytes) (n : MetadataNode)
    → KeepsNext command
    → is_set n.next_node ≡ true
    → is_set (handle_command e command n).node.next_node ≡ true
unfolding HasNext
keeps-HasNext e command n kept h = handle_command_keeps HasNext HasNext-IsKept e command n kept h

-- The next node whose ping failed is there, or another in its place.
abbrev pub FailsWithNext : NodeThreads → Type 0
FailsWithNext s = s.health ≡ failing → is_set s.node.next_node ≡ true

-- The role goes with the link, and the node and its threads have one flag.
pub record IsSound (s : NodeThreads) : Type 0 where
  pub linked : IsLinked s.node
  pub same_flag : s.threads.running ≡ s.node.running
  pub with_next : FailsWithNext s

failure_running : (n : MetadataNode) → (handle_next_node_failure n).0.running ≡ n.running
unfolding handle_next_node_failure
failure_running n = ground arith

NodeStep-IsSound :
    {s t : NodeThreads} (step : NodeStep s t) → StepKeepsNext step → IsSound s → IsSound t
NodeStep-IsSound (turns s t step same) kept h = record {
  linked = h.linked;
  same_flag = same ∙ h.same_flag;
  with_next = h.with_next;
}
NodeStep-IsSound (handles s k e command busy up) kept h = record {
  linked = handle_command-IsLinked e command s.node kept h.linked;
  same_flag = h.same_flag ∙ sym up;
  with_next = λ at. keeps-HasNext e command s.node kept (h.with_next at);
}
NodeStep-IsSound (dies s k e command busy down) kept h = record {
  linked = handle_command-IsLinked e command s.node kept h.linked;
  same_flag = sym down;
  with_next = λ at. keeps-HasNext e command s.node kept (h.with_next at);
}
NodeStep-IsSound (health_sleeps s at up) kept h = record {
  linked = h.linked;
  same_flag = h.same_flag;
  with_next = λ fails. cc;
}
NodeStep-IsSound (health_ends s at down) kept h = record {
  linked = h.linked;
  same_flag = h.same_flag;
  with_next = λ fails. cc;
}
NodeStep-IsSound (health_wakes s at) kept h = record {
  linked = h.linked;
  same_flag = h.same_flag;
  with_next = λ fails. cc;
}
NodeStep-IsSound (health_alone s at unset) kept h = record {
  linked = h.linked;
  same_flag = h.same_flag;
  with_next = λ fails. cc;
}
NodeStep-IsSound (health_answered s e at set up) kept h = record {
  linked = h.linked;
  same_flag = h.same_flag;
  with_next = λ fails. cc;
}
NodeStep-IsSound (health_unanswered s e at set down) kept h = record {
  linked = h.linked;
  same_flag = h.same_flag;
  with_next = λ fails. set;
}
NodeStep-IsSound (health_recovers s at) kept h = record {
  linked = handle_next_node_failure-IsLinked s.node (h.with_next at) h.linked;
  same_flag = h.same_flag ∙ sym (failure_running s.node);
  with_next = λ fails. cc;
}

NodeRun-IsSound : {s t : NodeThreads} (run : NodeRun s t) → RunKeepsNext run → IsSound s → IsSound t
NodeRun-IsSound begins kept h = h
NodeRun-IsSound (goes_on run step) (kept, last) h =
    NodeStep-IsSound step last (NodeRun-IsSound run kept h)

started_node-IsSound : (link : Link) (port : ℤ) → IsSound (started_node link port)
started_node-IsSound link port = record {
  linked = ground arith;
  same_flag = refl;
  with_next = λ fails. cc;
}

-- The threads of the accept loop do as they do on a storage node.
NodeRun-Schedule : {s t : NodeThreads} → NodeRun s t → Schedule s.threads t.threads
NodeRun-Schedule begins = here
NodeRun-Schedule (goes_on run (turns s t step same)) = next (NodeRun-Schedule run) step
NodeRun-Schedule (goes_on run (handles s k e command busy up)) = NodeRun-Schedule run
NodeRun-Schedule (goes_on run (dies s k e command busy down)) =
    next (NodeRun-Schedule run) (die s.threads k busy)
NodeRun-Schedule (goes_on run (health_sleeps s at up)) = NodeRun-Schedule run
NodeRun-Schedule (goes_on run (health_ends s at down)) = NodeRun-Schedule run
NodeRun-Schedule (goes_on run (health_wakes s at)) = NodeRun-Schedule run
NodeRun-Schedule (goes_on run (health_alone s at unset)) = NodeRun-Schedule run
NodeRun-Schedule (goes_on run (health_answered s e at set up)) = NodeRun-Schedule run
NodeRun-Schedule (goes_on run (health_unanswered s e at set down)) = NodeRun-Schedule run
NodeRun-Schedule (goes_on run (health_recovers s at)) = NodeRun-Schedule run

-- Whatever the threads of a metadata node do, in whatever order, from its start on, provided that no
-- UPDATE_NEXT has the port -1: its role is TAIL or SINGLE just when it has no next node, when its
-- health check is about to replace the next node there is one to replace, and `activeHandlers_` is
-- the number of the handlers.
pub NodeRun-IsLinked :
    {t : NodeThreads} (link : Link) (port : ℤ) (run : NodeRun (started_node link port) t)
    → RunKeepsNext run
    → IsLinked t.node × FailsWithNext t × IsCounted t.threads
NodeRun-IsLinked link port run kept =
    let sound = NodeRun-IsSound run kept (started_node-IsSound link port) in
    (sound.linked, sound.with_next, Schedule-IsCounted (NodeRun-Schedule run))
