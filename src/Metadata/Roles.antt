-- ===== src/Metadata/Roles.antt =====
-- The role of a node and its link to the next.
use distributed_file_storage.Base.{
  ◌≡◌, sym, ◌∙◌, Bool-cases, inl, inr, true, false, List, [], ◌∷◌, Bytes, All, arith, if◌then◌else◌,
}
use distributed_file_storage.Base.Equality.{Bytes_eq}
use distributed_file_storage.Base.Int.{ℤ}
use distributed_file_storage.Metadata.Commands.{IsKept, KeepsNext, handle_command_keeps}
use distributed_file_storage.Metadata.{
  MetadataNode, Exchange, Link, is_last, is_set, new_node, handle_command, handle_next_node_failure,
  ping_next, health_check,
}

-- A node has a next node just when its role is not that of the last one.
abbrev pub IsLinked : MetadataNode → Type 0
IsLinked n = is_set n.next_node ≡ (if is_last n.role then false else true)

IsLinked-IsKept : IsKept IsLinked
IsLinked-IsKept = record {
  stored = λ meta n h. h;
  prev_set = λ link n h. ground arith;
  next_set = λ link n named h. ground arith;
  skip_set = λ link n h. h;
  stopped = λ n h. h;
}

pub handle_command-IsLinked :
    (e : Exchange) (command : Bytes) (n : MetadataNode)
    → KeepsNext command
    → IsLinked n
    → IsLinked (handle_command e command n).node
handle_command-IsLinked e command n kept h =
    handle_command_keeps IsLinked IsLinked-IsKept e command n kept h

pub handle_next_node_failure-IsLinked :
    (n : MetadataNode)
    → is_set n.next_node ≡ true
    → IsLinked n
    → IsLinked (handle_next_node_failure n).0
unfolding handle_next_node_failure
handle_next_node_failure-IsLinked n next h = elim (Bool-cases (is_set n.skip_to)) [
  | inl skip ↦ rw skip (skip ∙ sym next ∙ h)
  | inr absent ↦ rw absent (ground arith)
]

pub health_check-IsLinked :
    (e : Exchange) (n : MetadataNode) → IsLinked n → IsLinked (health_check e n).0
unfolding health_check
health_check-IsLinked e n h = elim (Bool-cases (is_set n.next_node)) [
  | inr absent ↦ rw absent h
  | inl next ↦ rw next (elim (Bool-cases (ping_next e)) [
    | inl up ↦ rw up h
    | inr down ↦ rw down (handle_next_node_failure-IsLinked n next h)
  ])
]

-- What happens to a node: a command comes in, or its health check is due. `Exchange` is what the
-- next node makes of the forwarded command, or of the ping.
pub data Event : Type 0 where
  commanded : Exchange → Bytes → Event
  checked : Exchange → Event

abbrev pub happens : Event → MetadataNode → MetadataNode
happens (commanded e command) n = (handle_command e command n).node
happens (checked e) n = (health_check e n).0

abbrev pub run_events : List Event → MetadataNode → MetadataNode
run_events [] n = n
run_events (event ∷ events) n = run_events events (happens event n)

abbrev pub EventKeepsNext : Event → Type 0
EventKeepsNext (commanded e command) = KeepsNext command
EventKeepsNext (checked e) = Unit

happens-IsLinked :
    (event : Event) (n : MetadataNode)
    → EventKeepsNext event
    → IsLinked n
    → IsLinked (happens event n)
happens-IsLinked (commanded e command) n kept h = handle_command-IsLinked e command n kept h
happens-IsLinked (checked e) n kept h = health_check-IsLinked e n h

run_events-IsLinked :
    (events : List Event) (n : MetadataNode)
    → All EventKeepsNext events
    → IsLinked n
    → IsLinked (run_events events n)
run_events-IsLinked [] n kept h = h
run_events-IsLinked (event ∷ events) n (k, kept) h =
    run_events-IsLinked events (happens event n) kept (happens-IsLinked event n k h)

-- Whatever commands and health checks a node has gone through since it was made, its role is TAIL or
-- SINGLE just when it has no next node, provided that no UPDATE_NEXT had the port -1.
pub reachable-IsLinked :
    (next : Link) (port : ℤ) (events : List Event)
    → All EventKeepsNext events
    → IsLinked (run_events events (new_node next port))
reachable-IsLinked next port events kept =
    run_events-IsLinked events (new_node next port) kept (ground arith)
