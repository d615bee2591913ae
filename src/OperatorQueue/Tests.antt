-- ===== src/OperatorQueue/Tests.antt =====
-- Runs of the queue at concrete messages.
use local_agent.Base.{len, ltb, ◌≡◌, [], ◌∷◌, ◌≤◌, ℕ, true, false, arith}
use text.Mathlib.Text.{is_char_boundary}
use text.Mathlib.TextBridge.{IsPrefix}
use local_agent.OperatorQueue.{
  steer, follow_up, post_tool, default_limits, PendingMessageQueue, QueuedOperatorMessage, submit,
  truncate_utf8_to_bytes, deliver_at_boundary, QueueMessageKind,
}
use local_agent.OperatorQueue.Truncate.{truncate_utf8_to_bytes_longest}
use local_agent.OperatorQueue.Delivery.{
  deliver-refines, submit-refines, lanes, take_lane, push_lane, IsQueued,
}
use local_agent.OperatorQueue.Search.{IsOrdered}

-- A follow-up that waits before a steer.
abbrev message : ℕ → QueueMessageKind → QueuedOperatorMessage
message n kind = record {
  queue_id = n;
  sequence_no = n;
  kind = kind;
  content = "stop";
  bytes_loaded = 4;
  bytes_kept = 4;
  truncated = false;
}

abbrev two_waiting : PendingMessageQueue
two_waiting = record {
  next_sequence_no = 3;
  next_id_counter = 3;
  pending = message 1 follow_up ∷ message 2 steer ∷ [];
}

two_waiting-IsOrdered : IsOrdered two_waiting
two_waiting-IsOrdered = (omega arith, (omega arith, omega arith))

-- Three bytes do not cut the second of two letters that take two bytes each.
truncate_utf8_to_bytes_longest_example :
    IsPrefix (truncate_utf8_to_bytes "éé" 3).0 "éé"
    × (len (truncate_utf8_to_bytes "éé" 3).0 ≤ 3)
    × ((i : ℕ)
        → i ≤ 3
        → i ≤ len "éé"
        → is_char_boundary "éé" i ≡ true
        → i ≤ len (truncate_utf8_to_bytes "éé" 3).0)
    × ((truncate_utf8_to_bytes "éé" 3).1 ≡ ltb 3 (len "éé"))
truncate_utf8_to_bytes_longest_example = truncate_utf8_to_bytes_longest "éé" 3

deliver-refines_example :
    ((deliver_at_boundary two_waiting post_tool).0
      ≡ (take_lane post_tool (lanes two_waiting).steers (lanes two_waiting).follow_ups).0)
    × (lanes (deliver_at_boundary two_waiting post_tool).1
        ≡ (take_lane post_tool (lanes two_waiting).steers (lanes two_waiting).follow_ups).1)
deliver-refines_example = deliver-refines two_waiting post_tool two_waiting-IsOrdered

submit-refines_example :
    (lanes (submit two_waiting steer "now" default_limits).0
      ≡ push_lane steer (submit two_waiting steer "now" default_limits).1 (lanes two_waiting))
    × IsQueued two_waiting steer "now" default_limits
        (submit two_waiting steer "now" default_limits).1
    × IsOrdered (submit two_waiting steer "now" default_limits).0
submit-refines_example =
    submit-refines two_waiting steer "now" default_limits two_waiting-IsOrdered (omega arith)
