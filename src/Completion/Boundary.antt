-- ===== src/Completion/Boundary.antt =====
-- The delivery of queued messages (src/agent/operator_queue.rs), and the readback of a written path
-- (`verify_post_write_path` of src/agent/tool_helpers.rs).
use local_agent.Base.{
  ℕ, String, Bool, true, false, Option, none, some, List, [], ◌∷◌, concat, decimal, unwrap_or, ◌==◌,
  if◌then◌else◌,
}
use local_agent.Types.{user, Message}
use local_agent.OperatorQueue.{
  PendingMessageQueue, QueueDelivery, DeliveryBoundary, deliver_at_boundary,
}
use local_agent.ToolFacts.{ToolExecutionRecord}
use local_agent.RunPhase.{operator_boundary_transition_decision}
use local_agent.Completion.Run.{
  Agent, Event, Readback, Run, completion_blocked, emit, interrupt_raised, phase_entered,
  phase_exited, post_write_verify_end, post_write_verify_start, push_message, queue_delivered,
  queue_interrupt, timed_out, was_read,
}

abbrev pub operator_message : QueueDelivery → Message
operator_message delivery = record {
  role = user;
  content = some delivery.message.content;
  tool_call_id = none;
  tool_name = none;
  tool_calls = none;
}

abbrev pub interrupt_events : QueueDelivery → List Event
interrupt_events delivery =
    let transition = operator_boundary_transition_decision in
    queue_interrupt delivery
    ∷ interrupt_raised transition.interrupt_kind
        (unwrap_or delivery.cancelled_reason "operator_steer")
    ∷ phase_exited transition.from_phase transition.to_phase
    ∷ phase_entered transition.to_phase
    ∷ completion_blocked transition.completion_reason transition.to_phase
    ∷ []

abbrev pub deliver_to_run : Option QueueDelivery × PendingMessageQueue → Run → Bool × Bool × Run
deliver_to_run (none, queue) run = (false, false, record run { operator_queue = queue })
deliver_to_run (some delivery, queue) run =
    let delivered =
      push_message (operator_message delivery)
        (emit (queue_delivered delivery ∷ []) (record run { operator_queue = queue })) in
    if delivery.cancelled_remaining_work
    then (true, true, emit (interrupt_events delivery) delivered)
    else (true, false, delivered)

-- Whether a message was delivered, and whether it interrupts the turn.
unfoldable pub deliver_operator_queue_at_boundary : DeliveryBoundary → Run → Bool × Bool × Run
deliver_operator_queue_at_boundary boundary run =
    deliver_to_run (deliver_at_boundary run.operator_queue boundary) run

abbrev pub effective_post_write_verify_timeout_ms : Agent → ℕ
effective_post_write_verify_timeout_ms agent =
    if agent.post_write_verify_timeout_ms == 0 then 5000 else agent.post_write_verify_timeout_ms

pub data Verified : Type 0 where
  verified : ToolExecutionRecord → Verified
  not_verified : (reason : String) → Verified

abbrev pub readback_record : String → ToolExecutionRecord
readback_record path = record { name = "read_file"; path = some path; ok = true; changed = none }

abbrev pub verify_by : Readback → String → ℕ → Run → Verified × Run
verify_by timed_out path timeout_ms run = (
  not_verified (
      concat (
        "implementation guard: runtime post-write verification timed out on read_file for '"
        ∷ path
        ∷ "' after "
        ∷ decimal timeout_ms
        ∷ "ms"
        ∷ [])),
  emit (post_write_verify_end path false "timeout" ∷ []) run,
)
verify_by (was_read ok content) path timeout_ms run =
    if ok
    then (verified (readback_record path), emit (post_write_verify_end path true "ok" ∷ []) run)
    else (
      not_verified (
          concat (
            "implementation guard: runtime post-write verification failed read_file on '" ∷ path
            ∷ "': " ∷ content ∷ [])),
      emit (post_write_verify_end path false "failed" ∷ []) run,
    )

unfoldable pub verify_post_write_path : Agent → String → Run → Verified × Run
verify_post_write_path agent path run =
    let timeout_ms = effective_post_write_verify_timeout_ms agent in
    verify_by (agent.read_file path) path timeout_ms
      (emit (post_write_verify_start path timeout_ms ∷ []) run)
