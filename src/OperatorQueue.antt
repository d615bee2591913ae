-- ===== src/OperatorQueue.antt =====
-- src/operator_queue.rs: messages of the operator that wait for a boundary of the agent's turn.
pub mod Truncate
pub mod Search
pub mod Delivery
mod Tests
use mathlib.Core.Option
use local_agent.Base.{
  ℕ, zero, suc, ◌+◌, ◌-◌, ◌<◌, min, String, len, slice, Bool, true, false, not, ◌&&◌, Option, none,
  some, List, [], ◌∷◌, ◌++◌, leb, ltb, u64_max, saturating_add, get_elem?, remove_at, if◌then◌else◌,
}
use text.Mathlib.Text.{is_char_boundary}

pub data QueueMessageKind : Type 0 where
  steer follow_up : QueueMessageKind

pub data DeliveryBoundary : Type 0 where
  post_tool post_step turn_idle : DeliveryBoundary

pub user_phrase : DeliveryBoundary → String
user_phrase post_tool = "after current tool finishes"
user_phrase post_step = "after current step finishes"
user_phrase turn_idle = "after this turn completes"

-- `queue_id` is the text `q` followed by the decimal of the counter; here it is the counter.
pub record QueuedOperatorMessage : Type 0 where
  pub queue_id : ℕ
  pub sequence_no : ℕ
  pub kind : QueueMessageKind
  pub content : String
  pub bytes_loaded : ℕ
  pub bytes_kept : ℕ
  pub truncated : Bool

pub record QueueLimits : Type 0 where
  pub max_message_bytes : ℕ

abbrev pub default_limits : QueueLimits
default_limits = record { max_message_bytes = 1024 }

pub record PendingMessageQueue : Type 0 where
  pub next_sequence_no : ℕ
  pub next_id_counter : ℕ
  pub pending : List QueuedOperatorMessage

pub record QueueDelivery : Type 0 where
  pub message : QueuedOperatorMessage
  pub delivery_boundary : DeliveryBoundary
  pub cancelled_remaining_work : Bool
  pub cancelled_reason : Option String

abbrev pub new : PendingMessageQueue
new = record { next_sequence_no = 1; next_id_counter = 1; pending = [] }

pub clear : PendingMessageQueue → PendingMessageQueue
clear q = record q { pending = [] }

-- The `while` loop: it recurs on `end` itself, which falls by one each round.
pub back_to_boundary : String → ℕ → ℕ
back_to_boundary input zero = zero
back_to_boundary input (suc n) =
    let before = back_to_boundary input n in
    if is_char_boundary input (suc n) then suc n else before

pub truncate_utf8_to_bytes : String → ℕ → String × Bool
truncate_utf8_to_bytes input max_bytes =
    if leb (len input) max_bytes
    then (input, false)
    else (slice input 0 (back_to_boundary input (min max_bytes (len input))), true)

queued : PendingMessageQueue → QueueMessageKind → String → QueueLimits → QueuedOperatorMessage
queued q kind content limits =
    let (capped, truncated) = truncate_utf8_to_bytes content limits.max_message_bytes in
    record {
      queue_id = q.next_id_counter;
      sequence_no = q.next_sequence_no;
      kind = kind;
      content = capped;
      bytes_loaded = len content;
      bytes_kept = len capped;
      truncated = truncated;
    }

-- The new state, and the message that was queued.
pub submit :
    PendingMessageQueue
    → QueueMessageKind
    → String
    → QueueLimits
    → PendingMessageQueue × QueuedOperatorMessage
unfolding queued
submit q kind content limits =
    let msg = queued q kind content limits in
    (
      record {
        next_sequence_no = saturating_add u64_max q.next_sequence_no 1;
        next_id_counter = saturating_add u64_max q.next_id_counter 1;
        pending = q.pending ++ msg ∷ [];
      },
      msg,
    )

abbrev pub is_steer : QueuedOperatorMessage → Bool
is_steer m = elim m.kind [ steer ↦ true | follow_up ↦ false ]

abbrev pub is_follow_up : QueuedOperatorMessage → Bool
is_follow_up m = elim m.kind [ steer ↦ false | follow_up ↦ true ]

-- One step of `min_by_key`: `best` is the index and the number of the least so far, and of several
-- least numbers the first stays.
better :
    (QueuedOperatorMessage → Bool) → ℕ → Option (ℕ × ℕ) → QueuedOperatorMessage → Option (ℕ × ℕ)
better p idx none m = if p m then some (idx, m.sequence_no) else none
better p idx (some (i, least)) m =
    if p m && ltb m.sequence_no least then some (idx, m.sequence_no) else some (i, least)

-- `iter().enumerate().filter(p).min_by_key(sequence_no)`, from index `idx` on.
pub earliest :
    (QueuedOperatorMessage → Bool)
    → ℕ
    → Option (ℕ × ℕ)
    → List QueuedOperatorMessage
    → Option (ℕ × ℕ)
unfolding better
earliest p idx best [] = best
earliest p idx best (m ∷ rest) = earliest p (suc idx) (better p idx best m) rest

earliest_index : (QueuedOperatorMessage → Bool) → List QueuedOperatorMessage → Option ℕ
unfolding earliest
earliest_index p pending = Option.map (λ b. b.0) (earliest p 0 none pending)

at_turn_idle : DeliveryBoundary → Option ℕ → Option ℕ
at_turn_idle turn_idle o = o
at_turn_idle _ o = none

select_deliverable_index : List QueuedOperatorMessage → DeliveryBoundary → Option ℕ
unfolding earliest_index at_turn_idle
select_deliverable_index pending boundary = elim (earliest_index is_steer pending) [
  | some idx ↦ some idx
  | none ↦ at_turn_idle boundary (earliest_index is_follow_up pending)
]

delivery : DeliveryBoundary → QueuedOperatorMessage → QueueDelivery
delivery boundary msg = record {
  message = msg;
  delivery_boundary = boundary;
  cancelled_remaining_work = is_steer msg;
  cancelled_reason = if is_steer msg then some "operator_steer" else none;
}

-- `pending.remove(idx)` panics out of bounds, which is the first clause here.
remove_and_deliver :
    PendingMessageQueue
    → DeliveryBoundary
    → ℕ
    → Option QueuedOperatorMessage
    → Option QueueDelivery × PendingMessageQueue
unfolding delivery
remove_and_deliver q boundary idx none = (none, q)
remove_and_deliver q boundary idx (some msg) =
    (some (delivery boundary msg), record q { pending = remove_at q.pending idx })

pub deliver_at_boundary :
    PendingMessageQueue → DeliveryBoundary → Option QueueDelivery × PendingMessageQueue
unfolding select_deliverable_index remove_and_deliver
deliver_at_boundary q boundary = elim (select_deliverable_index q.pending boundary) [
  | none ↦ (none, q)
  | some idx ↦ remove_and_deliver q boundary idx (get_elem? q.pending idx)
]
