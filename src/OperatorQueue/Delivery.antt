-- ===== src/OperatorQueue/Delivery.antt =====
-- `submit` and `deliver_at_boundary` of src/operator_queue.rs, seen as two lanes of messages.
use native.Mathlib.Nat.{zero-add}
use local_agent.Base.{
  ℕ, ◌+◌, ◌<◌, String, ◌≡◌, refl, ap, inl, inr, true, false, Option, none, some, List, [], ◌∷◌,
  ◌++◌, arith, u64_max, get_elem?, remove_at, filter, list_laws, Option-cases,
}
use local_agent.OperatorQueue.{
  QueueMessageKind, steer, follow_up, DeliveryBoundary, post_tool, post_step, turn_idle,
  QueuedOperatorMessage, QueueLimits, PendingMessageQueue, QueueDelivery, queued, submit, is_steer,
  is_follow_up, earliest, earliest_index, select_deliverable_index, delivery, at_turn_idle,
  remove_and_deliver, deliver_at_boundary, truncate_utf8_to_bytes,
}
use local_agent.OperatorQueue.Search.{
  IsOrdered, Ascending-append, Ascending-remove_at, Found, Search, searches,
}

-- The abstract queue: a lane for each kind, first in first out.
pub record Lanes : Type 0 where
  pub steers : List QueuedOperatorMessage
  pub follow_ups : List QueuedOperatorMessage

abbrev pub lanes : PendingMessageQueue → Lanes
lanes q = record { steers = filter is_steer q.pending; follow_ups = filter is_follow_up q.pending }

abbrev steer_delivery : DeliveryBoundary → QueuedOperatorMessage → QueueDelivery
steer_delivery b m = record {
  message = m;
  delivery_boundary = b;
  cancelled_remaining_work = true;
  cancelled_reason = some "operator_steer";
}

abbrev follow_up_delivery : QueuedOperatorMessage → QueueDelivery
follow_up_delivery m = record {
  message = m;
  delivery_boundary = turn_idle;
  cancelled_remaining_work = false;
  cancelled_reason = none;
}

-- What a boundary takes from the lanes: the oldest steer at any boundary, and else the oldest
-- follow-up when the turn is idle.
abbrev pub take_lane :
    DeliveryBoundary
    → List QueuedOperatorMessage
    → List QueuedOperatorMessage
    → Option QueueDelivery × Lanes
take_lane b (m ∷ rest) fs = (some (steer_delivery b m), record { steers = rest; follow_ups = fs })
take_lane turn_idle [] (m ∷ rest) =
    (some (follow_up_delivery m), record { steers = []; follow_ups = rest })
take_lane b [] fs = (none, record { steers = []; follow_ups = fs })

-- The three ways in which a boundary can end, with the search results that lead there.
deliver-steer :
    (q : PendingMessageQueue) (b : DeliveryBoundary) (i n : ℕ) (m : QueuedOperatorMessage)
    → earliest is_steer 0 none q.pending ≡ some (i, n)
    → get_elem? q.pending i ≡ some m
    → deliver_at_boundary q b ≡ (some (delivery b m), record q { pending = remove_at q.pending i })
unfolding deliver_at_boundary
deliver-steer q b i n m e at =
    rw (e, earliest_index, select_deliverable_index, deliver_at_boundary)
      (rw (at, remove_and_deliver))

deliver-follow_up :
    (q : PendingMessageQueue) (i n : ℕ) (m : QueuedOperatorMessage)
    → earliest is_steer 0 none q.pending ≡ none
    → earliest is_follow_up 0 none q.pending ≡ some (i, n)
    → get_elem? q.pending i ≡ some m
    → deliver_at_boundary q turn_idle
      ≡ (some (delivery turn_idle m), record q { pending = remove_at q.pending i })
unfolding deliver_at_boundary
deliver-follow_up q i n m none_steers e at =
    rw (none_steers, earliest_index, select_deliverable_index, deliver_at_boundary)
      (rw (e, earliest_index, at_turn_idle) (rw (at, remove_and_deliver)))

deliver-nothing :
    (q : PendingMessageQueue) (b : DeliveryBoundary)
    → earliest is_steer 0 none q.pending ≡ none
    → at_turn_idle b (earliest_index is_follow_up q.pending) ≡ none
    → deliver_at_boundary q b ≡ (none, q)
unfolding deliver_at_boundary
deliver-nothing q b none_steers e =
    rw (none_steers, earliest_index, select_deliverable_index, deliver_at_boundary) (rw e)

abbrev Refines : PendingMessageQueue → DeliveryBoundary → Type 0
Refines q b =
    ((deliver_at_boundary q b).0 ≡ (take_lane b (lanes q).steers (lanes q).follow_ups).0)
    × (lanes (deliver_at_boundary q b).1 ≡ (take_lane b (lanes q).steers (lanes q).follow_ups).1)

steer_kind : (m : QueuedOperatorMessage) → is_steer m ≡ true → is_follow_up m ≡ false
steer_kind m h = ground arith

follow_up_kind : (m : QueuedOperatorMessage) → is_follow_up m ≡ true → is_steer m ≡ false
follow_up_kind m h = ground arith

delivery-steer :
    (b : DeliveryBoundary) (m : QueuedOperatorMessage)
    → is_steer m ≡ true
    → delivery b m ≡ steer_delivery b m
unfolding delivery
delivery-steer b m h = rw h

delivery-follow_up :
    (m : QueuedOperatorMessage) → is_steer m ≡ false → delivery turn_idle m ≡ follow_up_delivery m
unfolding delivery
delivery-follow_up m h = rw h

Refines-steer :
    (q : PendingMessageQueue) (b : DeliveryBoundary) (i n : ℕ) (m : QueuedOperatorMessage)
    → earliest is_steer 0 none q.pending ≡ some (i, n)
    → Found is_steer 0 q.pending i m
    → Refines q b
Refines-steer q b i n m e f =
    let step = deliver-steer q b i n m e f.at in
    rw (step, f.first)
      (ap some (delivery-steer b m f.passes), rw (f.others is_follow_up (steer_kind m f.passes)))

Refines-follow_up :
    (q : PendingMessageQueue) (i n : ℕ) (m : QueuedOperatorMessage)
    → earliest is_steer 0 none q.pending ≡ none
    → filter is_steer q.pending ≡ []
    → earliest is_follow_up 0 none q.pending ≡ some (i, n)
    → Found is_follow_up 0 q.pending i m
    → Refines q turn_idle
Refines-follow_up q i n m e empty e' f =
    let step = deliver-follow_up q i n m e e' f.at in
    let kind = follow_up_kind m f.passes in
    rw (step, empty, f.first)
      (ap some (delivery-follow_up m kind), rw (f.others is_steer kind, empty))

Refines-nothing :
    (q : PendingMessageQueue) (b : DeliveryBoundary)
    → earliest is_steer 0 none q.pending ≡ none
    → filter is_steer q.pending ≡ []
    → at_turn_idle b (earliest_index is_follow_up q.pending) ≡ none
    → (take_lane b [] (filter is_follow_up q.pending)
        ≡ (none, record { steers = []; follow_ups = filter is_follow_up q.pending }))
    → Refines q b
Refines-nothing q b e empty idle lane = rw (deliver-nothing q b e idle, empty, lane) (refl, refl)

Refines-cases :
    (q : PendingMessageQueue) (b : DeliveryBoundary)
    → Search is_steer 0 q.pending
    → Search is_follow_up 0 q.pending
    → Refines q b
unfolding at_turn_idle earliest_index
Refines-cases q b (inr (i, m, e, f)) _ =
    Refines-steer q b (0 + i) m.sequence_no m e (rw (zero-add i) f)
Refines-cases q turn_idle (inl (e, empty)) (inr (i, m, e', f)) =
    Refines-follow_up q (0 + i) m.sequence_no m e empty e' (rw (zero-add i) f)
Refines-cases q turn_idle (inl (e, empty)) (inl (e', nothing)) =
    Refines-nothing q turn_idle e empty (rw e') (rw nothing)
Refines-cases q post_tool (inl (e, empty)) _ = Refines-nothing q post_tool e empty refl refl
Refines-cases q post_step (inl (e, empty)) _ = Refines-nothing q post_step e empty refl refl

-- In a queue whose numbers ascend, `deliver_at_boundary` delivers what the lanes say, and leaves
-- what the lanes leave.
pub deliver-refines :
    (q : PendingMessageQueue) (b : DeliveryBoundary)
    → IsOrdered q
    → ((deliver_at_boundary q b).0 ≡ (take_lane b (lanes q).steers (lanes q).follow_ups).0)
      × (lanes (deliver_at_boundary q b).1 ≡ (take_lane b (lanes q).steers (lanes q).follow_ups).1)
deliver-refines q b h =
    Refines-cases q b (searches is_steer 0 0 q.next_sequence_no q.pending h)
      (searches is_follow_up 0 0 q.next_sequence_no q.pending h)

-- A message put at the end of the lane of the kind it was submitted as; the other lane stays.
abbrev pub push_lane : QueueMessageKind → QueuedOperatorMessage → Lanes → Lanes
push_lane steer m l = record l { steers = l.steers ++ m ∷ [] }
push_lane follow_up m l = record l { follow_ups = l.follow_ups ++ m ∷ [] }

-- The message is the submitted one: its kind, the next number, and as much of the content as fits.
pub record IsQueued (q : PendingMessageQueue) (k : QueueMessageKind) (content : String)
    (limits : QueueLimits) (m : QueuedOperatorMessage) : Type 0 where
  pub kind : m.kind ≡ k
  pub sequence_no : m.sequence_no ≡ q.next_sequence_no
  pub content_fits :
      (m.content, m.truncated) ≡ truncate_utf8_to_bytes content limits.max_message_bytes

-- A submitted message goes to the end of the lane of the kind it is submitted as, and the other lane
-- stays. The message has that kind, the next number, and the content cut to the limit; and the queue
-- stays ordered, as long as the counter has not reached the largest `u64`.
pub submit-refines :
    (q : PendingMessageQueue) (k : QueueMessageKind) (content : String) (limits : QueueLimits)
    → IsOrdered q
    → q.next_sequence_no < u64_max
    → (lanes (submit q k content limits).0 ≡ push_lane k (submit q k content limits).1 (lanes q))
      × IsQueued q k content limits (submit q k content limits).1
      × IsOrdered (submit q k content limits).0
unfolding submit
submit-refines q steer content limits h room =
    let m = queued q steer content limits in
    (
      simp list_laws refl,
      record { kind = refl; sequence_no = refl; content_fits = refl },
      Ascending-append 0 q.next_sequence_no _ q.pending m h refl (ground arith),
    )
submit-refines q follow_up content limits h room =
    let m = queued q follow_up content limits in
    (
      simp list_laws refl,
      record { kind = refl; sequence_no = refl; content_fits = refl },
      Ascending-append 0 q.next_sequence_no _ q.pending m h refl (ground arith),
    )

removed-IsOrdered :
    (q : PendingMessageQueue) (b : DeliveryBoundary) (i : ℕ) (o : Option QueuedOperatorMessage)
    → IsOrdered q
    → IsOrdered (remove_and_deliver q b i o).1
unfolding remove_and_deliver
removed-IsOrdered q b i none h = h
removed-IsOrdered q b i (some m) h = Ascending-remove_at 0 q.next_sequence_no q.pending i h

-- Delivering keeps the queue ordered.
pub deliver-IsOrdered :
    (q : PendingMessageQueue) (b : DeliveryBoundary)
    → IsOrdered q
    → IsOrdered (deliver_at_boundary q b).1
unfolding deliver_at_boundary
deliver-IsOrdered q b h = elim (Option-cases (select_deliverable_index q.pending b)) [
  | inl e ↦ rw (e, deliver_at_boundary) h
  | inr (i, e) ↦ rw (e, deliver_at_boundary) (removed-IsOrdered q b i (get_elem? q.pending i) h)
]
