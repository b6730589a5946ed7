-- ===== src/Network/Examples.antt =====
-- Tests of src/net.c: two messages through a queue.
use agentchain.Base.{◌≡◌, refl, false, some, [], ◌∷◌, arith}
use agentchain.Bytes.Compare.{Bytes}
use agentchain.Network.{OutboxMsg, Outbox, peer_enqueue, dequeue, writer_exit}
use agentchain.Network.Delivery.{IsOutbox, Dequeued, sent, received, outbox-IsOutbox, received-sent}

abbrev block_ann : OutboxMsg
block_ann = record { type = 6; payload = 1 ∷ 2 ∷ 3 ∷ [] }

abbrev commit_vote : OutboxMsg
commit_vote = record { type = 8; payload = 9 ∷ [] }

abbrev two_queued : Outbox
two_queued = record {
  queue = block_ann ∷ commit_vote ∷ [];
  out_msgs = 2;
  out_bytes = 4;
  out_closing = false;
}

two_queued-IsOutbox : IsOutbox two_queued
two_queued-IsOutbox = record {
  msgs = refl;
  bytes = refl;
  few = omega arith;
  small = omega arith;
  sendable = ((omega arith, omega arith), ((omega arith, omega arith), tt));
}

outbox-IsOutbox_example :
    IsOutbox (peer_enqueue two_queued commit_vote).0
    × Dequeued two_queued (dequeue two_queued)
    × IsOutbox (writer_exit two_queued)
outbox-IsOutbox_example = outbox-IsOutbox two_queued commit_vote (omega arith) two_queued-IsOutbox

received-sent_example :
    (wire : Bytes) × sent (block_ann ∷ commit_vote ∷ []) ≡ some wire
    × received 2 wire ≡ block_ann ∷ commit_vote ∷ []
received-sent_example = received-sent two_queued two_queued-IsOutbox
