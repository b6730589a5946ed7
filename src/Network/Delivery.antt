-- ===== src/Network/Delivery.antt =====
-- The queues of src/net.c, and the frames that the writer sends of them and the reader gets.
use agentchain.Base.{
  ℕ, zero, suc, ◌+◌, ◌-◌, ◌^◌, ◌≤◌, ◌<◌, ◌≡◌, refl, Bool, true, false, ◌||◌, Option, none, some,
  List, [], ◌∷◌, ◌++◌, length, arith, All, All-append, ltb, length-append, get_or, take_left,
  drop_left, if◌then◌else◌, sub64,
}
use mathlib.Core.Path.{subst}
use agentchain.Bytes.Compare.{Bytes}
use agentchain.Bytes.Endian.{be32, rd32}
use agentchain.Network.{
  frame_max_bytes, out_queue_max_bytes, out_queue_max_msgs, OutboxMsg, Outbox, frame_send,
  read_full, frame_recv, peer_enqueue, dequeue, writer_exit, out_drop_all,
}

abbrev pub IsSendable : OutboxMsg → Type 0
IsSendable m = m.type < 256 × length m.payload + 2 ≤ frame_max_bytes

abbrev pub queued_bytes : List OutboxMsg → ℕ
queued_bytes [] = 0
queued_bytes (m ∷ ms) = length m.payload + queued_bytes ms

pub record IsOutbox (o : Outbox) : Type 0 where
  pub msgs : o.out_msgs ≡ length o.queue
  pub bytes : o.out_bytes ≡ queued_bytes o.queue
  pub few : o.out_msgs ≤ out_queue_max_msgs
  pub small : o.out_bytes ≤ out_queue_max_bytes
  pub sendable : All IsSendable o.queue

-- The bytes that the writer sends for a queue.
unfoldable pub sent : List OutboxMsg → Option Bytes
sent [] = some []
sent (m ∷ ms) = elim (frame_send m) [
  | none ↦ none
  | some wire ↦ elim (sent ms) [ none ↦ none | some rest ↦ some (wire ++ rest) ]
]

-- The messages that the reader gets from a stream, `n` at most.
unfoldable pub received : ℕ → Bytes → List OutboxMsg
received zero stream = []
received (suc n) stream = elim (frame_recv stream) [
  | none ↦ []
  | some (m, rest) ↦ m ∷ received n rest
]

queued_bytes-append :
    (xs : List OutboxMsg) (m : OutboxMsg)
    → queued_bytes (xs ++ (m ∷ [])) ≡ queued_bytes xs + length m.payload
queued_bytes-append [] m = omega arith
queued_bytes-append (x ∷ xs) m = omega (arith, queued_bytes-append xs m)

read_full-append : (a b : Bytes) → read_full (length a) (a ++ b) ≡ some (a, b)
unfolding read_full
read_full-append a b =
    let enough : ltb (length (a ++ b)) (length a) ≡ false = ground (arith, length-append a b) in
    rw (enough, take_left a b, drop_left a b) refl

header-read :
    (len type : ℕ) (payload rest : Bytes)
    → read_full 6 ((be32 len ++ (1 ∷ type ∷ payload)) ++ rest)
      ≡ some (be32 len ++ (1 ∷ type ∷ []), payload ++ rest)
unfolding be32
header-read len type payload rest = read_full-append (be32 len ++ (1 ∷ type ∷ [])) (payload ++ rest)

rd32_field : (len : ℕ) (xs : Bytes) → len < 2 ^ 32 → rd32 (be32 len ++ xs) ≡ len
unfolding rd32 be32
rd32_field len xs h = omega arith

version_field : (len type : ℕ) → get_or (be32 len ++ (1 ∷ type ∷ [])) 4 0 ≡ 1
unfolding be32
version_field len type = refl

type_field : (len type : ℕ) → get_or (be32 len ++ (1 ∷ type ∷ [])) 5 0 ≡ type
unfolding be32
type_field len type = refl

frame_recv-frame :
    (m : OutboxMsg) (rest : Bytes)
    → IsSendable m
    → frame_recv ((be32 (length m.payload + 2) ++ (1 ∷ m.type ∷ m.payload)) ++ rest)
      ≡ some (m, rest)
unfolding frame_recv
frame_recv-frame m rest (byte, fits) =
    let len = length m.payload + 2 in
    let total = rd32_field len (1 ∷ m.type ∷ []) (omega (arith, fits)) in
    let sized : (ltb len 2 || ltb frame_max_bytes len) ≡ false = ground (arith, fits) in
    let body : read_full (len - 2) (m.payload ++ rest) ≡ some (m.payload, rest) =
      let same : length m.payload ≡ len - 2 = omega arith in
      subst (λ n. read_full n (m.payload ++ rest) ≡ some (m.payload, rest)) same
        (read_full-append m.payload rest) in
    rw
      (
        frame_recv,
        header-read len m.type m.payload rest,
        total,
        sized,
        version_field len m.type,
        body,
        type_field len m.type,
      )
      refl

delivered :
    (ms : List OutboxMsg)
    → All IsSendable ms
    → (wire : Bytes) × sent ms ≡ some wire × received (length ms) wire ≡ ms
unfolding sent received frame_send
delivered [] h = ([], refl, refl)
delivered (m ∷ ms) (ok, h) =
    let (rest, written, read) = delivered ms h in
    let wire = be32 (length m.payload + 2) ++ (1 ∷ m.type ∷ m.payload) in
    let short : ltb (frame_max_bytes - 2) (length m.payload) ≡ false = ground (arith, ok.1) in
    (
      wire ++ rest,
      rw (sent, frame_send, short, written) refl,
      rw (received, frame_recv-frame m rest ok, read) refl,
    )

either-IsOutbox :
    (t : Bool) (x y : Outbox × Bool)
    → (t ≡ true → IsOutbox x.0)
    → (t ≡ false → IsOutbox y.0)
    → IsOutbox (if t then x else y).0
either-IsOutbox true x y h k = h refl
either-IsOutbox false x y h k = k refl

enqueue-IsOutbox :
    (o : Outbox) (m : OutboxMsg) → m.type < 256 → IsOutbox o → IsOutbox (peer_enqueue o m).0
unfolding peer_enqueue
enqueue-IsOutbox o m byte ok =
    let len = length m.payload in
    let taken : Outbox = record o {
      queue = o.queue ++ (m ∷ []);
      out_msgs = o.out_msgs + 1;
      out_bytes = o.out_bytes + len;
    } in
    let full =
      ltb out_queue_max_msgs (o.out_msgs + 1) || ltb out_queue_max_bytes (o.out_bytes + len) in
    let room : Outbox × Bool = if full then (o, false) else (taken, true) in
    let live : Outbox × Bool = if o.out_closing then (o, false) else room in
    either-IsOutbox (ltb (frame_max_bytes - 2) len) (o, false) live (λ long. ok)
      (λ fits.
        either-IsOutbox o.out_closing (o, false) room (λ ending. ok)
          (λ opened.
            either-IsOutbox full (o, false) (taken, true) (λ late. ok)
              (λ free. record {
                msgs = omega (arith, ok.msgs, length-append o.queue (m ∷ []));
                bytes = omega (arith, ok.bytes, queued_bytes-append o.queue m);
                few = ground (arith, free);
                small = ground (arith, free);
                sendable =
                    All-append IsSendable o.queue (m ∷ []) ok.sendable
                      ((byte, ground (arith, fits)), tt);
              })))

abbrev pub Dequeued : Outbox → Option (OutboxMsg × Outbox) → Type 0
Dequeued o none = Unit
Dequeued o (some (m, p)) = o.queue ≡ m ∷ p.queue × IsOutbox p

taken-Dequeued :
    (q : List OutboxMsg) (n b : ℕ) (t : Bool)
    → IsOutbox (record { queue = q; out_msgs = n; out_bytes = b; out_closing = t })
    → Dequeued
        (record { queue = q; out_msgs = n; out_bytes = b; out_closing = t })
        (dequeue (record { queue = q; out_msgs = n; out_bytes = b; out_closing = t }))
unfolding dequeue
taken-Dequeued q n b true ok = tt
taken-Dequeued [] n b false ok = tt
taken-Dequeued (m ∷ rest) n b false ok =
    let fewer : sub64 n 1 ≡ length rest = ground (arith, ok.msgs, ok.few) in
    let smaller : sub64 b (length m.payload) ≡ queued_bytes rest =
      ground (arith, ok.bytes, ok.small) in
    (
      refl,
      record {
        msgs = fewer;
        bytes = smaller;
        few = omega (arith, fewer, ok.msgs, ok.few);
        small = omega (arith, smaller, ok.bytes, ok.small);
        sendable = ok.sendable.1;
      },
    )

exit-IsOutbox : (o : Outbox) → IsOutbox (writer_exit o)
unfolding writer_exit out_drop_all
exit-IsOutbox o = record {
  msgs = refl;
  bytes = refl;
  few = omega arith;
  small = omega arith;
  sendable = tt;
}

-- Every operation on a queue keeps its invariant: the two counts are those of the queue, at most 2,048 messages
-- and 4 MB of payload are queued, and each message fits in a frame. This holds for a message offered, whether it is
-- taken or refused, for the one that the writer takes, which is the head of the queue, and for the end of
-- the writer.
pub outbox-IsOutbox :
    (o : Outbox) (m : OutboxMsg)
    → m.type < 256
    → IsOutbox o
    → IsOutbox (peer_enqueue o m).0 × Dequeued o (dequeue o) × IsOutbox (writer_exit o)
outbox-IsOutbox o m byte ok = (
  enqueue-IsOutbox o m byte ok,
  taken-Dequeued o.queue o.out_msgs o.out_bytes o.out_closing ok,
  exit-IsOutbox o,
)

-- The messages of a queue that keeps its invariant are all sent, and the reader gets them from the bytes sent, each
-- with its type and its payload, in order.
pub received-sent :
    (o : Outbox)
    → IsOutbox o
    → (wire : Bytes) × sent o.queue ≡ some wire × received (length o.queue) wire ≡ o.queue
received-sent o ok = delivered o.queue ok.sendable
