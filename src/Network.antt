-- ===== src/Network.antt =====
-- The frames and the outgoing queues of src/net.c. A socket is the stream of the bytes that it carries; the
-- queue is a list, which its mutex guards, and no allocation fails.
pub mod Delivery
mod Examples
use agentchain.Base.{
  ℕ, ◌+◌, ◌-◌, Bool, true, false, not, ◌||◌, Option, none, some, List, [], ◌∷◌, ◌++◌, length, take,
  drop, get_or, ltb, ◌==◌, if◌then◌else◌, sub64,
}
use agentchain.Bytes.Compare.{Bytes}
use agentchain.Bytes.Endian.{be32, rd32}

abbrev pub frame_version : ℕ
frame_version = 1

abbrev pub frame_max_bytes : ℕ
frame_max_bytes = 4_194_304

abbrev pub out_queue_max_bytes : ℕ
out_queue_max_bytes = 4_194_304

abbrev pub out_queue_max_msgs : ℕ
out_queue_max_msgs = 2048

-- `len` is the length of the payload.
pub record OutboxMsg : Type 0 where
  pub type : ℕ
  pub payload : Bytes

-- The fields of a peer that its queue mutex guards.
pub record Outbox : Type 0 where
  pub queue : List OutboxMsg
  pub out_msgs : ℕ
  pub out_bytes : ℕ
  pub out_closing : Bool

-- The bytes written, if the socket takes them.
unfoldable pub frame_send : OutboxMsg → Option Bytes
frame_send m =
    if ltb (frame_max_bytes - 2) (length m.payload)
    then none
    else some (be32 (length m.payload + 2) ++ (frame_version ∷ m.type ∷ m.payload))

-- The next `n` bytes of a stream, with what follows.
unfoldable pub read_full : ℕ → Bytes → Option (Bytes × Bytes)
read_full n stream = if ltb (length stream) n then none else some (take n stream, drop n stream)

unfoldable pub frame_recv : Bytes → Option (OutboxMsg × Bytes)
frame_recv stream = elim (read_full 6 stream) [
  | none ↦ none
  | some (hdr, after) ↦
      let total = rd32 hdr in
      if ltb total 2 || ltb frame_max_bytes total
      then none
      else if not (get_or hdr 4 0 == frame_version)
      then none
      else elim (read_full (total - 2) after) [
        | none ↦ none
        | some (payload, rest) ↦ some (record { type = get_or hdr 5 0; payload = payload }, rest)
      ]
]

-- The queue left, and whether the message was taken.
unfoldable pub peer_enqueue : Outbox → OutboxMsg → Outbox × Bool
peer_enqueue o m =
    let len = length m.payload in
    if ltb (frame_max_bytes - 2) len
    then (o, false)
    else if o.out_closing
    then (o, false)
    else if ltb out_queue_max_msgs (o.out_msgs + 1) || ltb out_queue_max_bytes (o.out_bytes + len)
    then (o, false)
    else (
      record o {
        queue = o.queue ++ (m ∷ []);
        out_msgs = o.out_msgs + 1;
        out_bytes = o.out_bytes + len;
      },
      true,
    )

unfoldable pub out_drop_all : Outbox → Outbox
out_drop_all o = record o { queue = []; out_msgs = 0; out_bytes = 0 }

-- The head of the queue, which the writer takes; `none` where it waits or ends.
unfoldable pub dequeue : Outbox → Option (OutboxMsg × Outbox)
dequeue o = elim o.out_closing [
  | true ↦ none
  | false ↦ elim o.queue [
    | [] ↦ none
    | m ∷ rest ↦ some (
      m,
      record o {
        queue = rest;
        out_msgs = sub64 o.out_msgs 1;
        out_bytes = sub64 o.out_bytes (length m.payload);
      },
    )
  ]
]

-- The end of the writer.
unfoldable pub writer_exit : Outbox → Outbox
writer_exit o = out_drop_all (record o { out_closing = true })
