-- ===== src/Audio/LogQueue.antt =====
-- src/audio/RealtimeLogQueue.h: a log queue of one producer and one consumer over `n` slots, where
-- `n` is `kCapacity + 1`. A message is its text up to the terminating zero; `none` is a null pointer.
pub mod Threads
pub mod Order
pub mod Fifo
mod Examples
use low_latency_capture_view.Common.{
  ℕ, zero, suc, ◌+◌, ◌-◌, ◌%◌, ◌^◌, Bool, true, false, List, [], Option, none, some, ◌==◌,
  if◌then◌else◌, take, set, get_or, replicate, length,
}

pub record Queue : Type 0 where
  pub messages : List (List ℕ)
  pub write : ℕ
  pub read : ℕ
  pub dropped : ℕ  -- uint64

abbrev pub message_characters : ℕ
message_characters = 2048

-- The copy loop of `Push`: it leaves room for the zero.
abbrev pub truncated : List ℕ → List ℕ
truncated m = take (message_characters - 1) m

abbrev pub next_slot : Queue → ℕ → ℕ
next_slot q i = (i + 1) % length q.messages

unfoldable pub create : ℕ → Queue
create capacity = record {
  messages = replicate (capacity + 1) [];
  write = 0;
  read = 0;
  dropped = 0;
}

-- What `Push` does when nothing comes between its loads and its stores.
unfoldable pub push : Queue → Option (List ℕ) → Queue × Bool
push q none = (q, true)
push q (some m) =
    if next_slot q q.write == q.read
    then (record q { dropped = (q.dropped + 1) % 2 ^ 64 }, false)
    else (
      record q { messages = set q.messages q.write (truncated m); write = next_slot q q.write },
      true,
    )

unfoldable pub pop : Queue → Queue × Option (List ℕ)
pop q =
    if q.read == q.write
    then (q, none)
    else (record q { read = next_slot q q.read }, some (get_or q.messages q.read []))

unfoldable pub take_dropped : Queue → Queue × ℕ
take_dropped q = (record q { dropped = 0 }, q.dropped)

unfoldable pub empty : Queue → Bool
empty q = q.read == q.write
