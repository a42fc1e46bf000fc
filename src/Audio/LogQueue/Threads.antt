-- ===== src/Audio/LogQueue/Threads.antt =====
-- The producer and the consumer as threads: each atomic load or store, and each copy of a slot, is a
-- step of its own, and the steps of the two interleave in any order.
use low_latency_capture_view.Common.{ℕ, ◌+◌, ◌%◌, ◌^◌, ◌≡◌, ◌≢◌, List, [], ◌∷◌, ◌++◌, set, get_or}
use low_latency_capture_view.Audio.LogQueue.{Queue, truncated, next_slot}

-- Where `Push` stands: before it, with `write_` loaded, past the test, past the copy.
pub data Producer : Type 0 where
  outside : Producer
  loaded : List ℕ → ℕ → Producer
  has_room : List ℕ → ℕ → Producer
  copied : List ℕ → ℕ → Producer

-- Where `Pop` stands.
pub data Consumer : Type 0 where
  outside : Consumer
  loaded : ℕ → Consumer
  has_message : ℕ → Consumer
  copied : ℕ → List ℕ → Consumer

-- `published` and `received` record the messages that `Push` and `Pop` succeeded with.
pub record Threads : Type 0 where
  pub queue : Queue
  pub producer : Producer
  pub consumer : Consumer
  pub published : List (List ℕ)
  pub received : List (List ℕ)

pub data Step : Threads → Threads → Type 0 where
  push_loads :
      (t : Threads) (m : List ℕ)
      → t.producer ≡ Producer.outside
      → Step t (record t { producer = Producer.loaded m t.queue.write })
  push_drops :
      (t : Threads) (m : List ℕ) (w : ℕ)
      → t.producer ≡ Producer.loaded m w
      → next_slot t.queue w ≡ t.queue.read
      → Step t (record t {
        producer = Producer.outside;
        queue = record (t.queue) { dropped = (t.queue.dropped + 1) % 2 ^ 64 };
      })
  push_finds_room :
      (t : Threads) (m : List ℕ) (w : ℕ)
      → t.producer ≡ Producer.loaded m w
      → next_slot t.queue w ≢ t.queue.read
      → Step t (record t { producer = Producer.has_room m w })
  push_copies :
      (t : Threads) (m : List ℕ) (w : ℕ)
      → t.producer ≡ Producer.has_room m w
      → Step t (record t {
        producer = Producer.copied m w;
        queue = record (t.queue) { messages = set t.queue.messages w (truncated m) };
      })
  push_publishes :
      (t : Threads) (m : List ℕ) (w : ℕ)
      → t.producer ≡ Producer.copied m w
      → Step t (record t {
        producer = Producer.outside;
        queue = record (t.queue) { write = next_slot t.queue w };
        published = t.published ++ truncated m ∷ [];
      })
  pop_loads :
      (t : Threads)
      → t.consumer ≡ Consumer.outside
      → Step t (record t { consumer = Consumer.loaded t.queue.read })
  pop_finds_none :
      (t : Threads) (r : ℕ)
      → t.consumer ≡ Consumer.loaded r
      → r ≡ t.queue.write
      → Step t (record t { consumer = Consumer.outside })
  pop_finds_one :
      (t : Threads) (r : ℕ)
      → t.consumer ≡ Consumer.loaded r
      → r ≢ t.queue.write
      → Step t (record t { consumer = Consumer.has_message r })
  pop_copies :
      (t : Threads) (r : ℕ)
      → t.consumer ≡ Consumer.has_message r
      → Step t (record t { consumer = Consumer.copied r (get_or t.queue.messages r []) })
  pop_releases :
      (t : Threads) (r : ℕ) (m : List ℕ)
      → t.consumer ≡ Consumer.copied r m
      → Step t (record t {
        consumer = Consumer.outside;
        queue = record (t.queue) { read = next_slot t.queue r };
        received = t.received ++ m ∷ [];
      })
  takes_dropped : (t : Threads) → Step t (record t { queue = record (t.queue) { dropped = 0 } })

pub data Reach (s : Threads) : Threads → Type 0 where
  here : Reach s s
  next : {t u : Threads} → Reach s t → Step t u → Reach s u
