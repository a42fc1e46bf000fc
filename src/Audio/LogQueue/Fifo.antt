-- ===== src/Audio/LogQueue/Fifo.antt =====
-- The invariant of the two threads of the log queue through every step.
use low_latency_capture_view.Common.{
  ℕ, suc, ◌+◌, ◌-◌, ◌%◌, ◌<◌, ◌≡◌, ◌≢◌, refl, sym, ap, ◌∙◌, List, [], ◌∷◌, ◌++◌, arith, set, get_or,
  length-set, get_or-set_self, get_or-set_ne, append_assoc, length-replicate,
}
use mathlib.Core.Path.{ap₂, subst}
use low_latency_capture_view.Common.Cyclic.{wrapped, wrapped_zero, wrapped_bound, mod-wrapped}
use native.Mathlib.Nat.{mod-lt}
use low_latency_capture_view.Audio.LogQueue.{Queue, create, truncated, next_slot}
use low_latency_capture_view.Audio.LogQueue.Threads.{
  Producer, Consumer, Threads, Step, Reach, here, next, push_loads, push_drops, push_finds_room,
  push_copies, push_publishes, pop_loads, pop_finds_none, pop_finds_one, pop_copies, pop_releases,
  takes_dropped,
}
use low_latency_capture_view.Audio.LogQueue.Order.{
  slots, waiting, ProducerKnows, ConsumerKnows, Inv, producer_at, consumer_at, has_room_count,
  has_message_count, waiting-set, waiting-publish, waiting-release, write_ahead, write_elsewhere,
}

-- A step that moves the program counters alone.
moved :
    (t : Threads) (p : Producer) (c : Consumer) (v : Inv t)
    → ProducerKnows t.queue v.count p
    → ConsumerKnows t.queue v.count c
    → Inv (record t { producer = p; consumer = c })
moved t p c v kp kc = record {
  count = v.count;
  read_inside = v.read_inside;
  count_below = v.count_below;
  write_follows = v.write_follows;
  producer_knows = kp;
  consumer_knows = kc;
  history = v.history;
}

-- The counter of dropped messages is no part of what the threads know.
dropped_apart :
    (t : Threads) (n : ℕ) → Inv t → Inv (record t { queue = record (t.queue) { dropped = n } })
dropped_apart t n v = record {
  count = v.count;
  read_inside = v.read_inside;
  count_below = v.count_below;
  write_follows = v.write_follows;
  producer_knows = v.producer_knows;
  consumer_knows = v.consumer_knows;
  history = v.history;
}

-- Writing the free slot keeps what the consumer has copied.
consumer-set :
    (q : Queue) (k w : ℕ) (m : List ℕ) (c : Consumer)
    → (0 < k → w ≢ q.read)
    → ConsumerKnows q k c
    → ConsumerKnows (record q { messages = set q.messages w m }) k c
consumer-set q k w m Consumer.outside h kc = tt
consumer-set q k w m (Consumer.loaded r) h kc = kc
consumer-set q k w m (Consumer.has_message r) h kc = kc
consumer-set q k w m (Consumer.copied r x) h (e, p, g) =
    (e, p, get_or-set_ne q.messages w r m [] (λ clash. h p (clash ∙ e)) ∙ g)

consumer-publish :
    (q : Queue) (k w : ℕ) (c : Consumer)
    → ConsumerKnows q k c
    → ConsumerKnows (record q { write = w }) (k + 1) c
consumer-publish q k w Consumer.outside kc = tt
consumer-publish q k w (Consumer.loaded r) kc = kc
consumer-publish q k w (Consumer.has_message r) (e, p) = (e, omega arith)
consumer-publish q k w (Consumer.copied r x) (e, p, g) = (e, omega arith, g)

producer-release :
    (q : Queue) (k r : ℕ) (p : Producer)
    → ProducerKnows q (suc k) p
    → ProducerKnows (record q { read = r }) k p
producer-release q k r Producer.outside kp = tt
producer-release q k r (Producer.loaded m w) kp = kp
producer-release q k r (Producer.has_room m w) (e, h) = (e, omega arith)
producer-release q k r (Producer.copied m w) (e, h, g) = (e, omega arith, g)

copies-Inv :
    (t : Threads) (m : List ℕ) (w : ℕ) (v : Inv t)
    → t.producer ≡ Producer.has_room m w
    → Inv (record t {
      producer = Producer.copied m w;
      queue = record (t.queue) { messages = set t.queue.messages w (truncated m) };
    })
copies-Inv t m w v e =
    let n = sym (length-set t.queue.messages w (truncated m)) in
    let at = producer_at t v e in
    let inside : w < slots t.queue =
      rw (at.0, v.write_follows)
        (wrapped_bound _ _ (omega (arith, v.read_inside, v.count_below))) in
    record {
      count = v.count;
      read_inside = subst (λ a. t.queue.read < a) n v.read_inside;
      count_below = subst (λ a. v.count < a) n v.count_below;
      write_follows = v.write_follows ∙ ap (λ a. wrapped a (t.queue.read + v.count)) n;
      producer_knows = (
        at.0,
        subst (λ a. v.count + 1 < a) n at.1,
        get_or-set_self t.queue.messages w (truncated m) [] inside,
      );
      consumer_knows =
          consumer-set t.queue v.count w (truncated m) t.consumer
            (λ p clash. write_elsewhere t v p (sym at.0 ∙ clash)) v.consumer_knows;
      history = v.history ∙ ap (λ l. t.received ++ l) (sym (waiting-set t v w (truncated m) at.0));
    }

publishes-Inv :
    (t : Threads) (m : List ℕ) (w : ℕ) (v : Inv t)
    → t.producer ≡ Producer.copied m w
    → Inv (record t {
      producer = Producer.outside;
      queue = record (t.queue) { write = next_slot t.queue w };
      published = t.published ++ truncated m ∷ [];
    })
publishes-Inv t m w v e =
    let at = producer_at t v e in
    record {
      count = v.count + 1;
      read_inside = v.read_inside;
      count_below = at.1;
      write_follows = write_ahead t v w at.0;
      producer_knows = tt;
      consumer_knows =
          consumer-publish t.queue v.count (next_slot t.queue w) t.consumer v.consumer_knows;
      history =
          ap (λ l. l ++ truncated m ∷ []) v.history
          ∙ append_assoc t.received (waiting t.queue v.count) (truncated m ∷ [])
          ∙ ap (λ l. t.received ++ l) (sym (waiting-publish t v w (truncated m) at.0 at.2));
    }

wrapped_step : (n r k : ℕ) → r < n → suc k < n → wrapped n (r + suc k) ≡ wrapped n ((r + 1) % n + k)
wrapped_step n r k h l = rw (mod-wrapped n (r + 1) (omega arith)) (ground arith)

releases-Inv :
    (t : Threads) (r : ℕ) (m : List ℕ) (v : Inv t) (k : ℕ)
    → v.count ≡ suc k
    → t.consumer ≡ Consumer.copied r m
    → Inv (record t {
      consumer = Consumer.outside;
      queue = record (t.queue) { read = next_slot t.queue r };
      received = t.received ++ m ∷ [];
    })
releases-Inv t r m v k c e =
    let at = consumer_at t v e in
    let below : suc k < slots t.queue = omega (arith, v.count_below) in
    record {
      count = k;
      read_inside = mod-lt (r + 1) (omega (arith, v.read_inside));
      count_below = omega arith;
      write_follows =
          v.write_follows
          ∙ ap (λ a. wrapped (slots t.queue) (t.queue.read + a)) c
          ∙ wrapped_step (slots t.queue) t.queue.read k v.read_inside below
          ∙ ap (λ a. wrapped (slots t.queue) ((a + 1) % slots t.queue + k)) (sym at.0);
      producer_knows =
          producer-release t.queue k (next_slot t.queue r) t.producer
            (subst (λ a. ProducerKnows t.queue a t.producer) c v.producer_knows);
      consumer_knows = tt;
      history =
          v.history
          ∙ ap (λ l. t.received ++ l)
              (waiting-release t v k c
                ∙ ap₂ (λ x a. x ∷ waiting (record (t.queue) { read = next_slot t.queue a }) k)
                    (ap (λ a. get_or t.queue.messages a []) (sym at.0) ∙ at.2) (sym at.0))
          ∙ sym (append_assoc t.received (m ∷ []) _);
    }

pub Step-Inv : {t u : Threads} → Step t u → Inv t → Inv u
Step-Inv (push_loads t m e) v = moved t _ _ v refl v.consumer_knows
Step-Inv (push_drops t m w e full) v =
    dropped_apart _ _ (moved t Producer.outside t.consumer v tt v.consumer_knows)
Step-Inv (push_finds_room t m w e room) v =
    let at = producer_at t v e in moved t _ _ v (at, has_room_count t v w at room) v.consumer_knows
Step-Inv (push_copies t m w e) v = copies-Inv t m w v e
Step-Inv (push_publishes t m w e) v = publishes-Inv t m w v e
Step-Inv (pop_loads t e) v = moved t _ _ v v.producer_knows refl
Step-Inv (pop_finds_none t r e h) v = moved t _ _ v v.producer_knows tt
Step-Inv (pop_finds_one t r e h) v =
    let at = consumer_at t v e in moved t _ _ v v.producer_knows (at, has_message_count t v r at h)
Step-Inv (pop_copies t r e) v =
    let at = consumer_at t v e in moved t _ _ v v.producer_knows (at.0, at.1, refl)
Step-Inv (pop_releases t r m e) v =
    releases-Inv t r m v (v.count - 1) (omega (arith, (consumer_at t v e).1)) e
Step-Inv (takes_dropped t) v = dropped_apart t 0 v

abbrev pub start : ℕ → Threads
start capacity = record {
  queue = create capacity;
  producer = Producer.outside;
  consumer = Consumer.outside;
  published = [];
  received = [];
}

start-Inv : (capacity : ℕ) → Inv (start capacity)
unfolding create
start-Inv capacity = record {
  count = 0;
  read_inside = omega (arith, length-replicate {0} (capacity + 1) []);
  count_below = omega (arith, length-replicate {0} (capacity + 1) []);
  write_follows = sym (wrapped_zero _ 0 (omega (arith, length-replicate {0} (capacity + 1) [])));
  producer_knows = tt;
  consumer_knows = tt;
  history = refl;
}

Reach-Inv : {t u : Threads} → Inv t → Reach t u → Inv u
Reach-Inv v here = v
Reach-Inv v (next r s) = Step-Inv s (Reach-Inv v r)

-- On any interleaving of the steps of one producer and one consumer, from an empty queue: the
-- messages received are the first of those published, whole and in order, and the rest wait in the
-- queue.
pub Reach-fifo :
    (capacity : ℕ) {t : Threads}
    → Reach (start capacity) t
    → (k : ℕ) × (k < slots t.queue) × (t.published ≡ t.received ++ waiting t.queue k)
Reach-fifo capacity r =
    let v = Reach-Inv (start-Inv capacity) r in (v.count, v.count_below, v.history)
