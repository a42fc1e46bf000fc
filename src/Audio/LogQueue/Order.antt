-- ===== src/Audio/LogQueue/Order.antt =====
-- The invariant of the producer and the consumer, and what each knows between its steps.
use low_latency_capture_view.Common.{
  ℕ, suc, ◌+◌, ◌%◌, ◌<◌, ◌≡◌, ◌≢◌, sym, ap, ◌∙◌, List, [], ◌∷◌, ◌++◌, arith, set, get_or, length,
  length-set, get_or-set_ne, subst, inl, inr,
}
use mathlib.Core.Path.{ap₂}
use low_latency_capture_view.Common.Arrays.{window, window-ext, window-add}
use low_latency_capture_view.Common.Cyclic.{
  cell, lt_or_le, wrapped, wrapped_zero, mod-wrapped, wrapped_bound, window-cell-wrapped,
}
use low_latency_capture_view.Audio.LogQueue.{Queue, truncated, next_slot}
use low_latency_capture_view.Audio.LogQueue.Threads.{Producer, Consumer, Threads}

abbrev pub slots : Queue → ℕ
slots q = length q.messages

-- The `k` messages that wait from the read position on.
abbrev pub waiting : Queue → ℕ → List (List ℕ)
waiting q k = window (cell [] q.messages (slots q)) q.read k

-- What the producer knows at each point; `k` messages wait.
abbrev pub ProducerKnows : Queue → ℕ → Producer → Type 0
ProducerKnows q k Producer.outside = Unit {0}
ProducerKnows q k (Producer.loaded m w) = w ≡ q.write
ProducerKnows q k (Producer.has_room m w) = (w ≡ q.write) × (k + 1 < slots q)
ProducerKnows q k (Producer.copied m w) =
    (w ≡ q.write) × (k + 1 < slots q) × (get_or q.messages w [] ≡ truncated m)

abbrev pub ConsumerKnows : Queue → ℕ → Consumer → Type 0
ConsumerKnows q k Consumer.outside = Unit {0}
ConsumerKnows q k (Consumer.loaded r) = r ≡ q.read
ConsumerKnows q k (Consumer.has_message r) = (r ≡ q.read) × (0 < k)
ConsumerKnows q k (Consumer.copied r m) = (r ≡ q.read) × (0 < k) × (get_or q.messages r [] ≡ m)

pub record Inv (t : Threads) : Type 0 where
  pub count : ℕ
  pub read_inside : t.queue.read < slots t.queue
  pub count_below : count < slots t.queue
  pub write_follows : t.queue.write ≡ wrapped (slots t.queue) (t.queue.read + count)
  pub producer_knows : ProducerKnows t.queue count t.producer
  pub consumer_knows : ConsumerKnows t.queue count t.consumer
  pub history : t.published ≡ t.received ++ waiting t.queue count

-- The slot behind `k` waiting messages.
next-wrapped : (n r k : ℕ) → r < n → k < n → (wrapped n (r + k) + 1) % n ≡ wrapped n (r + suc k)
next-wrapped n r k h l =
    mod-wrapped n (wrapped n (r + k) + 1) (omega (arith, wrapped_bound n (r + k))) ∙ ground arith

wrapped_around : (n r : ℕ) → r < n → wrapped n (r + n) ≡ r
wrapped_around n r h = ground arith

wrapped_other : (n r i k : ℕ) → r < n → i < k → k < n → wrapped n (r + k) ≢ wrapped n (r + i)
wrapped_other n r i k h l m = ground arith

module _ (t : Threads) (v : Inv t) where
  open v use {count, read_inside, count_below, write_follows, history}

  -- What is known once the program counters are.
  pub producer_at : {p : Producer} → t.producer ≡ p → ProducerKnows t.queue count p
  producer_at e = subst (ProducerKnows t.queue count) e v.producer_knows

  pub consumer_at : {c : Consumer} → t.consumer ≡ c → ConsumerKnows t.queue count c
  consumer_at e = subst (ConsumerKnows t.queue count) e v.consumer_knows

  -- The producer's test: the slot behind the next one is not the oldest message.
  pub has_room_count :
      (w : ℕ) → w ≡ t.queue.write → next_slot t.queue w ≢ t.queue.read → count + 1 < slots t.queue
  has_room_count w e h = elim (lt_or_le (count + 1) (slots t.queue)) [
    | inl k ↦ k
    | inr k ↦
        let full : suc count ≡ slots t.queue = omega (arith, count_below) in
        absurd (
          h (
            ap (λ a. (a + 1) % slots t.queue) (e ∙ write_follows)
            ∙ next-wrapped (slots t.queue) t.queue.read count read_inside count_below
            ∙ ap (λ a. wrapped (slots t.queue) (t.queue.read + a)) full
            ∙ wrapped_around (slots t.queue) t.queue.read read_inside))
  ]

  -- The consumer's test.
  pub has_message_count : (r : ℕ) → r ≡ t.queue.read → r ≢ t.queue.write → 0 < count
  has_message_count r e h = elim (lt_or_le 0 count) [
    | inl k ↦ k
    | inr k ↦
        let none_wait : count ≡ 0 = omega arith in
        absurd (
          h (
            e
            ∙ sym (
                write_follows
                ∙ ap (λ a. wrapped (slots t.queue) (t.queue.read + a)) none_wait
                ∙ wrapped_zero (slots t.queue) t.queue.read read_inside)))
  ]

  -- Copying a message into the free slot leaves those that wait as they are.
  pub waiting-set :
      (w : ℕ) (m : List ℕ)
      → w ≡ t.queue.write
      → waiting (record (t.queue) { messages = set t.queue.messages w m }) count
        ≡ waiting t.queue count
  waiting-set w m e =
      ap (λ n. window (cell [] (set t.queue.messages w m) n) t.queue.read count)
        (length-set t.queue.messages w m)
      ∙ window-ext _ _ t.queue.read t.queue.read count λ i h.
        get_or-set_ne t.queue.messages w _ m [] λ clash.
          wrapped_other (slots t.queue) t.queue.read i count read_inside h count_below
            (sym (e ∙ write_follows) ∙ clash)

  -- Publishing a copied message appends it to those that wait.
  pub waiting-publish :
      (w : ℕ) (m : List ℕ)
      → w ≡ t.queue.write
      → get_or t.queue.messages w [] ≡ m
      → waiting (record (t.queue) { write = next_slot t.queue w }) (count + 1)
        ≡ waiting t.queue count ++ m ∷ []
  waiting-publish w m e g =
      window-add (cell [] t.queue.messages (slots t.queue)) t.queue.read count 1
      ∙ ap (λ x. waiting t.queue count ++ x ∷ [])
          (ap (λ i. get_or t.queue.messages i []) (sym (e ∙ write_follows)) ∙ g)

  -- Releasing the oldest message leaves the others.
  pub waiting-release :
      (k : ℕ)
      → count ≡ suc k
      → waiting t.queue count
        ≡ get_or t.queue.messages t.queue.read []
          ∷ waiting (record (t.queue) { read = next_slot t.queue t.queue.read }) k
  waiting-release k e =
      let n = slots t.queue in
      let here = wrapped_zero n t.queue.read read_inside in
      let start : next_slot t.queue t.queue.read ≡ wrapped n (suc t.queue.read) =
        ap (λ a. (a + 1) % n) (sym here)
        ∙ next-wrapped n t.queue.read 0 read_inside (omega arith)
        ∙ ap (wrapped n) (omega arith) in
      ap (waiting t.queue) e
      ∙ ap₂ ◌∷◌
          (ap (λ i. get_or t.queue.messages i [])
            (ap (wrapped n) {x = t.queue.read} {y = t.queue.read + 0} (omega arith) ∙ here))
          (sym (
            ap (λ a. window (cell [] t.queue.messages n) a k) start
            ∙ window-cell-wrapped [] t.queue.messages n (suc t.queue.read) k (omega arith)
                (omega (arith, wrapped_bound n (suc t.queue.read), count_below))
                (omega (arith, count_below))))

  -- The slot behind the one just published.
  pub write_ahead :
      (w : ℕ)
      → w ≡ t.queue.write
      → next_slot t.queue w ≡ wrapped (slots t.queue) (t.queue.read + (count + 1))
  write_ahead w e =
      ap (λ a. (a + 1) % slots t.queue) (e ∙ write_follows)
      ∙ next-wrapped (slots t.queue) t.queue.read count read_inside count_below
      ∙ ap (λ a. wrapped (slots t.queue) (t.queue.read + a)) (omega arith)

  -- The free slot is never the one that the consumer reads.
  pub write_elsewhere : 0 < count → t.queue.write ≢ t.queue.read
  write_elsewhere p e =
      wrapped_other (slots t.queue) t.queue.read 0 count read_inside p count_below
        (sym write_follows ∙ e ∙ sym (wrapped_zero (slots t.queue) t.queue.read read_inside))
