-- ===== src/Recording/Delivery/Chunks/Delivered.antt =====
-- A long buffer is delivered whole or not at all.
use low_latency_capture_view.Common.{
  ℕ, ◌+◌, ◌-◌, ◌*◌, ◌%◌, ◌≤◌, ◌<◌, ◌≡◌, ◌≢◌, refl, sym, ap, ◌∙◌, true, false, ◌||◌, inl, inr, List,
  none, some, ◌==◌, ltb, length, get_or, get_elem?, map, Bool-cases, Option-cases, arith,
}
use low_latency_capture_view.Common.Hresult.{e_invalidarg, e_buffer_overflow}
use low_latency_capture_view.Recording.Session.State.{add_u64}
use low_latency_capture_view.Recording.Buffers.{Pool}
use low_latency_capture_view.Recording.Buffers.Leases.{size, references_of}
use low_latency_capture_view.Recording.Status.{Operation, input, encoder, queue}
use low_latency_capture_view.Recording.Delivery.{
  Packet, Queue, Failed, used, slot_of, audio_buffer_bytes, audio_ticks,
}
use low_latency_capture_view.Recording.Delivery.Chunks.{
  lease_all, chunk_packets, store_all, first_failure, chunk_count, publish_chunks,
  reserve_and_publish, push_audio_chunks, int64_max,
}
use low_latency_capture_view.Recording.Delivery.Chunks.Pieces.{
  joined, Timed, joined-chunk_packets, chunk_packets-Timed, length-chunk_packets, buffers_of,
  store_all-inside, store_all-outside,
}
use low_latency_capture_view.Recording.Delivery.Chunks.Returned.{
  times_in, lease_all-Leased, lease_all-give_back, length-lease_all,
}

-- The packets of a source, and where they went.
pub record Whole (start : ℕ) (source : List ℕ) (q q' : Queue) (p p' : Pool) : Type 0 where
  pub packets : List Packet
  pub has_room : used q + length packets ≤ length q.packets
  pub joins : joined packets ≡ source
  pub timed : Timed start 0 packets
  pub placed :
      (i : ℕ) → i < length packets → get_or q'.packets (slot_of q i) none ≡ get_elem? packets i
  pub kept :
      (j : ℕ)
      → ((i : ℕ) → i < length packets → slot_of q i ≢ j)
      → get_or q'.packets j none ≡ get_or q.packets j none
  pub moved : q'.write ≡ add_u64 q.write (length packets)
  pub unread : q'.read ≡ q.read
  pub leases :
      (j : ℕ) → references_of p' j ≡ references_of p j + times_in j (map (λ x. x.buffer) packets)

pub data Delivered (start : ℕ) (source : List ℕ) (q : Queue) (p : Pool)
    : Queue × Pool × Failed → Type 0 where
  nothing :
      {p' : Pool} (hr : ℕ) (o : Operation)
      → ((j : ℕ) → references_of p' j ≡ references_of p j)
      → Delivered start source q p (q, p', some (hr, o))
  everything :
      {q' : Queue} {p' : Pool}
      → Whole start source q q' p p'
      → Delivered start source q p (q', p', none)

covers : (n : ℕ) → n ≤ audio_buffer_bytes * chunk_count n
covers n = omega arith

module _ (calls : ℕ → ℕ) (generation start : ℕ) (source : List ℕ) (q : Queue) (p : Pool)
    (h : p.next < size p) where
  abbrev count : ℕ
  count = chunk_count (length source)

  abbrev leases : List ℕ
  leases = (lease_all count p).1

  publish_chunks-Whole :
      (lease_all count p).2 ≡ true
      → used q + count ≤ length q.packets
      → Whole start source q
          (publish_chunks generation start source leases q)
          p
          (lease_all count p).0
  unfolding publish_chunks
  publish_chunks-Whole enough room =
      let n : length leases ≡ count = length-lease_all count p enough in
      let ps = chunk_packets generation start 0 source leases in
      let m : length ps ≡ count = length-chunk_packets generation start source leases 0 ∙ n in
      record {
        packets = ps;
        has_room = omega arith;
        joins =
            joined-chunk_packets generation start source leases 0
              (omega (arith, covers (length source)));
        timed = chunk_packets-Timed generation start source leases 0;
        placed = λ i l.
            ap (λ t. get_or (store_all q 0 ps q.packets) (slot_of q t) none) {x = i} {y = 0 + i}
              (omega arith)
            ∙ store_all-inside q 0 ps q.packets i refl (omega arith) l;
        kept = λ j away. store_all-outside q 0 ps q.packets j (λ i a b. away i (omega arith));
        moved = ap (add_u64 q.write) (sym m);
        unread = refl;
        leases = λ j.
            (lease_all-Leased count p h).counted j
            ∙ ap (λ l. references_of p j + times_in j l)
                (sym (buffers_of generation start source leases 0));
      }

  reserved-Delivered :
      used q + count ≤ length q.packets
      → Delivered start source q p
          (reserve_and_publish calls generation start source q (lease_all count p))
  unfolding reserve_and_publish
  reserved-Delivered room = elim (Bool-cases (lease_all count p).2) [
    | inr few ↦ rw few (nothing e_buffer_overflow queue (λ j. lease_all-give_back count p j h))
    | inl enough ↦ elim (Option-cases (first_failure calls count 0)) [
      | inl fine ↦ rw (enough, fine) (everything (publish_chunks-Whole enough room))
      | inr (hr, broken) ↦
          rw (enough, broken) (nothing hr encoder (λ j. lease_all-give_back count p j h))
    ]
  ]

-- On a pool that is not empty, with its next place inside: `PushAudioChunks` either fails, and then
-- the queue is as it was and every buffer has the references it had; or it publishes at once, behind
-- the packets that were there, whose slots it leaves alone, packets of at most one audio buffer each, whose
-- bytes joined are the source, which follow each other in time without a gap, and of which each
-- holds one more reference to its buffer.
pub push_audio_chunks-Delivered :
    (calls : ℕ → ℕ) (generation start : ℕ) (source : List ℕ) (q : Queue) (p : Pool)
    → p.next < size p
    → Delivered start source q p (push_audio_chunks calls generation start source q p)
unfolding push_audio_chunks
push_audio_chunks-Delivered calls generation start source q p h =
    let n = chunk_count (length source) in
    let ticks = audio_ticks (length source) in
    elim (Bool-cases (length source % 4 == 0)) [
      | inr odd ↦ rw odd (nothing e_invalidarg input (λ j. refl))
      | inl even ↦ elim (Bool-cases (ltb (int64_max - ticks) start)) [
        | inl late ↦ rw (even, late) (nothing e_invalidarg input (λ j. refl))
        | inr early ↦
            elim (Bool-cases
              (ltb (length q.packets) (used q) || ltb (length q.packets - used q) n)) [
                | inl full ↦ rw (even, early, full) (nothing e_buffer_overflow queue (λ j. refl))
                | inr fits ↦
                    rw (even, early, fits)
                      (reserved-Delivered calls generation start source q p h
                        (room (used q) n (length q.packets) fits))
              ]
      ]
    ]
  where
    room : (u n k : ℕ) → (ltb k u || ltb (k - u) n) ≡ false → u + n ≤ k
    room u n k e = ground arith
