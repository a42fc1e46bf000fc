-- ===== src/Recording/Delivery/Push/Enqueued.antt =====
-- One packet is stored whole, or nothing changes.
use low_latency_capture_view.Common.{
  ℕ, ◌+◌, ◌<◌, ◌≡◌, ◌≢◌, refl, ap, ◌∙◌, [], ◌∷◌, Option, none, some, leb, length, set, get_or,
  get_or-set_self, get_or-set_ne, Bool-cases, inl, inr, arith,
}
use native.Mathlib.Nat.{mod-lt}
use low_latency_capture_view.Common.Hresult.{e_buffer_overflow}
use low_latency_capture_view.Recording.Session.State.{add_u64}
use low_latency_capture_view.Recording.Buffers.{Pool, release}
use low_latency_capture_view.Recording.Buffers.Leases.{
  size, references_of, Acquired, leased, exhausted, acquire-Acquired,
}
use low_latency_capture_view.Recording.Status.{Operation, queue}
use low_latency_capture_view.Recording.Delivery.{Packet, Queue, Failed, used, slot_of}
use low_latency_capture_view.Recording.Delivery.Chunks.Returned.{one, set_two, give_back-references}
use low_latency_capture_view.Recording.Delivery.Chunks.{give_back}
use low_latency_capture_view.Recording.Delivery.Push.{enqueue, store}

-- What one call does to the queue and the pool, for the reason `broken` not to use a buffer.
pub data Enqueued (broken : Failed) (packet : ℕ → Packet) (q : Queue) (p : Pool)
    : Queue × Pool × Failed → Type 0 where
  refused :
      {p' : Pool} {hr : ℕ} {o : Operation}
      → ((j : ℕ) → references_of p' j ≡ references_of p j)
      → Enqueued broken packet q p (q, p', some (hr, o))
  stored :
      {q' : Queue} {p' : Pool} (i : ℕ)
      → broken ≡ none
      → used q < length q.packets
      → references_of p i ≡ 1
      → ((j : ℕ) → references_of p' j ≡ references_of p j + one i j)
      → get_or q'.packets (slot_of q 0) none ≡ some (packet i)
      → ((j : ℕ) → slot_of q 0 ≢ j → get_or q'.packets j none ≡ get_or q.packets j none)
      → q'.write ≡ add_u64 q.write 1
      → q'.read ≡ q.read
      → Enqueued broken packet q p (q', p', none)

released :
    (p t : Pool) (i j : ℕ)
    → i < size p
    → references_of p i ≡ 1
    → t.references ≡ set p.references i 2
    → references_of (release i t) j ≡ references_of p j
unfolding give_back
released p t i j l e h = give_back-references (i ∷ []) t j ∙ omega (arith, set_two p t i j l e h)

-- On a pool that is not empty, with its next place inside: a packet is either refused, and then the
-- queue is as it was and every buffer has the references it had; or there was room for it and nothing
-- was wrong with it, and it alone is published behind the others, in a buffer that only the pool held.
pub enqueue-Enqueued :
    (broken : Failed) (packet : ℕ → Packet) (q : Queue) (p : Pool)
    → p.next < size p
    → Enqueued broken packet q p (enqueue broken packet q p)
unfolding enqueue
enqueue-Enqueued broken packet q p h = elim (Bool-cases (leb (length q.packets) (used q))) [
  | inl full ↦ rw full (refused (λ j. refl))
  | inr room ↦ rw room (at (ground arith) (acquire-Acquired p h) broken refl)
]
  where
    at :
        {r : Pool × Option ℕ}
        → used q < length q.packets
        → Acquired p r
        → (b : Failed) → broken ≡ b
        → Enqueued broken packet q p (elim (r.1) [
          | none ↦ (q, r.0, some (e_buffer_overflow, queue))
          | some i ↦ elim b [
            | some f ↦ (q, release i r.0, some f)
            | none ↦ (store q (packet i), r.0, none)
          ]
        ])
    at free (exhausted busy e k) b w = refused (λ j. ap (λ l. get_or l j 0) e)
    at free (leased {t} i l e f k) (some (hr, o)) w = refused (λ j. released p t i j l e f)
    at free (leased {t} i l e f k) none w =
        stored i w free e (λ j. set_two p t i j l e f)
          (get_or-set_self q.packets (slot_of q 0) (some (packet i)) none
            (mod-lt (q.write + 0) (omega (arith, free))))
          (λ j away. get_or-set_ne q.packets (slot_of q 0) j (some (packet i)) none away) refl refl
