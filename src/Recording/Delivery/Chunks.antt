-- ===== src/Recording/Delivery/Chunks.antt =====
-- src/recording/Recorder.cpp, `Recorder::PushAudioChunks`: a long buffer of samples becomes several
-- packets, all of them or none. `start` is not negative, as `Push` has tested.
pub mod Pieces
pub mod Returned
pub mod Delivered
use low_latency_capture_view.Common.{
  ℕ, zero, suc, ◌+◌, ◌-◌, ◌*◌, ◌/◌, ◌%◌, ◌^◌, min, Bool, true, false, not, ◌&&◌, ◌||◌, List, [],
  ◌∷◌, ◌==◌, ltb, leb, Option, none, some, if◌then◌else◌, length, set, take, drop,
}
use low_latency_capture_view.Common.Hresult.{e_invalidarg, e_buffer_overflow, failed}
use low_latency_capture_view.Recording.Session.State.{add_u64}
use low_latency_capture_view.Recording.Buffers.{Pool, acquire, release}
use low_latency_capture_view.Recording.Status.{Operation, input, encoder, queue}
use low_latency_capture_view.Recording.Delivery.{
  Packet, Queue, Failed, used, slot_of, audio_buffer_bytes, audio_ticks,
}

-- The loop that reserves every lease: the leases, and whether there were enough.
unfoldable pub lease_all : ℕ → Pool → Pool × List ℕ × Bool
unfolding acquire
lease_all zero p = (p, [], true)
lease_all (suc rounds) p = elim ((acquire p).1) [
  | none ↦ ((acquire p).0, [], false)
  | some i ↦ let (q, leases, enough) = lease_all rounds (acquire p).0 in (q, i ∷ leases, enough)
]

-- `~Unpublished`
unfoldable pub give_back : List ℕ → Pool → Pool
unfolding release
give_back [] p = p
give_back (i ∷ is) p = give_back is (release i p)

-- The loop that copies, from an offset on.
unfoldable pub chunk_packets : ℕ → ℕ → ℕ → List ℕ → List ℕ → List Packet
chunk_packets generation start offset source [] = []
chunk_packets generation start offset source (i ∷ is) =
    let bytes = min (length source - offset) audio_buffer_bytes in
    record {
      time = start + audio_ticks offset;
      duration = audio_ticks bytes;
      pause_generation = generation;
      video = false;
      buffer = i;
      bytes = take bytes (drop offset source);
    }
    ∷ chunk_packets generation start (offset + bytes) source is

-- The first failure of `Lock`, `Unlock` and `SetCurrentLength` for the packets from `k` on; the
-- argument is what the calls for a packet return, the first failure or success.
unfoldable pub first_failure : (ℕ → ℕ) → ℕ → ℕ → Option ℕ
first_failure calls zero k = none
first_failure calls (suc rounds) k =
    let rest = first_failure calls rounds (k + 1) in
    if failed (calls k) then some (calls k) else rest

-- Packets stored from place `k` behind the published ones.
unfoldable pub store_all : Queue → ℕ → List Packet → List (Option Packet) → List (Option Packet)
store_all q k [] slots = slots
store_all q k (p ∷ ps) slots = store_all q (k + 1) ps (set slots (slot_of q k) (some p))

abbrev pub chunk_count : ℕ → ℕ
chunk_count bytes = (bytes + audio_buffer_bytes - 1) / audio_buffer_bytes

unfoldable pub publish_chunks : ℕ → ℕ → List ℕ → List ℕ → Queue → Queue
unfolding store_all chunk_packets
publish_chunks generation start source leases q = record q {
  packets = store_all q 0 (chunk_packets generation start 0 source leases) q.packets;
  write = add_u64 q.write (chunk_count (length source));
}

-- From the first lease on.
unfoldable pub reserve_and_publish :
    (ℕ → ℕ) → ℕ → ℕ → List ℕ → Queue → Pool × List ℕ × Bool → Queue × Pool × Failed
unfolding give_back first_failure publish_chunks
reserve_and_publish calls generation start source q (p, leases, enough) =
    if not enough
    then (q, give_back leases p, some (e_buffer_overflow, queue))
    else elim (first_failure calls (chunk_count (length source)) 0) [
      | some hr ↦ (q, give_back leases p, some (hr, encoder))
      | none ↦ (publish_chunks generation start source leases q, p, none)
    ]

abbrev pub int64_max : ℕ
int64_max = 2 ^ 63 - 1

unfoldable pub push_audio_chunks : (ℕ → ℕ) → ℕ → ℕ → List ℕ → Queue → Pool → Queue × Pool × Failed
unfolding lease_all reserve_and_publish
push_audio_chunks calls generation start source q p =
    let count = chunk_count (length source) in
    if not (length source % 4 == 0)
    then (q, p, some (e_invalidarg, input))
    else if ltb (int64_max - audio_ticks (length source)) start
    then (q, p, some (e_invalidarg, input))
    else if ltb (length q.packets) (used q) || ltb (length q.packets - used q) count
    then (q, p, some (e_buffer_overflow, queue))
    else reserve_and_publish calls generation start source q (lease_all count p)
