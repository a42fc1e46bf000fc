-- ===== src/Recording/Delivery/Chunks/Pieces.antt =====
-- The packets of a long buffer: their bytes, their times and their slots.
use low_latency_capture_view.Common.{
  ℕ, zero, suc, ◌+◌, ◌-◌, ◌*◌, ◌%◌, ◌≤◌, ◌<◌, ◌≡◌, ◌≢◌, refl, sym, ap, ◌∙◌, min, List, [], ◌∷◌,
  ◌++◌, Option, none, some, length, set, get_or, get_elem?, take, drop, length-take, length-drop,
  take-append-drop, subst, map, length-set, get_or-set_self, get_or-set_ne, arith,
}
use low_latency_capture_view.Common.Arrays.{drop-length, drop-drop}
use low_latency_capture_view.Common.Cyclic.{wrapped, mod-wrapped}
use native.Mathlib.Nat.{mod-lt, mod-add-mod}
use low_latency_capture_view.Recording.Delivery.{
  Packet, Queue, slot_of, audio_buffer_bytes, audio_ticks,
}
use low_latency_capture_view.Recording.Delivery.Chunks.{chunk_packets, store_all}

abbrev pub joined : List Packet → List ℕ
joined [] = []
joined (p ∷ ps) = p.bytes ++ joined ps

-- Every packet begins where the bytes before it end.
pub data Timed (start : ℕ) : ℕ → List Packet → Type 0 where
  last : {offset : ℕ} → Timed start offset []
  then_packet :
      {offset : ℕ} {p : Packet} {ps : List Packet}
      → p.time ≡ start + audio_ticks offset
      → p.duration ≡ audio_ticks (length p.bytes)
      → length p.bytes ≤ audio_buffer_bytes
      → Timed start (offset + length p.bytes) ps
      → Timed start offset (p ∷ ps)

module _ (generation start : ℕ) (source : List ℕ) where
  abbrev piece : ℕ → ℕ
  piece offset = min (length source - offset) audio_buffer_bytes

  length-piece : (offset : ℕ) → length (take (piece offset) (drop offset source)) ≡ piece offset
  length-piece offset =
      length-take (piece offset) (drop offset source) ∙ omega (arith, length-drop offset source)

  pub joined-chunk_packets :
      (leases : List ℕ) (offset : ℕ)
      → length source ≤ offset + audio_buffer_bytes * length leases
      → joined (chunk_packets generation start offset source leases) ≡ drop offset source
  unfolding chunk_packets
  joined-chunk_packets [] offset h = sym (drop-length source offset (omega arith))
  joined-chunk_packets (i ∷ is) offset h =
      ap (λ l. take (piece offset) (drop offset source) ++ l)
        (joined-chunk_packets is (offset + piece offset) (omega arith)
          ∙ sym (drop-drop (piece offset) offset source))
      ∙ take-append-drop (piece offset) (drop offset source)

  pub chunk_packets-Timed :
      (leases : List ℕ) (offset : ℕ)
      → Timed start offset (chunk_packets generation start offset source leases)
  unfolding chunk_packets
  chunk_packets-Timed [] offset = last
  chunk_packets-Timed (i ∷ is) offset =
      let e = length-piece offset in
      then_packet refl (ap audio_ticks (sym e)) (omega arith) (
        subst
          (λ t.
            Timed start (offset + t)
              (chunk_packets generation start (offset + piece offset) source is))
          (sym e) (chunk_packets-Timed is (offset + piece offset)))

  pub length-chunk_packets :
      (leases : List ℕ) (offset : ℕ)
      → length (chunk_packets generation start offset source leases) ≡ length leases
  unfolding chunk_packets
  length-chunk_packets [] offset = refl
  length-chunk_packets (i ∷ is) offset = ap suc (length-chunk_packets is (offset + piece offset))

  pub buffers_of :
      (leases : List ℕ) (offset : ℕ)
      → map (λ p. p.buffer) (chunk_packets generation start offset source leases) ≡ leases
  unfolding chunk_packets
  buffers_of [] offset = refl
  buffers_of (i ∷ is) offset = ap (λ l. i ∷ l) (buffers_of is (offset + piece offset))

module _ (q : Queue) where
  -- Two places less than a turn apart are different slots.
  slots_apart :
      (a b : ℕ)
      → 0 < length q.packets
      → a < b
      → b < a + length q.packets
      → slot_of q a ≢ slot_of q b
  slots_apart a b z l m e =
      let n = length q.packets in
      let x = (q.write + a) % n in
      let inside : x < n = mod-lt (q.write + a) z in
      let far : slot_of q b ≡ wrapped n (x + (b - a)) =
        ap (λ t. t % n) {x = q.write + b} (omega arith)
        ∙ sym (mod-add-mod (q.write + a) n (b - a))
        ∙ mod-wrapped n (x + (b - a)) (omega arith) in
      let same : x ≡ wrapped n (x + (b - a)) = e ∙ far in ground arith

  length-store_all :
      (k : ℕ) (ps : List Packet) (slots : List (Option Packet))
      → length (store_all q k ps slots) ≡ length slots
  unfolding store_all
  length-store_all k [] slots = refl
  length-store_all k (p ∷ ps) slots =
      length-store_all (k + 1) ps (set slots (slot_of q k) (some p))
      ∙ length-set slots (slot_of q k) (some p)

  pub store_all-outside :
      (k : ℕ) (ps : List Packet) (slots : List (Option Packet)) (j : ℕ)
      → ((i : ℕ) → k ≤ i → i < k + length ps → slot_of q i ≢ j)
      → get_or (store_all q k ps slots) j none ≡ get_or slots j none
  unfolding store_all
  store_all-outside k [] slots j h = refl
  store_all-outside k (p ∷ ps) slots j h =
      store_all-outside (k + 1) ps (set slots (slot_of q k) (some p)) j
        (λ i a b. h i (omega arith) (omega arith))
      ∙ get_or-set_ne slots (slot_of q k) j (some p) none (h k (omega arith) (omega arith))

  pub store_all-inside :
      (k : ℕ) (ps : List Packet) (slots : List (Option Packet)) (i : ℕ)
      → length slots ≡ length q.packets
      → length ps ≤ length q.packets
      → i < length ps
      → get_or (store_all q k ps slots) (slot_of q (k + i)) none ≡ get_elem? ps i
  unfolding store_all
  store_all-inside k [] slots i e h l = absurd (omega arith)
  store_all-inside k (p ∷ ps) slots zero e h l =
      let place : k + 0 ≡ k = omega arith in
      rw place (
        store_all-outside (k + 1) ps (set slots (slot_of q k) (some p)) (slot_of q k)
          (λ i a b c. slots_apart k i (omega arith) (omega arith) (omega arith) (sym c))
        ∙ get_or-set_self slots (slot_of q k) (some p) none (
            let inside : slot_of q k < length q.packets = mod-lt (q.write + k) (omega arith) in
            omega arith))
  store_all-inside k (p ∷ ps) slots (suc i) e h l =
      ap
        (λ t. get_or (store_all q (k + 1) ps (set slots (slot_of q k) (some p))) (slot_of q t) none)
        {x = k + suc i} {y = k + 1 + i} (omega arith)
      ∙ store_all-inside (k + 1) ps (set slots (slot_of q k) (some p)) i
          (length-set slots (slot_of q k) (some p) ∙ e) (omega arith) (omega arith)
