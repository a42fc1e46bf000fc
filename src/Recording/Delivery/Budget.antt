-- ===== src/Recording/Delivery/Budget.antt =====
-- The queues and pools that a recording starts with.
use low_latency_capture_view.Common.{
  ℕ, ◌*◌, ◌/◌, ◌≤◌, ◌<◌, ◌≡◌, refl, sym, ◌∙◌, min, true, false, not, ◌&&◌, Option, none, some, ◌==◌,
  ltb, leb, if◌then◌else◌, length, length-replicate, Bool-cases, inl, inr, arith,
}
use native.Mathlib.Nat.{mul-le-mul_right, div-mul-le_self}
use low_latency_capture_view.Recording.Session.Formats.{
  PixelFormat, auto, nv12, yuy2, mjpeg, p010, uyvy, rgb32, rgb24, is_mjpeg, is_rgb,
}
use low_latency_capture_view.Recording.Buffers.{allocate}
use low_latency_capture_view.Recording.Buffers.Leases.{size}
use low_latency_capture_view.Recording.Delivery.{
  Picture, Packet, Policy, Queues, used, empty_queue, capture_bytes, rgb_capture_budget,
  rgb_buffer_count, recording_delivery_policy, policy_for, prepare_queues,
}

rgb_buffer_count-budget : (bytes budget : ℕ) → rgb_buffer_count bytes budget * bytes ≤ budget
unfolding rgb_buffer_count
rgb_buffer_count-budget bytes budget = elim (Bool-cases (not (bytes == 0) && leb bytes budget)) [
  | inr e ↦ rw e (omega arith)
  | inl e ↦ rw e (fits bytes budget)
]
  where
    fits : (n b : ℕ) → min 16 (b / n) * n ≤ b
    fits n b =
        let few : min 16 (b / n) ≤ b / n = omega arith in
        let k = mul-le-mul_right n few in let l = div-mul-le_self b n in omega arith

-- A policy that can be kept.
pub record Sound (v : Picture) (p : Policy) : Type 0 where
  pub some_video : 4 ≤ p.video_buffers
  pub some_audio : 0 < p.audio_buffers
  pub video_alike : p.video_packets ≡ p.video_buffers
  pub audio_alike : p.audio_packets ≤ p.audio_buffers
  pub in_budget : is_rgb v.format ≡ true → p.video_buffers * capture_bytes v ≤ rgb_capture_budget

abbrev pub rgb_count : Picture → ℕ
rgb_count v = rgb_buffer_count (capture_bytes v) rgb_capture_budget

data Decided (v : Picture) : Option Policy → Type 0 where
  refused : is_rgb v.format ≡ true → rgb_count v < 4 → Decided v none
  decided : {p : Policy} → Sound v p → Decided v (some p)

policy_for-Decided : (v : Picture) → Decided v (policy_for v)
unfolding policy_for recording_delivery_policy
policy_for-Decided v =
    let budget = rgb_buffer_count-budget (capture_bytes v) rgb_capture_budget in
    elim (Bool-cases (is_rgb v.format)) [
      | inl rgb ↦ elim (Bool-cases (ltb (rgb_count v) 4)) [
        | inl few ↦ rw (rgb, few) (refused rgb (ground arith))
        | inr enough ↦
            rw (rgb, enough)
              (decided (record {
                some_video = ground arith;
                some_audio = omega arith;
                video_alike = refl;
                audio_alike = omega arith;
                in_budget = λ e. budget;
              }))
      ]
      | inr other ↦ elim (Bool-cases (is_mjpeg v.format)) [
        | inl j ↦
            rw (other, j)
              (decided (record {
                some_video = omega arith;
                some_audio = omega arith;
                video_alike = refl;
                audio_alike = omega arith;
                in_budget = λ e. absurd (cc);
              }))
        | inr j ↦
            rw (other, j)
              (decided (record {
                some_video = omega arith;
                some_audio = omega arith;
                video_alike = refl;
                audio_alike = omega arith;
                in_budget = λ e. absurd (cc);
              }))
      ]
    ]

-- What `PrepareQueues` leaves: empty queues, and pools that nobody else refers to.
pub record Prepared (v : Picture) (q : Queues) : Type 0 where
  pub video_leases : q.video_buffers.next < size q.video_buffers
  pub audio_leases : q.audio_buffers.next < size q.audio_buffers
  pub video_slots : length q.video_queue.packets ≡ size q.video_buffers
  pub audio_slots : length q.audio_queue.packets ≤ size q.audio_buffers
  pub video_empty : used q.video_queue ≡ 0
  pub audio_empty : used q.audio_queue ≡ 0
  pub in_budget :
      is_rgb v.format ≡ true → size q.video_buffers * q.video_buffer_bytes ≤ rgb_capture_budget

pub data Ready (v : Picture) : Option Queues → Type 0 where
  too_large : is_rgb v.format ≡ true → rgb_count v < 4 → Ready v none
  ready : {q : Queues} → Prepared v q → Ready v (some q)

not_both : (f : PixelFormat) → is_rgb f ≡ true → is_mjpeg f ≡ false
not_both mjpeg h = cc
not_both rgb24 h = refl
not_both rgb32 h = refl
not_both auto h = refl
not_both nv12 h = refl
not_both yuy2 h = refl
not_both p010 h = refl
not_both uyvy h = refl

-- For any capture format: `PrepareQueues` gives up only on RGB frames of which the budget holds fewer
-- than four. Otherwise the queues are empty, no longer than their pools, and each pool has a buffer
-- to start with; and RGB buffers stay within the budget together.
pub prepare_queues-Ready : (v : Picture) → Ready v (prepare_queues v)
unfolding prepare_queues allocate
prepare_queues-Ready v = at (policy_for-Decided v)
  where
    at :
        {o : Option Policy}
        → Decided v o
        → Ready v (elim o [
          | none ↦ none
          | some policy ↦ some (record {
            video_queue = empty_queue policy.video_packets;
            audio_queue = empty_queue policy.audio_packets;
            video_buffers = allocate policy.video_buffers;
            audio_buffers = allocate policy.audio_buffers;
            video_buffer_bytes =
                if is_mjpeg v.format
                then (if v.bytes == 0 then v.width * v.height * 3 else v.bytes)
                else capture_bytes v;
          })
        ])
    at (refused rgb few) = too_large rgb few
    at (decided {p} s) =
        let video = length-replicate {A = ℕ} p.video_buffers 1 in
        let audio = length-replicate {A = ℕ} p.audio_buffers 1 in
        let video_slots = length-replicate {A = Option Packet} p.video_packets none in
        let audio_slots = length-replicate {A = Option Packet} p.audio_packets none in
        ready (record {
          video_leases = omega (arith, video, s.some_video);
          audio_leases = omega (arith, audio, s.some_audio);
          video_slots = video_slots ∙ s.video_alike ∙ sym video;
          audio_slots = omega (arith, audio_slots, audio, s.audio_alike);
          video_empty = refl;
          audio_empty = refl;
          in_budget = λ rgb.
              let plain : is_mjpeg v.format ≡ false = not_both v.format rgb in
              rw (plain, video) (s.in_budget rgb);
        })
