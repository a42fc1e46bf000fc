-- ===== src/Capture/LatestSample.antt =====
-- src/capture/LatestVideoSample.cpp: the slot of one video frame between the capture callback and the
-- render thread. A frame is known by a number; the slot's calls of `AddRef` and `Release` on frames
-- are written to a log, newest first. Result codes are their 32-bit patterns, `long` is an integer.
pub mod History
pub mod Balance
mod Examples
use low_latency_capture_view.Common.{
  ℕ, ◌+◌, ◌%◌, ◌^◌, Bool, true, false, not, ◌||◌, ◌&&◌, List, [], ◌∷◌, ◌==◌, Option, none, some,
  ltb, leb, if◌then◌else◌,
}
use low_latency_capture_view.Common.Int.{ℤ, pos, pos_part, leb_ℤ, ltb_ℤ}
use low_latency_capture_view.Common.Hresult.{
  failed, succeeded, s_ok, s_false, e_pointer, vfw_e_type_not_accepted,
}
use mathlib.Core.Option

-- What the slot asks of a sample: the frame, its `GetActualDataLength` and its `GetSize`.
pub record Sample : Type 0 where
  pub frame : ℕ
  pub data_length : ℤ
  pub size : ℤ

pub data ComCall : Type 0 where
  add_ref release : ℕ → ComCall

-- `none` is a null pointer of the telemetry.
pub record Config : Type 0 where
  pub expected_bytes : ℕ
  pub tracking_start : Option ℕ

pub record Slot : Type 0 where
  pub latest : Option ℕ
  pub arrival : ℤ
  pub rejected_samples : ℕ  -- uint64
  pub format_failure : ℕ
  pub captured_frames : Option ℕ
  pub replaced_frames : Option ℕ
  pub ready : Bool  -- readyEvent_
  pub log : List ComCall

pub create : Option ℕ → Option ℕ → Slot
create captured replaced = record {
  latest = none;
  arrival = pos 0;
  rejected_samples = 0;
  format_failure = s_ok;
  captured_frames = captured;
  replaced_frames = replaced;
  ready = false;
  log = [];
}

-- `now` is what `GetTickCount64` returns.
abbrev pub tracking_active : Config → ℕ → Bool
tracking_active c now = elim c.tracking_start [ none ↦ false | some start ↦ leb start now ]

-- `fetch_add(1)` behind a pointer that may be null, while tracking.
abbrev pub counted : Bool → Option ℕ → Option ℕ
counted active n = if active then Option.map (λ k. (k + 1) % 2 ^ 64) n else n

abbrev pub acceptable : Config → Sample → Bool
acceptable c s = not (
    leb_ℤ s.data_length (pos 0)
    || ltb_ℤ s.size s.data_length
    || ltb (pos_part s.data_length) c.expected_bytes)

-- `SafeRelease` of what was in the slot, or of what a caller holds.
pub safe_release : Option ℕ → List ComCall → List ComCall
safe_release none log = log
safe_release (some frame) log = release frame ∷ log

abbrev is_some : Option ℕ → Bool
is_some none = false
is_some (some frame) = true

-- The part of `Push` behind the test of the sample; the clock is read twice.
pub publish : Config → ℕ → ℤ → ℕ → ℕ → Slot → Slot
publish c frame arrival now1 now2 s =
    if failed s.format_failure
    then record s { log = release frame ∷ add_ref frame ∷ s.log }
    else record s {
      latest = some frame;
      arrival = arrival;
      replaced_frames = counted (is_some s.latest && tracking_active c now1) s.replaced_frames;
      captured_frames = counted (tracking_active c now2) s.captured_frames;
      ready = true;
      log = safe_release s.latest (add_ref frame ∷ s.log);
    }

pub push : Config → Option Sample → ℤ → ℕ → ℕ → Slot → Slot
push c none arrival now1 now2 s = record s { rejected_samples = (s.rejected_samples + 1) % 2 ^ 64 }
push c (some m) arrival now1 now2 s =
    if acceptable c m
    then publish c m.frame arrival now1 now2 s
    else record s { rejected_samples = (s.rejected_samples + 1) % 2 ^ 64 }

-- The failure that a rejection stands for.
abbrev pub verdict : ℕ → ℕ
verdict failure = if failed failure then failure else vfw_e_type_not_accepted

pub reject_format : ℕ → Slot → Slot
reject_format failure s = record s {
  format_failure = if succeeded s.format_failure then verdict failure else s.format_failure;
  latest = none;
  ready = true;
  log = safe_release s.latest s.log;
}

-- The slot after, and the frame with its arrival; `arrivalMicroseconds` stays as it was on `none`.
pub take_latest : Slot → Slot × Option (ℕ × ℤ)
take_latest s = (record s { latest = none }, Option.map (λ frame. (frame, s.arrival)) s.latest)

-- What `RefreshAfterOutputReset` does with what it has taken.
pub refreshed : Config → Option ℕ → ℤ → ℕ → Slot → Option (ℕ × ℤ) → Slot × Option ℕ × ℤ
refreshed c current arrival now s none = (s, current, arrival)
refreshed c current arrival now s (some (newer, at)) = (
  record s {
    replaced_frames = counted (is_some current && tracking_active c now) s.replaced_frames;
    log = safe_release current s.log;
  },
  some newer,
  at,
)

pub refresh_after_output_reset : Config → Option ℕ → ℤ → ℕ → Slot → Slot × Option ℕ × ℤ
refresh_after_output_reset c current arrival now s =
    let (s', taken) = take_latest s in refreshed c current arrival now s' taken

-- `GetMediaType` of a sample: its result, and whether there is a type and it matches the format.
pub record TypeChange : Type 0 where
  pub result : ℕ
  pub changed : Bool
  pub matching : Bool  -- MatchesVideoSampleFormat

abbrev pub same_format : TypeChange → Bool
same_format t =
    (t.result == s_false && not t.changed) || (t.result == s_ok && t.changed && t.matching)

-- `SampleCB` of a callback that has a slot; the recorder is given the frame as well, apart from this.
pub sample_cb : Config → Option (Sample × TypeChange) → ℤ → ℕ → ℕ → Slot → Slot × ℕ
sample_cb c none arrival now1 now2 s = (s, e_pointer)
sample_cb c (some (m, t)) arrival now1 now2 s =
    if failed s.format_failure
    then (s, vfw_e_type_not_accepted)
    else if not (same_format t)
    then (
      reject_format (if failed t.result then t.result else vfw_e_type_not_accepted) s,
      vfw_e_type_not_accepted,
    )
    else (push c (some m) arrival now1 now2 s, s_ok)
