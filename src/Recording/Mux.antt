-- ===== src/Recording/Mux.antt =====
-- src/recording/RecordingTimeline.h: what the worker hands to the writer of a fragmented file. Times are
-- integers in units of 100 ns. The writer is known by what its calls return; a sample by its times.
pub mod Tiles
pub mod Worker
mod Examples
use low_latency_capture_view.Common.{
  ℕ, zero, suc, ◌+◌, ◌-◌, ◌*◌, ◌/◌, min, Bool, true, false, not, ◌||◌, List, [], ◌∷◌, ◌++◌, Option,
  none, some, ◌==◌, leb, if◌then◌else◌, length,
}
use low_latency_capture_view.Common.Hresult.{failed, s_ok, mf_e_invalid_timestamp}
use low_latency_capture_view.Common.Int.{ℤ, pos, pos_part, ltb_ℤ, leb_ℤ, eqb_ℤ, ◌-ℤ◌}

-- A sample, with what its getters return.
pub record Sample : Type 0 where
  pub time_hr : ℕ
  pub duration_hr : ℕ
  pub time : ℤ
  pub duration : ℤ

pub record Write : Type 0 where
  pub video : Bool
  pub time : ℤ
  pub duration : ℤ

-- What the calls return when so many samples have been offered: `WriteSample`, the calls that make a
-- sample of the prefix, and `SetSampleDuration`.
pub record World : Type 0 where
  pub write_hr : ℕ → ℕ
  pub make_hr : ℕ → ℕ
  pub set_hr : ℕ → ℕ

pub record Mux : Type 0 where
  pub first_video : Bool
  pub first_audio : Bool
  pub pending : Option Sample
  pub writes : List Write  -- every sample offered to the writer, in order

pub create : Mux
create = record { first_video = true; first_audio = true; pending = none; writes = [] }

abbrev pub maximum_prefix : ℤ
maximum_prefix = pos 50000000

-- `WriteSample`
pub offer : World → Write → Mux → Mux × ℕ
offer w x m = (record m { writes = m.writes ++ x ∷ [] }, w.write_hr (length m.writes))

abbrev pub as_write : Bool → Sample → Write
as_write video s = record { video = video; time = s.time; duration = s.duration }

-- What `Finish` does with the sample that it has moved out of `pending_`.
pub finish_with : World → Option Sample → Mux → Mux × ℕ
finish_with w none m = (m, s_ok)
finish_with w (some s) m = offer w (as_write true s) m

pub finish : World → Mux → Mux × ℕ
finish w m = finish_with w m.pending (record m { pending = none })

-- The sample becomes the pending one, unless what came before failed.
pub keep : Sample → Mux × ℕ → Mux × ℕ
keep s (m, hr) = if failed hr then (m, hr) else (record m { pending = some s }, s_ok)

-- `Push` of video behind a pending sample, whose duration becomes known.
pub push_next : World → Sample → Sample → Mux → Mux × ℕ
push_next w s p m =
    let known : Mux = record m { pending = some (record p { duration = s.time -ℤ p.time }) } in
    let hr = w.set_hr (length m.writes) in
    if leb_ℤ s.time p.time
    then (m, mf_e_invalid_timestamp)
    else if failed hr
    then (m, hr)
    else keep s (finish w known)

-- `Push` of the first video: a copy of it fills the time before it.
pub push_first : World → Sample → Mux → Mux × ℕ
push_first w s m =
    let begun : Mux = record m { first_video = false } in
    let hr = w.make_hr (length m.writes) in
    let prefix : Write = record { video = true; time = pos 0; duration = s.time } in
    if ltb_ℤ maximum_prefix s.time
    then (m, mf_e_invalid_timestamp)
    else if eqb_ℤ s.time (pos 0)
    then keep s (begun, s_ok)
    else if failed hr
    then (begun, hr)
    else keep s (offer w prefix begun)

pub push_video : World → Sample → Option Sample → Mux → Mux × ℕ
push_video w s (some p) m = push_next w s p m
push_video w s none m = if m.first_video then push_first w s m else keep s (m, s_ok)

-- The loop of `PrefixAudio` from `first` on: silence in pieces of 4800 frames; each round goes on by a
-- frame at least, so as many rounds as there are frames are enough.
pub prefix_from : World → ℕ → ℕ → ℕ → Mux → Mux × ℕ
prefix_from w zero first frames m = (m, s_ok)
prefix_from w (suc rounds) first frames m =
    let count = min 4800 (frames - first) in
    let silence : Write = record {
      video = false;
      time = pos (first * 10000000 / 48000);
      duration = pos ((first + count) * 10000000 / 48000 - first * 10000000 / 48000);
    } in
    let hr = w.make_hr (length m.writes) in
    let (m', written) = offer w silence m in
    let rest = prefix_from w rounds (first + count) frames m' in
    if leb frames first
    then (m, s_ok)
    else if failed hr
    then (m, hr)
    else if failed written
    then (m', written)
    else rest

pub prefix_audio : World → ℕ → Mux → Mux × ℕ
prefix_audio w offset m =
    let frames = (offset * 48000 + 5000000) / 10000000 in prefix_from w (suc frames) 0 frames m

-- What follows a prefix of the audio.
pub then_write : World → Sample → Mux × ℕ → Mux × ℕ
then_write w s (m, hr) = if failed hr then (m, hr) else offer w (as_write false s) m

pub push_audio : World → Sample → Mux → Mux × ℕ
push_audio w s m =
    if not m.first_audio
    then offer w (as_write false s) m
    else if ltb_ℤ maximum_prefix s.time
    then (m, mf_e_invalid_timestamp)
    else then_write w s (prefix_audio w (pos_part s.time) (record m { first_audio = false }))

-- `Push`; `fragmented` is fixed when the timeline is made.
pub push : World → Bool → Bool → Sample → Mux → Mux × ℕ
push w fragmented video s m =
    if not fragmented
    then offer w (as_write video s) m
    else if failed s.time_hr
    then (m, s.time_hr)
    else if failed s.duration_hr
    then (m, s.duration_hr)
    else if ltb_ℤ s.time (pos 0) || leb_ℤ s.duration (pos 0)
    then (m, mf_e_invalid_timestamp)
    else if video
    then push_video w s m.pending m
    else push_audio w s m
