-- ===== src/Recording/Session/Examples.antt =====
-- The life of a recording at concrete inputs.
use low_latency_capture_view.Common.{
  ◌≡◌, refl, true, false, none, some, List, [], ◌∷◌, inl, arith, ◌==◌, ◌&&◌, if◌then◌else◌,
}
use low_latency_capture_view.Common.Int.{pos}
use low_latency_capture_view.Recording.Status
use low_latency_capture_view.Recording.Status.{idle, saved, storage}
use low_latency_capture_view.Recording.Options.{defaults, valid}
use low_latency_capture_view.Recording.Session.State.{Session, elapsed_ms, stop}
use low_latency_capture_view.Recording.Session.Formats.{Video, Audio, nv12, uyvy, refusal}
use low_latency_capture_view.Recording.Session.Start.{start}
use low_latency_capture_view.Recording.Session.Finish.{Ending, finish}
use low_latency_capture_view.Recording.Session.Clock.{
  pauses, resumes, Request, requested, recorded, published, published-elapsed,
}
use low_latency_capture_view.Recording.Session.Outcome.{all_well, finish-saved}
use low_latency_capture_view.Recording.Session.Starts.{StartResult, start-StartResult}

abbrev video : Video
video = record {
  is_valid = true;
  format = nv12;
  width = pos 1920;
  height = pos 1080;
  fps = pos 60;
  stride = 1920;
  interlace = 0;
  color_present = false;
  primaries = 0;
  transfer = 0;
  transfer_matrix = 0;
}

abbrev audio : Audio
audio = record {
  channels = 2;
  container_bits = 16;
  valid_bits = 16;
  integer_pcm = true;
  block_align = 4;
}

abbrev before : Session
before = record {
  busy = false;
  stopping = false;
  phase = idle;
  result = 0;
  finalize_result = 0;
  failure = Status.none;
  started_ms = 0;
  stopped_ms = 0;
  pause_generation = 0;
  paused_since_ms = 0;
  total_paused_ms = 0;
  session = 0;
  video_count = 5;
  audio_count = 7;
  playable = false;
}

-- UYVY video is refused.
start-StartResult_example :
    StartResult true defaults
      (record video { format = uyvy })
      audio
      before
      true
      (start true true defaults (record video { format = uyvy }) audio 40 before)
start-StartResult_example =
    start-StartResult true true defaults (record video { format = uyvy }) audio 40 before

-- Published at 100, paused from 300 to 700, and again from 900 on.
abbrev requests : List Request
requests = pauses 300 ∷ resumes 700 ∷ resumes 800 ∷ pauses 900 ∷ []

accepted : refusal true defaults video audio ≡ none
unfolding refusal valid
accepted = refl

published-elapsed_example :
    (elapsed_ms 1000 (requested (published defaults video audio 40 100 before) requests)
      ≡ recorded false 100 0 requests 1000)
    × (elapsed_ms 5000
          (stop 1000 (requested (published defaults video audio 40 100 before) requests))
        ≡ recorded false 100 0 requests 1000)
published-elapsed_example =
    published-elapsed defaults video audio 40 100 before requests 1000 5000 refl accepted
      (omega arith)
      (omega arith, (omega arith, (omega arith, (omega arith, (omega arith, omega arith)))))

-- The disk is full when the file is closed.
abbrev full : Ending
full = record {
  broke = none;
  begun = true;
  pending = 0;
  finalized = 0;
  storage = some (0, 0x80070070);
  verified = 0;
}

finish-saved_example :
    (finish full 2000 before).phase
    ≡ (if before.result == 0 && all_well full before then saved else Status.failed)
finish-saved_example = finish-saved full 2000 before tt (inl refl)
