-- ===== src/Recording/Pause/Examples.antt =====
-- The pause timeline at concrete inputs.
use low_latency_capture_view.Common.{◌≡◌, true, false, List, [], ◌∷◌, arith}
use low_latency_capture_view.Common.Int.{pos, max_ℤ, ◌+ℤ◌, ◌-ℤ◌}
use low_latency_capture_view.Recording.Pause.{
  Timeline, create, map, anchor, place, resume, skipped, advanced,
}
use low_latency_capture_view.Recording.Pause.Runs.{
  Piece, InOrder, written_audio, written_audio-InOrder, map_resume,
}

-- Audio, the same audio again half a second later and half overlapping, and video after a pause.
abbrev history : List Piece
history =
    record { video = false; generation = 0; time = pos 100; duration = pos 10000000 }
    ∷ record { video = false; generation = 0; time = pos 5000100; duration = pos 10000000 }
    ∷ record { video = true; generation = 2; time = pos 90000000; duration = pos 166667 }
    ∷ []

written_audio-InOrder_example : InOrder (pos 0) (written_audio create history)
unfolding create map anchor place resume skipped advanced max_ℤ ◌+ℤ◌ ◌-ℤ◌
written_audio-InOrder_example =
    written_audio-InOrder create history (omega arith, (omega arith, (omega arith, tt)))

abbrev paused : Timeline
paused = record {
  generation = 0;
  offset = pos 100;
  cut_source = pos 100;
  video_end = pos 500;
  audio_end = pos 700;
}

map_resume_example : (map true 2 (pos 9000) (pos 40) paused).1 ≡ record {
  time = max_ℤ (pos 500) (pos 700);
  duration = pos 40;
  skip_audio_frames = 0;
  keep = true;
}
map_resume_example =
    map_resume 2 9000 40 paused (omega arith) (omega arith) (omega arith) (omega arith)
