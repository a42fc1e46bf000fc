-- ===== src/Lib.antt =====
-- LowLatencyCaptureViewer shows a capture device with little delay, plays its sound, and can record
-- both. This library models the parts that pass samples between threads, decide what is recorded, and
-- recover from failures. Paths are those of the repository.
--
-- Common: shared tests, lists, rings of slots, signed integers, and Windows result codes.
--
-- Audio
--   Audio.Ring is src/audio/PcmPipeline.h and .cpp, class PcmRing: `create`, `configure_channels`,
--   `push`, `pop` and `clear` are its constructor and methods; `prepare_write`, `make_space` and
--   `publish_available` are its private ones. Each call is one step under the ring's mutex. The loop of
--   PrepareWrite runs on fuel 2: a round drops all that is over.
--   Audio.Ring.Converted is its PushConverted.
--   Audio.Formats is src/audio/CaptureAudioFormat.h and .cpp: the media types that are accepted, the
--   choice among those of a pin, and the conversion of samples. What the machine does with floats is
--   an argument.
--   Audio.LogQueue is src/audio/RealtimeLogQueue.h: `push`, `pop`, `take_dropped` and `empty`, and in
--   LogQueue.Threads the loads and stores of both threads as steps, in any interleaving. The steps are
--   sequentially consistent; the release and acquire pairs of the two indices are what orders a slot
--   between the threads.
--   Audio.Recovery is src/audio/RecoveryPolicy.h and src/capture/AudioInputRecovery.h: the retry
--   budget, the packet watchdog, and the retry loop over any world. The loop runs on fuel 4, one more
--   than its limit of retries.
--
-- Capture
--   Capture.LatestSample is src/capture/LatestVideoSample.h and .cpp: the slot of one frame between
--   the capture callback and the render thread. Frames are numbers; the calls of AddRef and Release
--   are a log.
--
-- Recording
--   Recording.Status is src/recording/RecordingStatus.h, RecordingSafetyPolicy.h and
--   RecordingAdmission.h. Recording.Options is src/recording/RecordingOptions.h. Recording.Pause is
--   src/recording/RecordingPauseTimeline.h, the map that leaves pauses out of the recording.
--   Recording.Session is the state machine of src/recording/Recorder.cpp: State holds Fail, Stop,
--   SetPaused and the time shown by GetSnapshot, Formats and Start hold Start and its tests, Finish
--   holds Run from the end of its loop; Suitable says in its own words what can be recorded. The
--   results of Media Foundation and of the file are arguments.
--   Session uses the phases of Status and the options of Options. Recording.Buffers is
--   src/recording/RecordingBufferPool.h; the loop of Acquire runs once for each buffer, as in the
--   source. Recording.Mux is src/recording/RecordingTimeline.h, over a writer known by what its calls
--   return; the loop of PrefixAudio runs on as many rounds as there are frames, and each goes on by
--   one at least. Recording.Delivery is the way of a sample from the capture callback to the
--   worker's queues in src/recording/Recorder.cpp, `Push`, `PushAudioChunks` and `PrepareQueues`, with
--   RecordingDeliveryPolicy.h and RgbRecordingPolicy.h; it leases from Buffers and fails as Status
--   names it. Recording.Limiter is the FrameLimiter of src/recording/RecordingOptions.h.
--
-- Video
--   Video.Transition is src/video/OutputTransitionState.h and ExclusivePresentationState.h.
--
-- Update
--   Update.Release is the order of release tags in src/update/UpdateChecker.cpp; `iswdigit` is an
--   argument.
--   Update.Response is the reading of the server's answer in the same file; `Utf8ToWide`, which asks
--   the system, is an argument. The loop over the installers runs on as many rounds as the answer has
--   characters; each round moves on by one at least, as Update.Response.Rounds has it.
--   Update.Notes is the address of the release notes in UpdateChecker.cpp.
--   Update.Task is src/update/UpdateCheckTask.h: the calls of the owner and the function of the thread
--   are cut where one waits for the other, and an action lets one of the two go on. The fetch is an
--   argument. What the mutex guards is one action.
--
-- Ui
--   Ui.WindowGeometry is src/ui/WindowGeometry.h and .cpp; MulDiv is an argument, of which a hypothesis
--   says that it rounds to the nearest integer.
--
-- Input
--   Input.Shortcuts is src/input/Shortcuts.h in a build with recording. The loop of Expand runs on as
--   many rounds as the text has characters, and each takes one at least.
--
-- Bounds: uint64 and uint32 values keep their wrap-around where the source can reach it; int64 times
-- are integers. A result code is its 32-bit pattern.
--
-- Not modelled: windows, menus and settings dialogs, Direct3D and WASAPI calls, DirectShow graph
-- building, container writing, the download of releases, tests, and third_party.
pub mod Common
pub mod Audio
pub mod Capture
pub mod Recording
pub mod Video
pub mod Update
pub mod Ui
pub mod Input
