-- ===== src/Recording/Session.antt =====
-- src/recording/Recorder.cpp: the life of a recording, from `Start` over pauses, failures and `Stop` to
-- the end of the worker's `Run`, and `GetSnapshot`. Result codes are their 32-bit patterns; `now` is
-- what `GetTickCount64` returns. The diagnostics written to stderr and `TrackWorkerActivity` are left
-- out, and so is the path. Each function is one step under the locks it takes.
pub mod State
pub mod Formats
pub mod Start
pub mod Finish
pub mod Clock
pub mod Stages
pub mod Outcome
pub mod Starts
pub mod Suitable
pub mod Refusals
mod Examples
