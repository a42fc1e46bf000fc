-- ===== src/Recording/Status.antt =====
-- src/recording/RecordingStatus.h, RecordingSafetyPolicy.h and RecordingAdmission.h: the phases of a
-- recording, how a failure is classified, and the admission of capture callbacks. A result code is
-- its 32-bit pattern.
pub mod Phases
pub mod Causes
mod Examples
use low_latency_capture_view.Common.{
  ℕ, zero, suc, Bool, true, false, not, ◌&&◌, ◌||◌, ◌==◌, if◌then◌else◌,
}
use low_latency_capture_view.Common.Hresult
use low_latency_capture_view.Common.Hresult.{succeeded, mf_e_invalid_timestamp}

pub data Phase : Type 0 where
  idle starting recording finalizing saved failed : Phase

pub data Failure : Type 0 where
  none disk_full write_failed encoder_overload encoder_failed : Failure
  invalid_input storage_unavailable finalize_failed : Failure

pub data Operation : Type 0 where
  input storage encoder write finalize queue : Operation

-- A failed close hides a failed write, and nothing else does.
pub finalization_result : ℕ → ℕ → ℕ
finalization_result pending_write finalize_hr =
    if Hresult.failed finalize_hr then finalize_hr else pending_write

abbrev pub error_disk_full : ℕ
error_disk_full = 0x80070070

abbrev pub error_handle_disk_full : ℕ
error_handle_disk_full = 0x80070027

abbrev pub stg_e_mediumfull : ℕ
stg_e_mediumfull = 0x80030070

abbrev pub is_disk_full : ℕ → Bool
is_disk_full hr = hr == error_disk_full || hr == error_handle_disk_full || hr == stg_e_mediumfull

-- STG_E_WRITEFAULT, and ERROR_WRITE_FAULT, ERROR_IO_DEVICE, ERROR_CRC, ERROR_DISK_CORRUPT and
-- ERROR_FILE_CORRUPT as result codes.
abbrev pub is_write_fault : ℕ → Bool
is_write_fault hr =
    hr == 0x8003001D
    || hr == 0x8007001D
    || hr == 0x8007045D
    || hr == 0x80070017
    || hr == 0x80070571
    || hr == 0x80070570

abbrev pub by_operation : Operation → Failure
by_operation input = invalid_input
by_operation storage = storage_unavailable
by_operation encoder = encoder_failed
by_operation write = write_failed
by_operation finalize = finalize_failed
by_operation queue = encoder_overload

unfoldable pub classify_failure : ℕ → Operation → Failure
classify_failure hr operation =
    if succeeded hr
    then none
    else if hr == mf_e_invalid_timestamp
    then invalid_input
    else if is_disk_full hr
    then disk_full
    else if is_write_fault hr
    then write_failed
    else by_operation operation

-- `TryPublishRecording`: one compare-and-swap.
unfoldable pub try_publish_recording : Phase → Phase × Bool
try_publish_recording starting = (recording, true)
try_publish_recording p = (p, false)

-- `BeginFinalizing`: its loop ends when the swap succeeds or the phase is another one.
unfoldable pub begin_finalizing : Phase → Phase
begin_finalizing starting = finalizing
begin_finalizing recording = finalizing
begin_finalizing p = p

abbrev pub is_recording : Phase → Bool
is_recording recording = true
is_recording _ = false

-- The last argument of each stream is what its write index is read as.
pub ready_to_finalize_recording : Bool → Phase → ℕ → ℕ → ℕ → ℕ → ℕ → Bool
ready_to_finalize_recording stop phase producers video_read video_write audio_read audio_write =
    if not stop || is_recording phase || not (producers == 0)
    then false
    else video_read == video_write && audio_read == audio_write
