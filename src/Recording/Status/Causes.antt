-- ===== src/Recording/Status/Causes.antt =====
-- What a classified failure says of the result code.
use low_latency_capture_view.Common.{ℕ, ◌≡◌, ◌↔◌, true, arith}
use low_latency_capture_view.Common.Hresult.{succeeded}
use low_latency_capture_view.Recording.Status.{
  none, disk_full, Operation, classify_failure, input, storage, encoder, write, finalize, queue,
  is_disk_full,
}

-- A classified failure is none exactly on a success, whatever was being done; and the disk counts as
-- full exactly on the three codes that say so, whatever was being done.
classify_failure_iff :
    (hr : ℕ) (o : Operation)
    → ((classify_failure hr o ≡ none) ↔ (succeeded hr ≡ true))
      × ((classify_failure hr o ≡ disk_full) ↔ (is_disk_full hr ≡ true))
unfolding classify_failure
classify_failure_iff hr input = (ground arith, ground arith)
classify_failure_iff hr storage = (ground arith, ground arith)
classify_failure_iff hr encoder = (ground arith, ground arith)
classify_failure_iff hr write = (ground arith, ground arith)
classify_failure_iff hr finalize = (ground arith, ground arith)
classify_failure_iff hr queue = (ground arith, ground arith)
