-- ===== src/Common/Hresult.antt =====
-- HRESULT as its 32-bit pattern. The severity bit is the top one; the constants are the documented
-- values of the Windows SDK headers.
use low_latency_capture_view.Common.Tests.{leb}
use Prim.Native.Nat.{ℕ}
use mathlib.Core.Bool.{Bool, not}

abbrev pub failed : ℕ → Bool
failed hr = leb 0x80000000 hr

abbrev pub succeeded : ℕ → Bool
succeeded hr = not (failed hr)

abbrev pub s_ok : ℕ
s_ok = 0

abbrev pub s_false : ℕ
s_false = 1

abbrev pub e_pointer : ℕ
e_pointer = 0x80004003

abbrev pub e_invalidarg : ℕ
e_invalidarg = 0x80070057

abbrev pub e_outofmemory : ℕ
e_outofmemory = 0x8007000E

abbrev pub e_unexpected : ℕ
e_unexpected = 0x8000FFFF

abbrev pub e_buffer_overflow : ℕ
e_buffer_overflow = 0x8007006F

abbrev pub mf_e_invalid_timestamp : ℕ
mf_e_invalid_timestamp = 0xC00D36C0

abbrev pub mf_e_invalidmediatype : ℕ
mf_e_invalidmediatype = 0xC00D36B4

abbrev pub vfw_e_type_not_accepted : ℕ
vfw_e_type_not_accepted = 0x8004022A

abbrev pub mf_e_invalid_stream_data : ℕ
mf_e_invalid_stream_data = 0xC00D36CB
