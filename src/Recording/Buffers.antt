-- ===== src/Recording/Buffers.antt =====
-- src/recording/RecordingBufferPool.h: the pool of recording buffers. A buffer is its place in the pool
-- and the count of references to it, of which the pool holds one; `bytes` and the pixels are left out.
pub mod Leases
mod Examples
use low_latency_capture_view.Common.{
  ℕ, zero, suc, ◌+◌, ◌-◌, ◌%◌, Bool, true, false, List, [], Option, none, some, ◌==◌, if◌then◌else◌,
  set, get_or, replicate, length,
}

pub record Pool : Type 0 where
  pub references : List ℕ
  pub next : ℕ

unfoldable pub allocate : ℕ → Pool
allocate count = record { references = replicate count 1; next = 0 }

-- `TryLease`: the exchange of one reference for two.
unfoldable pub try_lease : ℕ → List ℕ → List ℕ × Bool
try_lease i references =
    if get_or references i 0 == 1 then (set references i 2, true) else (references, false)

-- The `for` of `Acquire`, on the rounds that are left; the lease is the place of the buffer.
unfoldable pub scan : ℕ → Pool → Pool × Option ℕ
unfolding try_lease
scan zero p = (p, none)
scan (suc rounds) p =
    let (references, won) = try_lease p.next p.references in
    let p' : Pool = record { references = references; next = (p.next + 1) % length p.references } in
    let rest = scan rounds p' in if won then (p', some p.next) else rest

unfoldable pub acquire : Pool → Pool × Option ℕ
acquire p = scan (length p.references) p

-- `Release` by an encoder or a sample.
unfoldable pub release : ℕ → Pool → Pool
release i p = record p { references = set p.references i (get_or p.references i 0 - 1) }

unfoldable pub clear : Pool
clear = record { references = []; next = 0 }
