-- ===== src/Audio/Ring/Examples.antt =====
-- PcmRing at concrete inputs.
use low_latency_capture_view.Common.{ℕ, ◌≡◌, List, [], ◌∷◌, none, some, arith, true}
use low_latency_capture_view.Audio.Ring.{Ring, create}
use low_latency_capture_view.Audio.Ring.View.{contents}
use low_latency_capture_view.Audio.Ring.Setup.{create-IsValid}
use low_latency_capture_view.Audio.Ring.Mailbox.{Call, pushes, pops, run, serve_all, run-serve}

abbrev small : Ring ℕ
small = create 0 3 (some 7)

-- Two pushes that overrun three stereo frames, and a pop.
abbrev calls : List (Call ℕ)
calls =
    pushes none (some (1 ∷ 2 ∷ 3 ∷ 4 ∷ [])) 2
    ∷ pushes (some (λ _. true)) (some (5 ∷ 6 ∷ 7 ∷ 8 ∷ [])) 2
    ∷ pops true 2
    ∷ []

run-serve_example :
    (contents 0 (run small calls).0 ≡ (serve_all 6 2 [] calls).0)
    × ((run small calls).1 ≡ (serve_all 6 2 [] calls).1)
unfolding create contents
run-serve_example =
    run-serve 0 calls small (create-IsValid 0 3 (some 7)) (omega arith, (omega arith, (tt, tt)))
