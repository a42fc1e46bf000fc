-- ===== src/Recording/Session/Clock.antt =====
-- The recording time that a snapshot shows.
use low_latency_capture_view.Common.{
  ℕ, ◌+◌, ◌-◌, ◌%◌, ◌^◌, ◌≤◌, ◌<◌, ◌≡◌, refl, sym, ◌∙◌, subst, Bool, true, false, not, List, [],
  ◌∷◌, ◌==◌, if◌then◌else◌, arith, none, leb, le→leb, pos-ne-zero,
}
use low_latency_capture_view.Recording.Status.{recording, try_publish_recording}
use low_latency_capture_view.Recording.Options.{Options}
use low_latency_capture_view.Recording.Session.State.{
  Session, set_paused, elapsed_ms, paused, sub_u64, add_u64, stop,
}
use low_latency_capture_view.Recording.Session.Formats.{Video, Audio, refusal}
use low_latency_capture_view.Recording.Session.Start.{start, publish_start, fresh, begin_worker}

-- A request to pause or to resume, and its time.
pub data Request : Type 0 where
  pauses resumes : ℕ → Request

pub requested : Session → List Request → Session
requested s [] = s
requested s (pauses at ∷ rs) = requested (set_paused true at s).0 rs
requested s (resumes at ∷ rs) = requested (set_paused false at s).0 rs

-- The time spent recording: `since` is the last change, `active` what was recorded up to it.
pub recorded : Bool → ℕ → ℕ → List Request → ℕ → ℕ
recorded false since active [] end = active + (end - since)
recorded true since active [] end = active
recorded false since active (pauses at ∷ rs) end = recorded true at (active + (at - since)) rs end
recorded false since active (resumes at ∷ rs) end = recorded false since active rs end
recorded true since active (pauses at ∷ rs) end = recorded true since active rs end
recorded true since active (resumes at ∷ rs) end = recorded false at active rs end

-- The times of the requests do not go back, and are those of a clock of 64 bits.
abbrev pub Forward : ℕ → List Request → ℕ → Type 0
Forward from [] end = (from ≤ end) × (end < 2 ^ 64)
Forward from (pauses at ∷ rs) end = (from ≤ at) × Forward at rs end
Forward from (resumes at ∷ rs) end = (from ≤ at) × Forward at rs end

-- A recording that runs, has recorded for `active` and changed last at `since`.
pub record Runs (b : Bool) (since active : ℕ) (s : Session) : Type 0 where
  pub is_busy : s.busy ≡ true
  pub goes_on : s.stopping ≡ false
  pub in_phase : s.phase ≡ recording
  pub not_stopped : s.stopped_ms ≡ 0
  pub has_started : 0 < s.started_ms
  pub parity : paused s ≡ b
  pub since_when : s.paused_since_ms ≡ (if b then since else 0)
  pub adds_up : s.started_ms + s.total_paused_ms + active ≡ since

sub_u64_le : (a b : ℕ) → b ≤ a → a < 2 ^ 64 → sub_u64 a b ≡ a - b
sub_u64_le a b h l = omega arith

add_u64_lt : (a b : ℕ) → a + b < 2 ^ 64 → add_u64 a b ≡ a + b
add_u64_lt a b l = omega arith

parity_flips : (g : ℕ) (b : Bool) → (g % 2 == 1) ≡ b → (add_u64 g 1 % 2 == 1) ≡ not b
parity_flips g true h = ground arith
parity_flips g false h = ground arith

elapsed_running :
    (b : Bool) (since active end : ℕ) (s : Session)
    → Runs b since active s
    → since ≤ end
    → end < 2 ^ 64
    → elapsed_ms end s ≡ recorded b since active [] end
unfolding elapsed_ms recorded
elapsed_running true since active end s v h l =
    let p = s.paused_since_ms in
    let later : (p == 0) ≡ false =
      pos-ne-zero p (omega (arith, v.since_when, v.adds_up, v.has_started)) in
    let first : leb p end ≡ true = le→leb p end (omega (arith, v.since_when)) in
    let second : leb s.started_ms end ≡ true = le→leb _ _ (omega (arith, v.adds_up)) in
    let begun : (s.started_ms == 0) ≡ false = pos-ne-zero s.started_ms v.has_started in
    let here : sub_u64 end p ≡ end - p = sub_u64_le end p (omega (arith, v.since_when)) l in
    let all : sub_u64 end s.started_ms ≡ end - s.started_ms =
      sub_u64_le _ _ (omega (arith, v.adds_up)) l in
    let total : add_u64 s.total_paused_ms (end - p) ≡ s.total_paused_ms + (end - p) =
      add_u64_lt _ _ (omega (arith, v.since_when, v.adds_up)) in
    let less : leb (s.total_paused_ms + (end - p)) (end - s.started_ms) ≡ true =
      le→leb _ _ (omega (arith, v.since_when, v.adds_up)) in
    rw (v.not_stopped, later, first, begun, second, here, all, total, less)
      (sub_u64_le _ _ (omega (arith, v.since_when, v.adds_up)) (omega arith)
        ∙ omega (arith, v.since_when, v.adds_up))
elapsed_running false since active end s v h l =
    let second : leb s.started_ms end ≡ true = le→leb _ _ (omega (arith, v.adds_up)) in
    let begun : (s.started_ms == 0) ≡ false = pos-ne-zero s.started_ms v.has_started in
    let all : sub_u64 end s.started_ms ≡ end - s.started_ms =
      sub_u64_le _ _ (omega (arith, v.adds_up)) l in
    let less : leb s.total_paused_ms (end - s.started_ms) ≡ true =
      le→leb _ _ (omega (arith, v.adds_up)) in
    rw (v.not_stopped, v.since_when, begun, second, all, less)
      (sub_u64_le _ _ (omega (arith, v.adds_up)) (omega arith) ∙ omega (arith, v.adds_up))

Forward-bound :
    (from : ℕ) (rs : List Request) (end : ℕ) → Forward from rs end → (from ≤ end) × (end < 2 ^ 64)
Forward-bound from [] end h = h
Forward-bound from (pauses at ∷ rs) end (h, k) =
    let (le, lt) = Forward-bound at rs end k in (omega arith, lt)
Forward-bound from (resumes at ∷ rs) end (h, k) =
    let (le, lt) = Forward-bound at rs end k in (omega arith, lt)

Forward-earlier :
    (a b : ℕ) (rs : List Request) (end : ℕ) → a ≤ b → Forward b rs end → Forward a rs end
Forward-earlier a b [] end h (le, lt) = (omega arith, lt)
Forward-earlier a b (pauses at ∷ rs) end h (le, k) = (omega arith, k)
Forward-earlier a b (resumes at ∷ rs) end h (le, k) = (omega arith, k)

module _ (since active at : ℕ) (s : Session) (later : since ≤ at) (l : at < 2 ^ 64) where
  pauses-Runs :
      Runs false since active s → Runs true at (active + (at - since)) (set_paused true at s).0
  unfolding set_paused
  pauses-Runs v =
      rw (v.is_busy, v.goes_on, v.in_phase, v.parity)
        (record {
          is_busy = refl;
          goes_on = refl;
          in_phase = refl;
          not_stopped = v.not_stopped;
          has_started = v.has_started;
          parity = parity_flips s.pause_generation false v.parity;
          since_when = refl;
          adds_up = omega (arith, v.adds_up);
        })

  resumes-Runs : Runs true since active s → Runs false at active (set_paused false at s).0
  unfolding set_paused
  resumes-Runs v =
      let here : sub_u64 at s.paused_since_ms ≡ at - s.paused_since_ms =
        sub_u64_le _ _ (omega (arith, v.since_when)) l in
      let total : add_u64 s.total_paused_ms (at - s.paused_since_ms)
          ≡ s.total_paused_ms + (at - s.paused_since_ms) =
        add_u64_lt _ _ (omega (arith, v.since_when, v.adds_up)) in
      rw (v.is_busy, v.goes_on, v.in_phase, v.parity)
        (record {
          is_busy = refl;
          goes_on = refl;
          in_phase = refl;
          not_stopped = v.not_stopped;
          has_started = v.has_started;
          parity = parity_flips s.pause_generation true v.parity;
          since_when = refl;
          adds_up = omega (arith, here, total, v.since_when, v.adds_up);
        })

  repeats : (b : Bool) → Runs b since active s → (set_paused b at s).0 ≡ s
  unfolding set_paused
  repeats true v = rw (v.is_busy, v.goes_on, v.in_phase, v.parity) refl
  repeats false v = rw (v.is_busy, v.goes_on, v.in_phase, v.parity) refl

requested-elapsed :
    (b : Bool) (since active : ℕ) (rs : List Request) (end : ℕ) (s : Session)
    → Runs b since active s
    → Forward since rs end
    → (elapsed_ms end (requested s rs) ≡ recorded b since active rs end)
      × ((requested s rs).stopped_ms ≡ 0)
unfolding requested recorded
requested-elapsed b since active [] end s v f =
    (elapsed_running b since active end s v f.0 f.1, v.not_stopped)
requested-elapsed false since active (pauses at ∷ rs) end s v (h, k) =
    let (le, lt) = Forward-bound at rs end k in
    requested-elapsed true at (active + (at - since)) rs end _
      (pauses-Runs since active at s h (omega arith) v) k
requested-elapsed false since active (resumes at ∷ rs) end s v (h, k) =
    let (le, lt) = Forward-bound at rs end k in
    requested-elapsed false since active rs end _
      (subst (Runs false since active) (sym (repeats since active at s h (omega arith) false v)) v)
      (Forward-earlier since at rs end h k)
requested-elapsed true since active (pauses at ∷ rs) end s v (h, k) =
    let (le, lt) = Forward-bound at rs end k in
    requested-elapsed true since active rs end _
      (subst (Runs true since active) (sym (repeats since active at s h (omega arith) true v)) v)
      (Forward-earlier since at rs end h k)
requested-elapsed true since active (resumes at ∷ rs) end s v (h, k) =
    let (le, lt) = Forward-bound at rs end k in
    requested-elapsed false at active rs end _ (resumes-Runs since active at s h (omega arith) v) k

elapsed_stopped :
    (end later : ℕ) (s : Session)
    → s.stopped_ms ≡ 0
    → 0 < end
    → elapsed_ms later (stop end s) ≡ elapsed_ms end s
unfolding elapsed_ms stop
elapsed_stopped end later s z p = rw (z, pos-ne-zero end p) refl

module _ (o : Options) (v : Video) (a : Audio) (now began : ℕ) (s : Session) where
  -- The session that `Start` accepted and the worker published.
  abbrev pub published : Session
  published = publish_start began (start true true o v a now s).0

  published-Runs :
      s.busy ≡ false → refusal true o v a ≡ none → 0 < began → Runs false began 0 published
  unfolding publish_start start begin_worker fresh try_publish_recording
  published-Runs idle accepted p =
      rw (idle, accepted)
        (record {
          is_busy = refl;
          goes_on = refl;
          in_phase = refl;
          not_stopped = refl;
          has_started = p;
          parity = refl;
          since_when = refl;
          adds_up = omega arith;
        })

  -- A recording that `Start` accepts, whose worker publishes it at `began`, and any requests to pause
  -- and to resume at times that do not go back: the time shown at `end` is the time that was not
  -- paused; and when the recording is stopped at `end`, it is what is shown ever after.
  pub published-elapsed :
      (rs : List Request) (end later : ℕ)
      → s.busy ≡ false
      → refusal true o v a ≡ none
      → 0 < began
      → Forward began rs end
      → (elapsed_ms end (requested published rs) ≡ recorded false began 0 rs end)
        × (elapsed_ms later (stop end (requested published rs)) ≡ recorded false began 0 rs end)
  published-elapsed rs end later idle accepted p f =
      let (shown, goes_on) =
        requested-elapsed false began 0 rs end published (published-Runs idle accepted p) f in
      let (le, lt) = Forward-bound began rs end f in
      (shown, elapsed_stopped end later (requested published rs) goes_on (omega arith) ∙ shown)
