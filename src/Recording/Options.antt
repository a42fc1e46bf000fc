-- ===== src/Recording/Options.antt =====
-- src/recording/RecordingOptions.h: the recording's options. `int` values are integers that do not
-- overflow; a string is its characters.
pub mod Sizes
mod Examples
use low_latency_capture_view.Common.{
  ℕ, suc, ◌+◌, ◌-◌, ◌*◌, ◌/◌, ◌%◌, max, min, Bool, true, false, not, ◌||◌, ◌&&◌, List, [], ◌∷◌,
  ◌==◌, leb, ltb, if◌then◌else◌,
}
use low_latency_capture_view.Common.Int.{
  ℤ, pos, negsuc, pos_part, eqb_ℤ, leb_ℤ, max_ℤ, min_ℤ, tdiv_ℤ, ◌*ℤ◌,
}

-- An enumeration is the number behind it, which `Valid` tests.
pub record Options : Type 0 where
  pub codec : ℤ
  pub encoder : List ℕ
  pub max_fps : ℤ
  pub max_height : ℤ
  pub split_mode : ℤ
  pub split_seconds : ℤ
  pub split_mib : ℤ
  pub video_mbps : ℤ
  pub rate_control : ℤ
  pub quality : ℤ
  pub audio_kbps : ℤ
  pub audio_volume_percent : ℤ
  pub folder : List ℕ

-- The initial values of the members.
abbrev pub defaults : Options
defaults = record {
  codec = pos 0;
  encoder = [];
  max_fps = pos 60;
  max_height = pos 1080;
  split_mode = pos 0;
  split_seconds = pos 1800;
  split_mib = pos 4096;
  video_mbps = pos 20;
  rate_control = pos 0;
  quality = pos 1;
  audio_kbps = pos 192;
  audio_volume_percent = pos 100;
  folder = [];
}

-- `L"cpu"`, or nothing.
abbrev pub known_encoder : List ℕ → Bool
known_encoder [] = true
known_encoder (a ∷ []) = false
known_encoder (a ∷ b ∷ []) = false
known_encoder (a ∷ b ∷ c ∷ []) = a == 99 && b == 112 && c == 117
known_encoder (a ∷ b ∷ c ∷ d ∷ rest) = false

-- A folder has no line break and no zero.
abbrev pub plain : List ℕ → Bool
plain [] = true
plain (c ∷ cs) = not (c == 13 || c == 10 || c == 0) && plain cs

abbrev pub within : ℕ → ℕ → ℤ → Bool
within low high x = leb_ℤ (pos low) x && leb_ℤ x (pos high)

abbrev pub known_height : ℤ → Bool
known_height h = eqb_ℤ h (pos 0) || eqb_ℤ h (pos 720) || eqb_ℤ h (pos 1080) || eqb_ℤ h (pos 1440)

abbrev pub known_fps : ℤ → Bool
known_fps f = eqb_ℤ f (pos 0) || eqb_ℤ f (pos 30) || eqb_ℤ f (pos 60)

-- What `Valid` tests behind the height.
abbrev pub valid_rest : Options → Bool
valid_rest o =
    within 0 2 o.split_mode
    && within 1 86400 o.split_seconds
    && within 1 1048576 o.split_mib
    && within 2 100 o.video_mbps
    && within 0 1 o.rate_control
    && within 0 2 o.quality
    && (eqb_ℤ o.audio_kbps (pos 128) || eqb_ℤ o.audio_kbps (pos 192))
    && within 0 100 o.audio_volume_percent
    && known_encoder o.encoder
    && plain o.folder

unfoldable pub valid : Options → Bool
valid o = within 0 2 o.codec && known_fps o.max_fps && known_height o.max_height && valid_rest o

pub output_fps : Options → ℤ → ℤ
output_fps o source = if eqb_ℤ o.max_fps (pos 0) then source else min_ℤ source o.max_fps

-- `& ~1`
abbrev pub even_floor : ℤ → ℤ
even_floor (pos n) = pos (n / 2 * 2)
even_floor (negsuc n) = negsuc (n / 2 * 2 + 1)

pub output_size : Options → ℤ → ℤ → ℤ × ℤ
output_size o width height =
    if eqb_ℤ o.max_height (pos 0) || leb_ℤ height o.max_height
    then (width, height)
    else (max_ℤ (pos 2) (even_floor (tdiv_ℤ (width *ℤ o.max_height) height)), o.max_height)

-- `uint64_t` of an option that is not negative.
pub reserve_bytes : Options → ℕ
reserve_bytes o =
    if eqb_ℤ o.rate_control (pos 0)
    then 512 * 1024 * 1024
    else max (256 * 1024 * 1024)
        ((pos_part o.video_mbps * 1000000 + pos_part o.audio_kbps * 1000) * 30 / 8)
