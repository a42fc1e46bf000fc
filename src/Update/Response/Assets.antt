-- ===== src/Update/Response/Assets.antt =====
-- What the answer of the server may lead to.
use low_latency_capture_view.Common.{
  ℕ, zero, suc, ◌<◌, ◌≡◌, refl, Bool, true, false, ◌⊎◌, List, [], Option, none, some, ◌==◌, length,
  Bool-cases, inl, inr, arith,
}
use low_latency_capture_view.Update.Release.{is_newer_release_tag}
use low_latency_capture_view.Update.Response.{
  CheckResult, no_result, is_official, url_key, tag_key, extract_json_string, installer_of,
  find_installer, check_tag, check_value, parse_latest_release_response,
}

-- No address, or one of the project's own installers.
abbrev pub Trusted : List ℕ → Type 0
Trusted url = (url ≡ []) ⊎ (is_official url ≡ true)

module _ (utf8_to_wide : List ℕ → List ℕ) where
  installer_of-Trusted :
      (later : List ℕ → List ℕ) (o : Option (List ℕ × List ℕ))
      → ((rest : List ℕ) → Trusted (later rest))
      → Trusted (installer_of utf8_to_wide later o)
  installer_of-Trusted later none h = inl refl
  installer_of-Trusted later (some (value, rest)) h =
      elim (Bool-cases (is_official (utf8_to_wide value))) [
        | inl e ↦ rw e (inr e)
        | inr e ↦ rw e (h rest)
      ]

  find_installer-Trusted :
      (fuel : ℕ) (json : List ℕ) → Trusted (find_installer utf8_to_wide fuel json)
  unfolding find_installer
  find_installer-Trusted zero json = inl refl
  find_installer-Trusted (suc fuel) json =
      installer_of-Trusted (find_installer utf8_to_wide fuel) (extract_json_string url_key json)
        (find_installer-Trusted fuel)

  -- What `ParseLatestReleaseResponse` returns, for a current version.
  pub data Parsed (is_digit : ℕ → Bool) (current : List ℕ) : Bool × CheckResult → Type 0 where
    unreadable : Parsed is_digit current (false, no_result)
    up_to_date :
        (tag : List ℕ)
        → 0 < length tag
        → is_newer_release_tag is_digit tag current ≡ false
        → Parsed is_digit current
            (true, record { success = true; newer = false; latest_tag = tag; installer_url = [] })
    outdated :
        (tag url : List ℕ)
        → 0 < length tag
        → is_newer_release_tag is_digit tag current ≡ true
        → Trusted url
        → Parsed is_digit current
            (true, record { success = true; newer = true; latest_tag = tag; installer_url = url })

  check_tag-Parsed :
      (is_digit : ℕ → Bool) (json current tag : List ℕ)
      → Parsed is_digit current (check_tag utf8_to_wide is_digit json current tag)
  unfolding check_tag
  check_tag-Parsed is_digit json current tag = elim (Bool-cases (length tag == 0)) [
    | inl e ↦ rw e unreadable
    | inr e ↦ elim (Bool-cases (is_newer_release_tag is_digit tag current)) [
      | inl h ↦
          rw (e, h) (outdated tag _ (ground arith) h (find_installer-Trusted (length json) json))
      | inr h ↦ rw (e, h) (up_to_date tag (ground arith) h)
    ]
  ]

  -- For any answer of the server, any current version, conversion and digits: the answer is unreadable,
  -- and the result empty; or it has a tag, and the result says whether that is newer. An address is
  -- given only with a newer tag, and begins and ends as the project's own installers do.
  pub parse_latest_release_response-Parsed :
      (is_digit : ℕ → Bool) (json current : List ℕ)
      → Parsed is_digit current (parse_latest_release_response utf8_to_wide is_digit json current)
  unfolding parse_latest_release_response
  parse_latest_release_response-Parsed is_digit json current =
      elim (Bool-cases (length current == 0)) [
        | inl e ↦ rw e unreadable
        | inr e ↦ rw e (read (extract_json_string tag_key json))
      ]
    where
      read :
          (o : Option (List ℕ × List ℕ))
          → Parsed is_digit current (check_value utf8_to_wide is_digit json current o)
      read none = unreadable
      read (some (tag, rest)) = check_tag-Parsed is_digit json current (utf8_to_wide tag)
