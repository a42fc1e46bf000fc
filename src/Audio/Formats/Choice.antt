-- ===== src/Audio/Formats/Choice.antt =====
-- Which of a pin's media types `SelectSupportedType` picks, and that the later check accepts it.
use low_latency_capture_view.Common.{
  ℕ, ◌≤◌, ◌≡◌, refl, sym, ap, subst, ◌∙◌, Bool, true, false, not, ◌&&◌, ◌||◌, ◌⊎◌, inl, inr, Option,
  none, some, List, [], ◌∷◌, ◌==◌, ltb, if◌then◌else◌, Bool-cases, arith,
}
use low_latency_capture_view.Common.Hresult.{s_ok}
use mathlib.Core.List.{Memᴰ}
use mathlib.Core.List.Memᴰ
use low_latency_capture_view.Audio.Formats.{
  Encoding, OutputPath, Rejection, Format, MediaType, Classification, Search, classify, is_direct,
  is_surround, same_encoding, same_path, matches_format, search_types, consider, takes_over,
  keep_rejection, select_supported_type, verify_surround_connection, matches_surround_format,
}
use low_latency_capture_view.Audio.Formats.Accepted.{Verdict, classify-Verdict}

pub record Offered (s : Bool) (m : MediaType) (f : Format) : Type 0 where
  pub supported : (classify m s).supported ≡ true
  pub format : (classify m s).format ≡ f

-- A fallback that is better than what came before and than the types that follow.
pub record Best (s : Bool) (before : Option (MediaType × Format)) (ms : List MediaType)
    (m : MediaType) (f : Format) : Type 0 where
  pub from : (before ≡ some (m, f)) ⊎ Memᴰ m ms × Offered s m f
  pub none_direct :
      (m' : MediaType) (g : Format) → Memᴰ m' ms → Offered s m' g → is_direct g.path ≡ false
  pub fewest :
      (m' : MediaType) (g : Format)
      → s ≡ true
      → Memᴰ m' ms
      → Offered s m' g
      → f.channels ≤ g.channels
  pub no_more :
      (m' : MediaType) (g : Format) → s ≡ true → before ≡ some (m', g) → f.channels ≤ g.channels

-- The result of the loop from a given fallback.
pub data Found (s : Bool) (before : Option (MediaType × Format)) (ms : List MediaType)
    : (MediaType × Format) ⊎ Rejection → Type 0 where
  direct :
      {m : MediaType} {f : Format}
      → Memᴰ m ms
      → Offered s m f
      → is_direct f.path ≡ true
      → Found s before ms (inl (m, f))
  fallback : {m : MediaType} {f : Format} → Best s before ms m f → Found s before ms (inl (m, f))
  nothing :
      (r : Rejection)
      → before ≡ none
      → ((m : MediaType) → Memᴰ m ms → (classify m s).supported ≡ false)
      → Found s before ms (inr r)

same_offer :
    {s : Bool} {m m' : MediaType} {f g : Format} → Offered s m f → m' ≡ m → Offered s m' g → g ≡ f
same_offer {s} o e o' = sym o'.format ∙ ap (λ x. (classify x s).format) e ∙ o.format

not_direct :
    {s : Bool} {m m' c : MediaType} {f h g : Format} {ms : List MediaType}
    {before : Option (MediaType × Format)}
    → Offered s m f
    → is_direct f.path ≡ false
    → Best s before ms c h
    → Memᴰ m' (m ∷ ms)
    → Offered s m' g
    → is_direct g.path ≡ false
not_direct o d b i o' = elim (Memᴰ.cases_cons i) [
  | inl e ↦ ap (λ x. is_direct x.path) (same_offer o e o') ∙ d
  | inr i ↦ b.none_direct _ _ i o'
]

module _ {s : Bool} {before : Option (MediaType × Format)} {m : MediaType}
    {ms : List MediaType} where
  Found-skip :
      {r : (MediaType × Format) ⊎ Rejection}
      → (classify m s).supported ≡ false
      → Found s before ms r
      → Found s before (m ∷ ms) r
  Found-skip h (direct i o d) = direct (Memᴰ.tail i) o d
  Found-skip h (nothing r e all) = nothing r e λ m' i. elim (Memᴰ.cases_cons i) [
    | inl e ↦ ap (λ x. (classify x s).supported) e ∙ h
    | inr i ↦ all m' i
  ]
  Found-skip h (fallback {m = c} {f} b) = fallback (record {
    from = elim (b.from) [ inl e ↦ inl e | inr (i, o) ↦ inr (Memᴰ.tail i, o) ];
    none_direct = λ m' g i o. elim (Memᴰ.cases_cons i) [
      | inl e ↦ let bad = ap (λ x. (classify x s).supported) (sym e) ∙ o.supported in cc
      | inr i ↦ b.none_direct m' g i o
    ];
    fewest = λ m' g t i o. elim (Memᴰ.cases_cons i) [
      | inl e ↦ let bad = ap (λ x. (classify x s).supported) (sym e) ∙ o.supported in cc
      | inr i ↦ b.fewest m' g t i o
    ];
    no_more = b.no_more;
  })

  module _ {f : Format} (o : Offered s m f) (d : is_direct f.path ≡ false) where
    Found-take :
        {r : (MediaType × Format) ⊎ Rejection}
        → ((m' : MediaType) (g : Format)
            → s ≡ true
            → before ≡ some (m', g)
            → f.channels ≤ g.channels)
        → Found s (some (m, f)) ms r
        → Found s before (m ∷ ms) r
    Found-take below (direct i o' d') = direct (Memᴰ.tail i) o' d'
    Found-take below (nothing r e all) = absurd (cc)
    Found-take below (fallback {m = c} {f = h} b) = fallback (record {
      from = elim (b.from) [
        | inl e ↦
            let both : ◌≡◌ {A = MediaType × Format} (m, f) (c, h) = cc in
            inr (Memᴰ.head (sym (ap (λ p. p.0) both)), subst (λ p. Offered s p.0 p.1) both o)
        | inr (i, o') ↦ inr (Memᴰ.tail i, o')
      ];
      none_direct = λ m' g i o'. not_direct o d b i o';
      fewest = λ m' g t i o'. elim (Memᴰ.cases_cons i) [
        | inl e ↦
            let l = b.no_more m f t refl in
            let same = ap (λ x. x.channels) (same_offer o e o') in omega arith
        | inr i ↦ b.fewest m' g t i o'
      ];
      no_more = λ m' g t e. let l = b.no_more m f t refl in let k = below m' g t e in omega arith;
    })

    Found-keep :
        {r : (MediaType × Format) ⊎ Rejection} {old : MediaType} {g : Format}
        → before ≡ some (old, g)
        → (s ≡ true → g.channels ≤ f.channels)
        → Found s before ms r
        → Found s before (m ∷ ms) r
    Found-keep e above (direct i o' d') = direct (Memᴰ.tail i) o' d'
    Found-keep e above (nothing r e' all) = absurd (cc)
    Found-keep {old} {g} e above (fallback b) = fallback (record {
      from = elim (b.from) [ inl e ↦ inl e | inr (i, o') ↦ inr (Memᴰ.tail i, o') ];
      none_direct = λ m' g i o'. not_direct o d b i o';
      fewest = λ m' g' t i o'. elim (Memᴰ.cases_cons i) [
        | inl e' ↦
            let l = b.no_more old g t e in
            let k = above t in let same = ap (λ x. x.channels) (same_offer o e' o') in omega arith
        | inr i ↦ b.fewest m' g' t i o'
      ];
      no_more = b.no_more;
    })

step-Found :
    (s : Bool) (before : Option (MediaType × Format)) (m : MediaType) (ms : List MediaType)
    (f : Format) {r : (MediaType × Format) ⊎ Rejection}
    → Offered s m f
    → is_direct f.path ≡ false
    → Found s (if takes_over s f before then some (m, f) else before) ms r
    → Found s before (m ∷ ms) r
step-Found s none m ms f o d h = Found-take o d (λ m' g t e. absurd (cc)) h
step-Found s (some (old, g)) m ms f {r} o d h = elim (Bool-cases (s && ltb f.channels g.channels)) [
  | inl t ↦
      let fewer : f.channels ≤ g.channels = ground arith in
      let h' : Found s (some (m, f)) ms r =
        subst (λ b. Found s (if b then some (m, f) else some (old, g)) ms r) t h in
      Found-take o d
        (λ m' g' t' e.
          let both : ◌≡◌ {A = MediaType × Format} (old, g) (m', g') = cc in
          let same = ap (λ p. p.1.channels) both in omega arith)
        h'
  | inr t ↦
      let h' : Found s (some (old, g)) ms r =
        subst (λ b. Found s (if b then some (m, f) else some (old, g)) ms r) t h in
      Found-keep o d refl (λ t'. ground arith) h'
]

consider_lem :
    (s : Bool) (m : MediaType) (f : Format) (st : Search)
    → (consider s m f st).fallback
      ≡ (if takes_over s f st.fallback then some (m, f) else st.fallback)
consider_lem s m f st = elim (Bool-cases (takes_over s f st.fallback)) [
  | inl t ↦ simp t
  | inr t ↦ simp t
]

search_types-Found :
    (s : Bool) (st : Search) (ms : List MediaType) → Found s st.fallback ms (search_types s st ms)
unfolding search_types
search_types-Found s st [] =
    elim (st.fallback)
      as (λ o. Found s o [] (elim o [ none ↦ inr st.first_rejection | some found ↦ inl found ])) [
        | none ↦ nothing _ refl λ m i. absurd (Memᴰ.not-nil i)
        | some found ↦ fallback (record {
          from = inl refl;
          none_direct = λ m g i. absurd (Memᴰ.not-nil i);
          fewest = λ m g t i. absurd (Memᴰ.not-nil i);
          no_more = λ m g t e.
              let both : ◌≡◌ {A = MediaType × Format} found (m, g) = cc in
              let same = ap (λ p. p.1.channels) both in omega arith;
        })
      ]
search_types-Found s st (m ∷ ms) =
    let f = (classify m s).format in
    elim (Bool-cases (classify m s).supported) [
      | inr refused ↦ rw refused (
          Found-skip refused (
            search_types-Found s
              (record st {
                first_rejection = keep_rejection st.first_rejection (classify m s).rejection;
              })
              ms))
      | inl taken ↦
          let o : Offered s m f = record { supported = taken; format = refl } in
          elim (Bool-cases (is_direct f.path)) [
            | inl d ↦ rw (taken, d) (direct (Memᴰ.head refl) o d)
            | inr d ↦
                rw (taken, d)
                  (step-Found s st.fallback m ms f o d (
                    subst (λ b. Found s b ms (search_types s (consider s m f st) ms))
                      (consider_lem s m f st) (search_types-Found s (consider s m f st) ms)))
          ]
    ]

-- For either mode and any media types: what `SelectSupportedType` returns is a type of the pin that
-- `Classify` supports, with its format. A direct one is returned if any supported type is direct;
-- otherwise, in surround mode, no supported type has fewer channels. Nothing is returned only where
-- no type is supported.
pub select_supported_type-Found :
    (s : Bool) (types : List MediaType) → Found s none types (select_supported_type s (some types))
unfolding select_supported_type
select_supported_type-Found s types = search_types-Found s _ types

same_encoding_self : (e : Encoding) → same_encoding e e ≡ true
same_encoding_self Encoding.integer_pcm = refl
same_encoding_self Encoding.float_pcm = refl

same_path_self : (p : OutputPath) → same_path p p ≡ true
same_path_self OutputPath.direct_16_bit_stereo = refl
same_path_self OutputPath.convert_to_16_bit_stereo = refl
same_path_self OutputPath.convert_to_surround_51 = refl

same_number : (n : ℕ) → (n == n) ≡ true
same_number n = ground arith

or_true : (b : Bool) → (b || true) ≡ true
or_true true = refl
or_true false = refl

Offered-is_surround :
    {s : Bool} {m : MediaType} {f : Format} → Offered s m f → is_surround f.path ≡ s
Offered-is_surround {s} {m} {f} o = at (classify-Verdict m s) o.supported o.format
  where
    at :
        {c : Classification}
        → Verdict s c
        → c.supported ≡ true
        → c.format ≡ f
        → is_surround f.path ≡ s
    at (Verdict.turned_down r) h e = cc
    at (Verdict.suits v) h e = ap (λ g. is_surround g.path) (sym e) ∙ v.surround_path

Offered-matches_format :
    {s : Bool} {m : MediaType} {f : Format} → Offered s m f → matches_format m f ≡ true
unfolding matches_format
Offered-matches_format {s} {m} {f} o =
    let mode : is_surround f.path ≡ s = Offered-is_surround o in
    rw
      (
        mode,
        o.supported,
        o.format,
        same_path_self f.path,
        same_encoding_self f.encoding,
        same_number f.container_bits,
        same_number f.valid_bits,
        same_number f.channels,
        same_number f.block_align,
        same_number f.channel_mask,
        or_true (not s),
      )
      refl

Found-Offered :
    {s : Bool} {types : List MediaType} {r : (MediaType × Format) ⊎ Rejection} (m : MediaType)
    (f : Format)
    → Found s none types r
    → r ≡ inl (m, f)
    → Offered s m f
Found-Offered {s} m f (direct {m = c} {f = h} i o d) e =
    let both : ◌≡◌ {A = MediaType × Format} (c, h) (m, f) = cc in
    subst (λ p. Offered s p.0 p.1) both o
Found-Offered {s} m f (fallback {m = c} {f = h} b) e =
    let both : ◌≡◌ {A = MediaType × Format} (c, h) (m, f) = cc in
    elim (b.from) [ inl e ↦ absurd (cc) | inr (i, o) ↦ subst (λ p. Offered s p.0 p.1) both o ]
Found-Offered m f (nothing r e' all) e = absurd (cc)

-- Where `SelectSupportedType` returns a type in surround mode, and the pin is then connected with that
-- type: `VerifySurroundConnection` accepts the connection.
pub verify-select :
    (types : List MediaType) (m : MediaType) (f : Format)
    → select_supported_type true (some types) ≡ inl (m, f)
    → verify_surround_connection (some (s_ok, m)) f ≡ s_ok
unfolding verify_surround_connection matches_surround_format
verify-select types m f e =
    let o = Found-Offered m f (select_supported_type-Found true types) e in
    rw (Offered-is_surround o, Offered-matches_format o) refl
