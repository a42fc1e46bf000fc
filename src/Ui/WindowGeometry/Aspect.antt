-- ===== src/Ui/WindowGeometry/Aspect.antt =====
-- The size of a window that is dragged follows from the aspect of the video.
use low_latency_capture_view.Common.{
  ℕ, ◌+◌, ◌*◌, ◌≤◌, ◌<◌, ◌≡◌, refl, ap, ◌∙◌, false, inl, inr, Bool-cases, arith, ◌||◌,
}
use low_latency_capture_view.Common.Int.{
  ℤ, pos, negsuc, pos_part, neg_part, leb_ℤ, max_ℤ, max_ℤ_bounds, max_ℤ_le, max_ℤ_right, ◌≤ℤ◌, ◌+ℤ◌,
  ◌-ℤ◌, int_laws,
}
use low_latency_capture_view.Ui.WindowGeometry.{
  Rect, AspectConstraint, Edge, is_vertical, is_horizontal, abs, height_from_width,
  width_from_height, outer_size, proposed_width, proposed_height, constrain_to_aspect,
}
use low_latency_capture_view.Ui.WindowGeometry.Anchors.{IsEdge, Placed, place-Placed, never_both}

-- `q` is a number nearest to `a * b / c`.
pub record Nearest (q a b c : ℕ) : Type 0 where
  pub not_less : 2 * (a * b) ≤ 2 * (c * q) + c
  pub not_more : 2 * (c * q) ≤ 2 * (a * b) + c

-- What `MulDiv` promises of numbers that are not negative and below 32768, whose product divided by a
-- positive number is an `int`: the quotient, rounded to the nearest integer.
abbrev pub IsMulDiv : (ℤ → ℤ → ℤ → ℤ) → Type 0
IsMulDiv mul_div =
    (a b c : ℕ)
    → a < 32768
    → b < 32768
    → 0 < c
    → (q : ℕ) × (mul_div (pos a) (pos b) (pos c) ≡ pos q) × Nearest q a b c

-- An outer size, the client size in it, and the frame around that.
pub record Client (frame : ℤ) (minimum : ℕ) (outer : ℤ) : Type 0 where
  pub size : ℕ
  pub at_least : minimum ≤ size
  pub framed : outer ≡ frame +ℤ pos size
  pub small : size < 32768

pos_of_parts : (z : ℤ) (m : ℕ) → pos m ≤ℤ z → z ≡ pos (pos_part z)
pos_of_parts (pos n) m h = refl
pos_of_parts (negsuc n) m h = absurd (omega arith)

framed-Client :
    (frame outer : ℤ) (minimum : ℕ)
    → (frame +ℤ pos minimum) ≤ℤ outer
    → outer ≤ℤ (frame +ℤ pos 32767)
    → Client frame minimum outer
framed-Client frame outer minimum h k =
    let inside : pos minimum ≤ℤ (outer -ℤ frame) = omega (int_laws, h) in
    let whole = pos_of_parts (outer -ℤ frame) minimum inside in
    let size = pos_part (outer -ℤ frame) in
    record {
      size = size;
      at_least = omega (int_laws, inside);
      framed = framed_by size whole;
      small = omega (int_laws, k, ap neg_part whole);
    }
  where
    framed_by : (size : ℕ) → outer -ℤ frame ≡ pos size → outer ≡ frame +ℤ pos size
    framed_by size e = omega (int_laws, ap pos_part e, ap neg_part e)

-- A video of `vw` times `vh` pixels and a client area that is at least `mw` times `mh`, and a proposal
-- that is less than 32768 pixels wide and high.
pub record Moderate (c : AspectConstraint) (r : Rect) (vw vh mw mh : ℕ) : Type 0 where
  pub video_width : c.video_width ≡ pos vw
  pub video_height : c.video_height ≡ pos vh
  pub minimum_width : c.minimum_client_width ≡ pos mw
  pub minimum_height : c.minimum_client_height ≡ pos mh
  pub some_video : (0 < vw) × (0 < vh)
  pub small_video : (vw < 32768) × (vh < 32768)
  pub small_minimum : (mw < 32768) × (mh < 32768)
  pub small_width : (r.right -ℤ r.left) ≤ℤ (c.frame_width +ℤ pos 32767)
  pub small_height : (r.bottom -ℤ r.top) ≤ℤ (c.frame_height +ℤ pos 32767)

-- The size of the new window, from the size that is proposed. One side is kept, and the client area
-- along the other is the nearest to the aspect of the video.
pub data Shape (c : AspectConstraint) (vw vh mw mh : ℕ) (edge : Edge) (width height : ℤ)
    : ℤ × ℤ → Type 0 where
  by_width :
      (k : Client c.frame_width mw width) (q : ℕ)
      → is_vertical edge ≡ false
      → Nearest q k.size vh vw
      → Shape c vw vh mw mh edge width height (width, c.frame_height +ℤ pos q)
  by_height :
      (k : Client c.frame_height mh height) (q : ℕ)
      → is_horizontal edge ≡ false
      → Nearest q k.size vw vh
      → Shape c vw vh mw mh edge width height (c.frame_width +ℤ pos q, height)

-- A proposed outer size, no smaller than the minimum.
proposed :
    (frame d : ℤ) (m : ℕ)
    → m < 32768
    → d ≤ℤ (frame +ℤ pos 32767)
    → Client frame m (max_ℤ (frame +ℤ pos m) d)
proposed frame d m small h =
    let outer = max_ℤ (frame +ℤ pos m) d in
    let bounds = max_ℤ_bounds (frame +ℤ pos m) d in
    framed-Client frame outer m bounds.0
      (max_ℤ_le (frame +ℤ pos m) d (frame +ℤ pos 32767) (omega int_laws) h)

-- The client size in an outer size.
max_ℤ-Client :
    {frame outer : ℤ} {m : ℕ} (k : Client frame m outer)
    → max_ℤ (pos m) (outer -ℤ frame) ≡ pos k.size
max_ℤ-Client {frame} {outer} {m} k =
    let whole : outer -ℤ frame ≡ pos k.size =
      omega (int_laws, ap pos_part k.framed, ap neg_part k.framed) in
    ap (max_ℤ (pos m)) whole ∙ max_ℤ_right (pos m) (pos k.size) (omega (arith, k.at_least))

module _ (mul_div : ℤ → ℤ → ℤ → ℤ) (rounds : IsMulDiv mul_div) (c : AspectConstraint) (r : Rect)
    (vw vh mw mh : ℕ) (m : Moderate c r vw vh mw mh) where
  driven_height :
      {width : ℤ} (k : Client c.frame_width mw width)
      → (q : ℕ) × (height_from_width mul_div c width ≡ c.frame_height +ℤ pos q)
        × Nearest q k.size vh vw
  unfolding height_from_width
  driven_height k =
      let (q, e, n) = rounds k.size vh vw k.small m.small_video.1 m.some_video.0 in
      (
        q,
        rw (m.minimum_width, max_ℤ-Client k, m.video_height, m.video_width)
            (ap (λ t. c.frame_height +ℤ t) e),
        n,
      )

  driven_width :
      {height : ℤ} (k : Client c.frame_height mh height)
      → (q : ℕ) × (width_from_height mul_div c height ≡ c.frame_width +ℤ pos q)
        × Nearest q k.size vw vh
  unfolding width_from_height
  driven_width k =
      let (q, e, n) = rounds k.size vw vh k.small m.small_video.0 m.some_video.1 in
      (
        q,
        rw (m.minimum_height, max_ℤ-Client k, m.video_height, m.video_width)
            (ap (λ t. c.frame_width +ℤ t) e),
        n,
      )

  kept_width :
      (edge : Edge) (width height : ℤ)
      → Client c.frame_width mw width
      → is_vertical edge ≡ false
      → Shape c vw vh mw mh edge width height (width, height_from_width mul_div c width)
  kept_width edge width height k v = let (q, e, n) = driven_height k in rw e (by_width k q v n)

  kept_height :
      (edge : Edge) (width height : ℤ)
      → Client c.frame_height mh height
      → is_horizontal edge ≡ false
      → Shape c vw vh mw mh edge width height (width_from_height mul_div c height, height)
  kept_height edge width height k v = let (q, e, n) = driven_width k in rw e (by_height k q v n)

  outer_size-Shape :
      (edge : Edge) (width height : ℤ)
      → Client c.frame_width mw width
      → Client c.frame_height mh height
      → Shape c vw vh mw mh edge width height (outer_size mul_div c edge width height)
  unfolding outer_size
  outer_size-Shape edge width height j k =
      let h = height_from_width mul_div c width in
      let w = width_from_height mul_div c height in
      elim (Bool-cases (is_vertical edge)) [
        | inl v ↦ rw v (kept_height edge width height k (never_both edge v))
        | inr v ↦ elim (Bool-cases (is_horizontal edge)) [
          | inl e ↦ rw (v, e) (kept_width edge width height j v)
          | inr e ↦ elim (Bool-cases (leb_ℤ (abs (h -ℤ height)) (abs (w -ℤ width)))) [
            | inl l ↦ rw (v, e, l) (kept_width edge width height j v)
            | inr l ↦ rw (v, e, l) (kept_height edge width height k e)
          ]
        ]
      ]

  -- A rectangle and its size.
  pub record Constrained (edge : Edge) (r' : Rect) : Type 0 where
    pub size : ℤ × ℤ
    pub shape :
        Shape c vw vh mw mh edge
          (max_ℤ (c.frame_width +ℤ pos mw) (r.right -ℤ r.left))
          (max_ℤ (c.frame_height +ℤ pos mh) (r.bottom -ℤ r.top))
          size
    pub placed : Placed edge size.0 size.1 r r'

  -- For a function that rounds a product divided by a number to the nearest integer, as `MulDiv` does,
  -- a video and a minimum that are not negative and below 32768 wide and high, the video not empty, and
  -- a rectangle whose client area is below that too, and any real edge: the new rectangle keeps the sides across
  -- from the edge that is pulled. Its width is the proposed one or the smallest, whichever is larger,
  -- and its client height is nearest to client width * video height / video width; or its height is
  -- the larger of the proposed and the smallest, and its client width nearest to client height *
  -- video width / video height. It is the first for a left or right edge, the second for an upper or
  -- lower one, and one of the two at a corner.
  pub constrain_to_aspect-Constrained :
      {edge : Edge} → IsEdge edge → Constrained edge (constrain_to_aspect mul_div r edge c)
  unfolding constrain_to_aspect
  constrain_to_aspect-Constrained {edge} e =
      let width = max_ℤ (c.frame_width +ℤ pos mw) (r.right -ℤ r.left) in
      let height = max_ℤ (c.frame_height +ℤ pos mh) (r.bottom -ℤ r.top) in
      let size = outer_size mul_div c edge width height in
      let same : (proposed_width mul_div c r ≡ width) × (proposed_height mul_div c r ≡ height) =
        (rw m.minimum_width refl, rw m.minimum_height refl) in
      let real : (leb_ℤ c.video_width (pos 0) || leb_ℤ c.video_height (pos 0)) ≡ false =
        rw (m.video_width, m.video_height) (ground (arith, m.some_video)) in
      rw (real, same.0, same.1)
        (record {
          size = size;
          shape =
              outer_size-Shape edge width height
                (proposed c.frame_width (r.right -ℤ r.left) mw m.small_minimum.0 m.small_width)
                (proposed c.frame_height (r.bottom -ℤ r.top) mh m.small_minimum.1 m.small_height);
          placed = place-Placed e size.0 size.1 r;
        })
