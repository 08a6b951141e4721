-- ===== src/Appearance.antt =====
-- src/core/appearance.cpp and include/pixelstatus/appearance.hpp. `std::sort` may put keyframes with
-- one time in any order; the sort here keeps their order.
pub mod Blink
use pixel_status_nx.Prelude.{
  ℕ, ◌+◌, Bool, true, false, not, ◌&&◌, ◌||◌, List, [], ◌∷◌, ◌+ℤ◌, ◌-ℤ◌, ◌%ℤ◌, ltb_ℤ, leb_ℤ,
  if◌then◌else◌, leb, length, get_or,
}
use pixel_status_nx.Floating.{Floating}
use pixel_status_nx.Time.{Duration, zero_ms}
use pixel_status_nx.Color.{Rgb, black, interpolate}

pub data Transition : Type 0 where
  step linear : Transition

pub record ColorKeyframe : Type 0 where
  pub at : Duration
  pub color : Rgb
  pub transition_to_next : Transition

pub record TimelineAppearance : Type 0 where
  pub keyframes : List ColorKeyframe
  pub cycle : Duration
  pub repeat : Bool

abbrev pub dark_keyframe : ColorKeyframe
dark_keyframe = record { at = zero_ms; color = black; transition_to_next = step }

unfoldable pub insert_keyframe : ColorKeyframe → List ColorKeyframe → List ColorKeyframe
insert_keyframe k [] = k ∷ []
insert_keyframe k (l ∷ rest) = if ltb_ℤ l.at k.at then l ∷ insert_keyframe k rest else k ∷ l ∷ rest

unfoldable pub sort_keyframes : List ColorKeyframe → List ColorKeyframe
unfolding insert_keyframe
sort_keyframes [] = []
sort_keyframes (k ∷ rest) = insert_keyframe k (sort_keyframes rest)

-- `keyframes_.back().at`.
unfoldable pub last_time : Duration → List ColorKeyframe → Duration
last_time otherwise [] = otherwise
last_time otherwise (k ∷ rest) = last_time k.at rest

abbrev or_dark : List ColorKeyframe → List ColorKeyframe
or_dark [] = dark_keyframe ∷ []
or_dark (k ∷ rest) = k ∷ rest

-- The constructor of three arguments.
unfoldable pub make_timeline : List ColorKeyframe → Duration → Bool → TimelineAppearance
unfolding sort_keyframes last_time
make_timeline keyframes cycle repeat =
    let sorted = sort_keyframes (or_dark keyframes) in
    let last = last_time zero_ms sorted in
    record { keyframes = sorted; cycle = if ltb_ℤ cycle last then last else cycle; repeat = repeat }

-- The default constructor.
unfoldable pub default_timeline : TimelineAppearance
default_timeline = record { keyframes = dark_keyframe ∷ []; cycle = zero_ms; repeat = false }

unfoldable pub solid : Rgb → TimelineAppearance
unfolding make_timeline
solid color =
    make_timeline (record { at = zero_ms; color = color; transition_to_next = step } ∷ []) zero_ms
      false

unfoldable pub blink : Rgb → Duration → Duration → TimelineAppearance
unfolding make_timeline
blink color on off =
    make_timeline
      (record { at = zero_ms; color = color; transition_to_next = step }
        ∷ record { at = on; color = black; transition_to_next = step }
        ∷ [])
      (on +ℤ off) true

-- The time within the cycle.
unfoldable pub phase_of : TimelineAppearance → Duration → Duration
phase_of t elapsed =
    let start = if ltb_ℤ elapsed zero_ms then zero_ms else elapsed in
    if t.repeat && ltb_ℤ zero_ms t.cycle
    then start %ℤ t.cycle
    else if ltb_ℤ zero_ms t.cycle && ltb_ℤ t.cycle start
    then t.cycle
    else start

-- The loop that finds the current keyframe: `index` is the next one, `current` the last that has
-- begun.
unfoldable pub current_from : Duration → ℕ → ℕ → List ColorKeyframe → ℕ
current_from phase current index [] = current
current_from phase current index (k ∷ rest) =
    let later = current_from phase index (index + 1) rest in
    if ltb_ℤ phase k.at then current else later

unfoldable pub current_index : Duration → List ColorKeyframe → ℕ
unfolding current_from
current_index phase [] = 0
current_index phase (first ∷ rest) = current_from phase 0 1 rest

module _ (fl : Floating) where
  -- The colour between two keyframes.
  unfoldable pub blend : Duration → ColorKeyframe → ColorKeyframe → Duration → Rgb
  blend phase current next next_time =
      let interval = next_time -ℤ current.at in
      if leb_ℤ interval zero_ms
      then next.color
      else interpolate fl current.color next.color
          (fl.div (fl.of_int (phase -ℤ current.at)) (fl.of_int interval))

  -- The colour at a phase, given the index of the current keyframe.
  unfoldable pub color_at : TimelineAppearance → Duration → ℕ → Rgb
  unfolding blend
  color_at t phase index =
      let current = get_or t.keyframes index dark_keyframe in
      let wraps = leb (length t.keyframes) (index + 1) in
      let next = get_or t.keyframes (if wraps then 0 else index + 1) dark_keyframe in
      elim current.transition_to_next [
        | step ↦ current.color
        | linear ↦
            if wraps && (not t.repeat || leb_ℤ t.cycle current.at)
            then current.color
            else blend phase current next (if wraps then t.cycle else next.at)
      ]

  unfoldable pub sample : TimelineAppearance → Duration → Rgb
  unfolding phase_of current_index color_at
  sample t elapsed =
      let phase = phase_of t elapsed in color_at t phase (current_index phase t.keyframes)
