-- ===== src/Appearance/Blink.antt =====
-- The blinking appearance (`TimelineAppearance::blink` of src/core/appearance.cpp).
use pixel_status_nx.Prelude.{
  ℕ, ◌+◌, ◌%◌, ◌<◌, ◌≡◌, refl, Bool, true, false, [], ◌∷◌, arith, ltb, if◌then◌else◌, pos, ◌%ℤ◌,
  pos_add,
}
use pixel_status_nx.Floating.{Floating}
use pixel_status_nx.Color.{Rgb, black}
use pixel_status_nx.Time.{zero_ms}
use pixel_status_nx.Appearance.{
  ColorKeyframe, step, make_timeline, sort_keyframes, insert_keyframe, last_time, blink, phase_of,
  current_index, current_from, color_at, sample,
}

abbrev lit : Rgb → ColorKeyframe
lit color = record { at = zero_ms; color = color; transition_to_next = step }

abbrev dark : ℕ → ColorKeyframe
dark on = record { at = pos on; color = black; transition_to_next = step }

blink_lem :
    (color : Rgb) (on off : ℕ)
    → blink color (pos on) (pos off)
      ≡ record { keyframes = lit color ∷ dark on ∷ []; cycle = pos (on + off); repeat = true }
unfolding blink make_timeline sort_keyframes insert_keyframe last_time
blink_lem color on off = rw pos_add (ground arith)

phase_of-blink :
    (color : Rgb) (on off n : ℕ)
    → 0 < on
    → phase_of
        (record { keyframes = lit color ∷ dark on ∷ []; cycle = pos (on + off); repeat = true })
        (pos n)
      ≡ pos (n % (on + off))
unfolding phase_of ◌%ℤ◌
phase_of-blink color on off n h = ground arith

index-blink :
    (color : Rgb) (on p : ℕ)
    → current_index (pos p) (lit color ∷ dark on ∷ []) ≡ (if ltb p on then 0 else 1)
unfolding current_index current_from
index-blink color on p = ground arith

shown :
    (fl : Floating) (color : Rgb) (on off p : ℕ) (b : Bool)
    → color_at fl
        (record { keyframes = lit color ∷ dark on ∷ []; cycle = pos (on + off); repeat = true })
        (pos p)
        (if b then 0 else 1)
      ≡ (if b then color else black)
unfolding color_at
shown fl color on off p true = refl
shown fl color on off p false = refl

-- A colour that blinks is shown at each time that is not negative of which the remainder by the
-- period is below the time that it is on, which is positive, and black is shown at any other.
pub sample-blink :
    (fl : Floating) (color : Rgb) (on off n : ℕ)
    → 0 < on
    → sample fl (blink color (pos on) (pos off)) (pos n)
      ≡ (if ltb (n % (on + off)) on then color else black)
unfolding sample
sample-blink fl color on off n h =
    rw
      (
        blink_lem color on off,
        phase_of-blink color on off n h,
        sample,
        index-blink color on (n % (on + off)),
      )
      (shown fl color on off (n % (on + off)) (ltb (n % (on + off)) on))
