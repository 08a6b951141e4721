-- ===== src/Loader/Appearances.antt =====
-- The appearances of statuses (`parse_steps` and `parse_appearance` of src/core/config.cpp).
use pixel_status_nx.Prelude.{
  ℕ, ◌+◌, Bool, true, not, ◌&&◌, Option, none, some, List, [], ◌∷◌, ◌++◌, Text, str, to_string, pos,
  ◌+ℤ◌, ◌-ℤ◌, ◌*ℤ◌, ◌/ℤ◌, leb_ℤ, leb, ◌==◌, if◌then◌else◌, length,
}
use pixel_status_nx.Floating.{Floating}
use pixel_status_nx.Time.{Duration, zero_ms}
use pixel_status_nx.Color.{Rgb, scale_brightness}
use pixel_status_nx.Appearance.{
  Transition, step, linear, ColorKeyframe, TimelineAppearance, make_timeline, solid, blink,
}
use pixel_status_nx.Config.{find_text}
use pixel_status_nx.Json.{JsonLibrary}
use pixel_status_nx.Loader.{
  Load, succeed, refuse, attempt, or_refuse, or_stop, ◌>>=◌, ◌>>◌, ◌⊗◌, both, guard,
}
use pixel_status_nx.Loader.Limits.{maximum_appearance_duration}
use pixel_status_nx.Loader.Fields.{
  field_path, element_path, is_name, string_of, array_of, object_of, boolean_of,
  reject_unknown_fields, field_as, color_value, duration_value, percentage_value,
}

pub record ParsedSteps : Type 0 where
  pub keyframes : List ColorKeyframe
  pub cycle : Duration

abbrev keyframe : Duration → Rgb → Transition → ColorKeyframe
keyframe at color transition = record { at = at; color = color; transition_to_next = transition }

module _ (fl : Floating) (json : JsonLibrary fl.Double) where
  open json use {Json, view}

  -- One round of the loop of `parse_steps`: the colour and the duration of a step.
  unfoldable pub parse_step : Text → Json → Load (Rgb × Duration)
  unfolding or_refuse reject_unknown_fields color_value duration_value ◌>>◌
  parse_step step_path value = do
    fields ← or_refuse (object_of fl json (view value)) (step_path ++ str " must be an object")
    reject_unknown_fields fl json fields ("color" ∷ "duration" ∷ []) step_path
    (color_field, duration_field) ←
        or_refuse (both (find_text (str "color") fields) (find_text (str "duration") fields))
          (step_path ++ str " requires color and duration")
    color_value fl json color_field (field_path step_path "color")
        ⊗ duration_value fl json duration_field (field_path step_path "duration")

  -- The loop over the steps that are left, from an index and a time.
  unfoldable pub parse_steps_from : Text → Transition → ℕ → Duration → List Json → Load ParsedSteps
  unfolding parse_step guard succeed ◌>>◌
  parse_steps_from path transition index cycle [] =
      succeed (record { keyframes = []; cycle = cycle })
  parse_steps_from path transition index cycle (value ∷ rest) = do
    (color, duration) ← parse_step (element_path path index) value
    guard (leb_ℤ duration (maximum_appearance_duration -ℤ cycle))
        (path ++ str " total duration must not exceed 24h")
    parsed ← parse_steps_from path transition (index + 1) (cycle +ℤ duration) rest
    succeed (record parsed { keyframes = keyframe cycle color transition ∷ parsed.keyframes })

  unfoldable pub parse_steps : Json → Text → ℕ → Transition → Load ParsedSteps
  unfolding parse_steps_from or_refuse guard ◌>>◌
  parse_steps value path minimum_steps transition =
      let message =
        path ++ str " must contain between " ++ to_string minimum_steps ++ str " and 64 steps" in
      do
        steps ← or_refuse (array_of fl json (view value)) message
        guard (leb minimum_steps (length steps) && leb (length steps) 64) message
        parse_steps_from path transition 0 zero_ms steps

  unfoldable pub parse_solid : Text → Json → Load TimelineAppearance
  unfolding color_value succeed
  parse_solid path value = do color ← color_value fl json value path; succeed (solid color)

  unfoldable pub parse_blink : Text → Json → Load TimelineAppearance
  unfolding or_refuse reject_unknown_fields color_value duration_value attempt guard or_stop succeed
      ◌>>◌
  parse_blink path value = do
    fields ← or_refuse (object_of fl json (view value)) (path ++ str " must be an object")
    reject_unknown_fields fl json fields ("color" ∷ "on" ∷ "off" ∷ []) path
    (color_field, (on_field, off_field)) ←
        or_refuse
          (both (find_text (str "color") fields)
            (both (find_text (str "on") fields) (find_text (str "off") fields)))
          (path ++ str " requires color, on, and off")
    color ← attempt (color_value fl json color_field (field_path path "color"))
    on ← attempt (duration_value fl json on_field (field_path path "on"))
    off ← attempt (duration_value fl json off_field (field_path path "off"))
    guard (total_allowed on off) (path ++ str " total duration must not exceed 24h")
    (c, (shown, dark)) ← or_stop (both color (both on off))
    succeed (blink c shown dark)
    where
      total_allowed : Option Duration → Option Duration → Bool
      total_allowed (some on) (some off) = leb_ℤ on (maximum_appearance_duration -ℤ off)
      total_allowed _ _ = true

  -- The loop over the colours of a toggle.
  unfoldable pub parse_toggle_colors : Text → Duration → ℕ → List Json → Load (List ColorKeyframe)
  unfolding color_value succeed
  parse_toggle_colors path period index [] = succeed []
  parse_toggle_colors path period index (value ∷ rest) = do
    color ← color_value fl json value (element_path path index)
    keyframes ← parse_toggle_colors path period (index + 1) rest
    succeed (keyframe (period *ℤ pos index) color step ∷ keyframes)

  unfoldable pub parse_toggle : Text → Json → Load TimelineAppearance
  unfolding or_refuse reject_unknown_fields duration_value parse_toggle_colors guard succeed ◌>>◌
  parse_toggle path value =
      let message = field_path path "colors" ++ str " must contain between 2 and 16 colors" in
      do
        fields ← or_refuse (object_of fl json (view value)) (path ++ str " must be an object")
        reject_unknown_fields fl json fields ("colors" ∷ "period" ∷ []) path
        colors ← or_refuse (field_as fl json (array_of fl json) fields "colors") message
        guard (leb 2 (length colors) && leb (length colors) 16) message
        period_field ←
            or_refuse (find_text (str "period") fields)
              (field_path path "period" ++ str " is required")
        period ← duration_value fl json period_field (field_path path "period")
        guard (leb_ℤ period (maximum_appearance_duration /ℤ pos (length colors)))
            (path ++ str " total duration must not exceed 24h")
        keyframes ← parse_toggle_colors (field_path path "colors") period 0 colors
        succeed (make_timeline keyframes (period *ℤ pos (length colors)) true)

  -- The test of `fade` and `pulse`.
  abbrev long_enough : Option Duration → Bool
  long_enough none = true
  long_enough (some period) = leb_ℤ (pos 2) period

  -- A period that goes to one colour and back.
  abbrev there_and_back : Rgb → Rgb → Duration → TimelineAppearance
  there_and_back from to period =
      make_timeline (keyframe zero_ms from linear ∷ keyframe (period /ℤ pos 2) to linear ∷ [])
        period true

  unfoldable pub parse_fade : Text → Json → Load TimelineAppearance
  unfolding or_refuse reject_unknown_fields color_value duration_value attempt guard or_stop succeed
      ◌>>◌
  parse_fade path value = do
    fields ← or_refuse (object_of fl json (view value)) (path ++ str " must be an object")
    reject_unknown_fields fl json fields ("from" ∷ "to" ∷ "period" ∷ []) path
    (from_field, (to_field, period_field)) ←
        or_refuse
          (both (find_text (str "from") fields)
            (both (find_text (str "to") fields) (find_text (str "period") fields)))
          (path ++ str " requires from, to, and period")
    from ← attempt (color_value fl json from_field (field_path path "from"))
    to ← attempt (color_value fl json to_field (field_path path "to"))
    period ← attempt (duration_value fl json period_field (field_path path "period"))
    guard (long_enough period) (field_path path "period" ++ str " must be at least 2ms")
    (start, (end, total)) ← or_stop (both from (both to period))
    succeed (there_and_back start end total)

  unfoldable pub parse_pulse : Text → Json → Load TimelineAppearance
  unfolding or_refuse reject_unknown_fields color_value duration_value percentage_value attempt
      guard or_stop succeed scale_brightness ◌>>◌
  parse_pulse path value = do
    fields ← or_refuse (object_of fl json (view value)) (path ++ str " must be an object")
    reject_unknown_fields fl json fields ("color" ∷ "period" ∷ "minimum" ∷ "maximum" ∷ []) path
    (color_field, period_field) ←
        or_refuse (both (find_text (str "color") fields) (find_text (str "period") fields))
          (path ++ str " requires color and period")
    color ← attempt (color_value fl json color_field (field_path path "color"))
    period ← attempt (duration_value fl json period_field (field_path path "period"))
    minimum ← attempt (percentage_value fl json fields "minimum" a_tenth path)
    maximum ← attempt (percentage_value fl json fields "maximum" (fl.of_int (pos 1)) path)
    guard (long_enough period) (field_path path "period" ++ str " must be at least 2ms")
    (c, (total, (low, high))) ← or_stop (both color (both period (both minimum maximum)))
    guard (not (fl.less high low)) (field_path path "minimum" ++ str " must not exceed maximum")
    succeed (there_and_back (scale_brightness fl c low) (scale_brightness fl c high) total)
    where
      -- The literal `0.1`, which is the rounded quotient.
      a_tenth : fl.Double
      a_tenth = fl.div (fl.of_int (pos 1)) (fl.of_int (pos 10))

  -- The optional field `repeat`.
  abbrev repeat_flag : Option Json → Text → Load Bool
  repeat_flag none path = succeed true
  repeat_flag (some value) path =
      or_refuse (boolean_of fl json (view value))
        (field_path path "repeat" ++ str " must be boolean")

  unfoldable pub parse_sequence : Text → Json → Load TimelineAppearance
  unfolding or_refuse reject_unknown_fields parse_steps succeed ◌>>◌
  parse_sequence path value = do
    fields ← or_refuse (object_of fl json (view value)) (path ++ str " must be an object")
    reject_unknown_fields fl json fields ("repeat" ∷ "steps" ∷ []) path
    repeat ← repeat_flag (find_text (str "repeat") fields) path
    steps ←
        or_refuse (find_text (str "steps") fields) (field_path path "steps" ++ str " is required")
    parsed ← parse_steps steps (field_path path "steps") 1 step
    succeed (make_timeline parsed.keyframes parsed.cycle repeat)

  -- The optional field `transition`.
  abbrev transition_named : Option Text → Text → Load Transition
  transition_named none message = refuse message
  transition_named (some name) message =
      if is_name name "linear"
      then succeed linear
      else if is_name name "step"
      then succeed step
      else refuse message

  abbrev cycle_transition : Option Json → Text → Load Transition
  cycle_transition none path = succeed linear
  cycle_transition (some value) path =
      transition_named (string_of fl json (view value))
        (field_path path "transition" ++ str " must be linear or step")

  unfoldable pub parse_cycle : Text → Json → Load TimelineAppearance
  unfolding or_refuse reject_unknown_fields parse_steps succeed refuse ◌>>◌
  parse_cycle path value = do
    fields ← or_refuse (object_of fl json (view value)) (path ++ str " must be an object")
    reject_unknown_fields fl json fields ("transition" ∷ "steps" ∷ []) path
    transition ← cycle_transition (find_text (str "transition") fields) path
    steps ←
        or_refuse (find_text (str "steps") fields) (field_path path "steps" ++ str " is required")
    parsed ← parse_steps steps (field_path path "steps") 2 transition
    succeed (make_timeline parsed.keyframes parsed.cycle true)

  -- The type of appearance that the only field names.
  unfoldable pub parse_appearance_type : List (Text × Json) → Text → Load TimelineAppearance
  unfolding parse_solid parse_blink parse_toggle parse_fade parse_pulse parse_sequence parse_cycle
      refuse
  parse_appearance_type [] path =
      refuse (path ++ str " must define solid, blink, toggle, fade, pulse, sequence, or cycle")
  parse_appearance_type ((name, value) ∷ rest) path =
      if is_name name "solid"
      then parse_solid (field_path path "solid") value
      else if is_name name "blink"
      then parse_blink (field_path path "blink") value
      else if is_name name "toggle"
      then parse_toggle (field_path path "toggle") value
      else if is_name name "fade"
      then parse_fade (field_path path "fade") value
      else if is_name name "pulse"
      then parse_pulse (field_path path "pulse") value
      else if is_name name "sequence"
      then parse_sequence (field_path path "sequence") value
      else if is_name name "cycle"
      then parse_cycle (field_path path "cycle") value
      else refuse (path ++ str " must define solid, blink, toggle, fade, pulse, sequence, or cycle")

  unfoldable pub parse_appearance : List (Text × Json) → Text → Load TimelineAppearance
  unfolding or_refuse reject_unknown_fields guard parse_appearance_type ◌>>◌
  parse_appearance status path =
      let appearance_path = field_path path "appearance" in
      do
        appearance ←
            or_refuse (field_as fl json (object_of fl json) status "appearance")
              (appearance_path ++ str " must be an object")
        reject_unknown_fields fl json status ("appearance" ∷ []) path
        reject_unknown_fields fl json appearance
            ("solid" ∷ "blink" ∷ "toggle" ∷ "fade" ∷ "pulse" ∷ "sequence" ∷ "cycle" ∷ [])
            appearance_path
        guard (length appearance == 1)
            (appearance_path ++ str " must define exactly one appearance type")
        parse_appearance_type appearance appearance_path
