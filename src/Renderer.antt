-- ===== src/Renderer.antt =====
-- src/core/renderer.cpp and include/pixelstatus/renderer.hpp: the report and the sampling of a source.
-- A drawing function takes the report and the frame that it changes and returns them with its result.
pub mod Widgets
pub mod Grid
pub mod Clock
pub mod Cards
pub mod Transition
pub mod Render
use pixel_status_nx.Prelude.{
  ◌^◌, ℕ, ◌+◌, Bool, false, Option, none, some, [], Text, str, if◌then◌else◌,
}
use pixel_status_nx.Floating.{Floating}
use pixel_status_nx.Time.{TimePoint, elapsed_since}
use pixel_status_nx.Color.{Rgb}
use pixel_status_nx.State.{Store, StateValue, ResolvedState, integer, real, resolve, is_empty}
use pixel_status_nx.Appearance.{TimelineAppearance, sample}
use pixel_status_nx.Config.{AppConfig, find_text}
use pixel_status_nx.Frame.{Frame}

-- `std::size_t` has 64 bits.
abbrev pub size_mod : ℕ
size_mod = 2 ^ 64

pub record RenderReport : Type 0 where
  pub success : Bool
  pub rendered_indicators : ℕ
  pub missing_sources : ℕ
  pub missing_statuses : ℕ
  pub invalid_values : ℕ
  pub active_card : Text
  pub next_card : Text
  pub transitioning : Bool
  pub error : Text

-- `RenderReport{}`.
abbrev pub empty_report : RenderReport
empty_report = record {
  success = false;
  rendered_indicators = 0;
  missing_sources = 0;
  missing_statuses = 0;
  invalid_values = 0;
  active_card = [];
  next_card = [];
  transitioning = false;
  error = [];
}

-- The report and the frame that a drawing function changes.
pub record Canvas : Type 0 where
  pub report : RenderReport
  pub output : Frame

-- `report.error = …; return false;`
abbrev pub fail : Canvas → Text → Canvas × Bool
fail c message = (record c { report = record c.report { error = message } }, false)

unfoldable pub merge_report : RenderReport → RenderReport → RenderReport
merge_report target source = record target {
  rendered_indicators = target.rendered_indicators + source.rendered_indicators;
  missing_sources = target.missing_sources + source.missing_sources;
  missing_statuses = target.missing_statuses + source.missing_statuses;
  invalid_values = target.invalid_values + source.invalid_values;
  error =
      if source.success
      then target.error
      else if is_empty target.error
      then source.error
      else target.error;
}

pub record SourceSample (D : Type 0) : Type 0 where
  pub state : Option (ResolvedState D)
  pub color : Option Rgb

abbrev add_missing_source : RenderReport → RenderReport
add_missing_source r = record r { missing_sources = r.missing_sources + 1 }

unfoldable pub unknown : Text
unfolding str
unknown = str "unknown"

module _ {D : Type 0} where
  -- The status that is shown, and the time from which its appearance runs.
  abbrev pub shown_status : Option (ResolvedState D) → Text
  shown_status none = unknown
  shown_status (some resolved) = resolved.effective_status

  abbrev pub shown_since : Option (ResolvedState D) → TimePoint → TimePoint
  shown_since none origin = origin
  shown_since (some resolved) origin = resolved.status_entered_at

  abbrev pub counted : Option (ResolvedState D) → RenderReport → RenderReport
  counted none report = add_missing_source report
  counted (some resolved) report = report

module _ (fl : Floating) where
  abbrev Sampled : Type 0
  Sampled = SourceSample fl.Double × RenderReport

  colored :
      Option (ResolvedState fl.Double)
      → TimelineAppearance
      → TimePoint
      → TimePoint
      → RenderReport
      → Sampled
  colored state appearance now origin report = (
    record {
      state = state;
      color = some (sample fl appearance (elapsed_since now (shown_since state origin)));
    },
    report,
  )

  unfoldable pub sample_source :
      Store fl.Double → AppConfig fl.Double → Text → TimePoint → TimePoint → RenderReport → Sampled
  unfolding colored
  sample_source states config source now origin report =
      let state = resolve states source now in
      let report' = counted state report in
      elim (find_text (shown_status state) config.statuses) [
        | some appearance ↦ colored state appearance now origin report'
        | none ↦
            let report'' = record report' { missing_statuses = report'.missing_statuses + 1 } in
            elim (find_text unknown config.statuses) [
              | some appearance ↦ colored state appearance now origin report''
              | none ↦ (record { state = state; color = none }, report'')
            ]
      ]

  unfoldable pub numeric_value : StateValue fl.Double → Option fl.Double
  numeric_value (integer n) = some (fl.of_int n)
  numeric_value (real d) = if fl.is_finite d then some d else none
  numeric_value _ = none
