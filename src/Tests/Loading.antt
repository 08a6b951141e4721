-- ===== src/Tests/Loading.antt =====
-- The theorems on the configuration loader at the document of the tests.
use pixel_status_nx.Prelude.{
  ltb, ◌++◌, if◌then◌else◌, ◌==◌, ◌*◌, ◌-◌, ◌≡◌, refl, true, none, some, [], ◌∷◌, map, Option, Text,
  str, text_eq, ℤ, pos, is_some, arith, All, length, get_elem?,
}
use pixel_status_nx.Config.{
  AppConfig, find_text, CardConfig, CardContentConfig, LayoutCardConfig, layout_card, instant,
  LayoutWidgetConfig, grid_widget,
}
use pixel_status_nx.Config.Monitors.{MonitorSourceConfig}
use pixel_status_nx.Validation.{is_valid_identifier}
use pixel_status_nx.Color.{parse_rgb_hex}
use pixel_status_nx.Evaluator.{validate_rules}
use pixel_status_nx.Engine.{Engine}
use pixel_status_nx.Engine.Registry.{definitions, IsRegistry}
use pixel_status_nx.Frame.{make_frame}
use pixel_status_nx.Renderer.Clock.{WallClock}
use pixel_status_nx.Renderer.Cards.{render_widget}
use pixel_status_nx.Registration.{definition_of, register_all}
use pixel_status_nx.Registration.Accepted.{HasRunner, register_all-loaded}
use pixel_status_nx.Loader.{◌>>=◌, ◌>>◌, ◌⊗◌, value_or, result_of}
use pixel_status_nx.FromChars.{int64_max}
use pixel_status_nx.Loader.Durations.{parse_duration}
use pixel_status_nx.Loader.Durations.Exact.{
  decimal, minutes, unit_text, unit_length, parse_duration-digits,
}
use pixel_status_nx.Loader.Http.{secrets_valid, valid_secret_template}
use pixel_status_nx.Loader.Http.Secrets.{secrets_valid_terminates}
use pixel_status_nx.Loader.Nodes.{node_or_end, then_nodes, enter_node}
use pixel_status_nx.Loader.Nodes.Split.{split_extent}
use pixel_status_nx.Loader.Nodes.Extents.{Fills, extents_of, split_extent-Fills}
use pixel_status_nx.Loader.File.{load_config_file}
use pixel_status_nx.Loader.Outcome.{IsFittingConfig, load_config_file-IsFittingConfig}
use pixel_status_nx.Loader.Reported.{load_config_file-reported}
use pixel_status_nx.Loader.Shown.{loaded_widget_drawn}
use pixel_status_nx.Tests.Documents.{trees, small_file, bar_item, grid_item}
use pixel_status_nx.Tests.Samples.{integers, config, one_state, canvas}

abbrev config_path : Text
config_path = str "pixelstatus.json"

-- What the loader returns for the document with a schema version of 1.
abbrev loaded_config : AppConfig ℤ
loaded_config = value_or config (load_config_file integers (trees 1) config_path small_file).config

abbrev no_card : CardConfig ℤ
no_card = record {
  id = [];
  hold = pos 0;
  transition = record { type = instant; duration = pos 0 };
  content = layout_card (record { widgets = [] });
}

abbrev layout_of : CardContentConfig ℤ → LayoutCardConfig ℤ
layout_of (layout_card content) = content
layout_of _ = record { widgets = [] }

abbrev loaded_card : CardConfig ℤ
loaded_card = value_or no_card (get_elem? loaded_config.cards 0)

-- The grid gets two of three parts of what the gap leaves of the width.
abbrev loaded_grid : LayoutWidgetConfig ℤ
loaded_grid = grid_widget (record {
  id = str "grid";
  sources = str "door" ∷ str "gate" ∷ str "roof" ∷ [];
  x = 6;
  y = 0;
  width = 10;
  height = 16;
  columns = 2;
  gap = 1;
})

abbrev create : MonitorSourceConfig ℤ → Option (Unit {0})
create source = some tt

-- What the tests need of the loaded document.
record Loads : Type 1 where
  loads : (load_config_file integers (trees 1) config_path small_file).config ≡ some loaded_config
  card : get_elem? loaded_config.cards 0 ≡ some loaded_card
  content : loaded_card.content ≡ layout_card (layout_of loaded_card.content)
  widget : get_elem? (layout_of loaded_card.content).widgets 1 ≡ some loaded_grid
  width : 16 ≡ loaded_config.display.width
  height : 16 ≡ loaded_config.display.height
  runners : All (HasRunner integers create (pos 0)) loaded_config.monitors

document : Loads
unfolding load_config_file ◌>>=◌ ◌>>◌ node_or_end then_nodes enter_node text_eq str find_text
    is_valid_identifier parse_rgb_hex parse_duration validate_rules ◌⊗◌
document = record {
  loads = refl;
  card = refl;
  content = refl;
  widget = refl;
  width = refl;
  height = refl;
  runners = (refl, tt);
}

-- 4294967297 is 1 as an `int`.
schema_version_wraps :
    is_some (load_config_file integers (trees 4294967297) config_path small_file).config ≡ true
unfolding load_config_file ◌>>=◌ ◌>>◌ node_or_end then_nodes enter_node text_eq str find_text
    is_valid_identifier parse_rgb_hex parse_duration validate_rules ◌⊗◌
schema_version_wraps = refl

load_config_file-IsFittingConfig_example : IsFittingConfig loaded_config
load_config_file-IsFittingConfig_example =
    load_config_file-IsFittingConfig integers (trees 1) config_path small_file document.loads

register_all-loaded_example :
    (engine : Engine ℤ (Unit {0})) × (register_all integers create
        (pos 0)
        loaded_config.monitors
        (record { states = []; jobs = [] })
      ≡ some engine)
    × (definitions engine.jobs ≡ map definition_of loaded_config.monitors)
    × (engine.states ≡ [])
    × IsRegistry integers (definitions engine.jobs)
register_all-loaded_example =
    register_all-loaded integers (trees 1) create (pos 0) config_path small_file [] document.loads
      document.runners

abbrev no_wall : WallClock
no_wall = record {
  WallTime = ℤ;
  to_time_t = λ t. t;
  from_time_t = λ t. t;
  local_time = λ t. none;
  gm_time = λ t. none;
}

loaded_widget_drawn_example :
    (render_widget integers no_wall one_state loaded_config
      (pos 5)
      (pos 0)
      (pos 0)
      loaded_grid
      (canvas, none)).1
    ≡ true
unfolding make_frame
loaded_widget_drawn_example =
    loaded_widget_drawn integers no_wall one_state loaded_config (pos 5) (pos 0) (pos 0) (trees 1)
      config_path small_file 0 1 loaded_card (layout_of loaded_card.content) loaded_grid canvas none
      document.loads document.card document.content document.widget refl document.width
      document.height

row_split :
    result_of (split_extent integers (trees 1) config_path 16 1 (bar_item ∷ grid_item ∷ []))
    ≡ some ((bar_item, 5) ∷ (grid_item, 10) ∷ [])
unfolding split_extent ◌>>=◌ ◌>>◌ text_eq str find_text
row_split = refl

split_extent-Fills_example :
    Fills 16 (1 * (2 - 1)) 2 (extents_of ((bar_item, 5) ∷ (grid_item, 10) ∷ []))
split_extent-Fills_example =
    split_extent-Fills integers (trees 1) config_path 16 1 (bar_item ∷ grid_item ∷ []) row_split

abbrev header : Text
header = str "Bearer ${secret:api}"

length-header : length header ≡ 20
unfolding str
length-header = refl

secrets_valid_terminates_example : secrets_valid 100 header ≡ some (valid_secret_template header)
secrets_valid_terminates_example =
    secrets_valid_terminates header 100 (omega (arith, length-header))

load_config_file-reported_example :
    is_some (load_config_file integers (trees 1) config_path small_file).config
    ≡ length (load_config_file integers (trees 1) config_path small_file).errors == 0
load_config_file-reported_example =
    load_config_file-reported integers (trees 1) config_path small_file

parse_duration-digits_example :
    let n = decimal 0 (str "2") * unit_length minutes in
    parse_duration (str "2" ++ unit_text minutes) ≡ (if ltb int64_max n then none else some (pos n))
unfolding str
parse_duration-digits_example = parse_duration-digits 50 [] minutes refl
