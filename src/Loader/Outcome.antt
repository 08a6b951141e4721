-- ===== src/Loader/Outcome.antt =====
-- The display, the indicators and the cards that `load_config_file` (src/core/config.cpp) admits.
use pixel_status_nx.Prelude.{
  ℕ, String, ◌+◌, ◌≤◌, ◌≡◌, ◌∙◌, Option, none, some, List, [], ◌∷◌, Text, str, arith, All,
}
use pixel_status_nx.Floating.{Floating}
use pixel_status_nx.Config.{DisplayConfig, IndicatorConfig, CardConfig, AppConfig}
use pixel_status_nx.Json.{JsonLibrary}
use pixel_status_nx.Loader.{Load, loaded, result_of, value_or}
use pixel_status_nx.Loader.Limits.{maximum_dimension}
use pixel_status_nx.Loader.Fields.{bounded_size}
use pixel_status_nx.Loader.Rounds.{accept_card}
use pixel_status_nx.Loader.File.{
  ConfigFile, unopened, opened, load_display, load_indicators, load_card_list, load_cards,
  load_content, load_root, load_result, read_config, load_config_file, default_display,
}
use pixel_status_nx.Loader.Policies.{Statuses}
use pixel_status_nx.Loader.Results.{
  Gives, Ensures, Ensures-succeed, Ensures-refuse, Ensures->>=, Ensures->>, Ensures-attempt,
  Ensures-guard, pushed-All,
}
use pixel_status_nx.Loader.Inside.{
  Within, InsideIndicator, bounded_size-Within, parse_indicator_config-Inside,
}
use pixel_status_nx.Loader.Acceptable.{AreAcceptable, no_monitors, load_monitors-AreAcceptable}
use pixel_status_nx.Loader.Fitting.{
  IsFitting, AllEnsured, value_or-holds, new_item-Ensures, parse_items-AllEnsured,
  parse_card-Fitting,
}

-- A configuration whose display has from 1 to 256 pixels in each direction, and whose indicators and
-- cards fit it.
pub record IsFittingConfig {D : Type 0} (c : AppConfig D) : Type 0 where
  pub width_within : Within 1 maximum_dimension c.display.width
  pub height_within : Within 1 maximum_dimension c.display.height
  pub indicators_inside : All (InsideIndicator c.display) c.indicators
  pub cards_fit : All (λ card. IsFitting c.display card.content) c.cards

-- A display of a size that is allowed.
abbrev HasSize : DisplayConfig → Type 0
HasSize display =
    Within 1 maximum_dimension display.width × Within 1 maximum_dimension display.height

accept_card-Fitting :
    {D : Type 0} (display : DisplayConfig) (statuses : Statuses) (ids : List Text) (total : ℕ)
    (path : Text) {m : Load (CardConfig D)}
    → Ensures (λ c. IsFitting display c.content) m
    → Ensures (λ c. IsFitting display c.content) (accept_card statuses ids total path m)
unfolding accept_card
accept_card-Fitting display statuses ids total path h = Ensures->>= _ _ λ card e.
    Ensures->> _ _ λ _. Ensures-guard _ _ _ λ _.
      Ensures-succeed card (
        (new_item-Ensures (λ c. IsFitting display c.content) (λ c. c.id) ids path _ h).holds card e)

module _ (fl : Floating) (json : JsonLibrary fl.Double) where
  -- A dimension of the display, with its default.
  dimension-Within :
      (fields : List (Text × json.Json)) (key : String) (read : Option ℕ)
      → result_of (bounded_size fl json fields key (str "display") 1 maximum_dimension) ≡ read
      → Within 1 maximum_dimension (value_or 16 read)
  dimension-Within fields key none h = (omega arith, omega arith)
  dimension-Within fields key (some n) h =
      bounded_size-Within fl json fields key (str "display") 1 maximum_dimension h

  load_display-HasSize :
      (root : List (Text × json.Json)) → Ensures HasSize (load_display fl json root)
  unfolding load_display
  load_display-HasSize root = Ensures->>= _ _ λ fields _. Ensures->> _ _ λ _.
      Ensures-attempt _ _ λ width w. Ensures-attempt _ _ λ height h. Ensures->>= _ _ λ few _.
        Ensures->>= _ _ λ background _.
          Ensures-succeed _
            (dimension-Within fields "width" width w, dimension-Within fields "height" height h)

  default_display-HasSize : HasSize (default_display fl json)
  default_display-HasSize = ((omega arith, omega arith), (omega arith, omega arith))

  module _ (display : DisplayConfig) where
    load_indicators-Inside :
        (value : json.Json)
        → Ensures (All (InsideIndicator display)) (load_indicators fl json value display)
    unfolding load_indicators
    load_indicators-Inside value = Ensures->>= _ _ λ items _. Ensures-guard _ _ _ λ _.
        Ensures-guard _ _ _ λ _. Ensures->>= _ _ λ os e. Ensures-succeed _ (
          pushed-All (InsideIndicator display) os (
            (parse_items-AllEnsured fl json (InsideIndicator display) _ _ _ _
                (λ item path. parse_indicator_config-Inside fl json item path display) items []
                0).holds
              os e))

    module _ (statuses : Statuses) (wide : 1 ≤ display.width) (tall : 1 ≤ display.height) where
      load_card_list-Fitting :
          (values : List json.Json) (ids : List Text) (total index : ℕ)
          → Ensures
              (AllEnsured λ c. IsFitting display c.content)
              (load_card_list fl json statuses display ids total index values)
      unfolding load_card_list
      load_card_list-Fitting [] ids total index = Ensures-succeed _ tt
      load_card_list-Fitting (value ∷ rest) ids total index = Ensures-attempt _ _ λ o read.
          Ensures->>= _ _ λ later e. Ensures-succeed _ (
            λ card here.
                (accept_card-Fitting display statuses ids total _
                    (parse_card-Fitting fl json value _ display wide tall)).holds
                  card (read ∙ here),
            (load_card_list-Fitting rest _ _ (index + 1)).holds later e,
          )

      load_cards-Fitting :
          (value : json.Json)
          → Ensures
              (All λ c. IsFitting display c.content)
              (load_cards fl json value statuses display)
      unfolding load_cards
      load_cards-Fitting value = Ensures->>= _ _ λ items _. Ensures-guard _ _ _ λ _.
          Ensures->>= _ _ λ os e. Ensures-succeed _ (
            pushed-All (λ c. IsFitting display c.content) os
              ((load_card_list-Fitting items [] 0 0).holds os e))

      -- The indicators and the cards fit.
      abbrev ContentFits : List IndicatorConfig × List (CardConfig fl.Double) → Type 0
      ContentFits (indicators, cards) =
          All (InsideIndicator display) indicators × All (λ c. IsFitting display c.content) cards

      load_content-Fits :
          (indicators cards : Option json.Json)
          → Ensures ContentFits (load_content fl json indicators cards statuses display)
      unfolding load_content
      load_content-Fits (some indicators) none =
          Ensures->>= _ _
            λ i e. Ensures-succeed _ ((load_indicators-Inside indicators).holds i e, tt)
      load_content-Fits none (some cards) =
          Ensures->>= _ _ λ c e. Ensures-succeed _ (tt, (load_cards-Fitting cards).holds c e)
      load_content-Fits none none = Ensures-refuse _
      load_content-Fits (some indicators) (some cards) = Ensures-refuse _

  -- The configuration fits, and its monitors can be registered.
  abbrev IsSound : AppConfig fl.Double → Type 0
  IsSound c = IsFittingConfig c × AreAcceptable fl c.monitors

  load_root-IsSound : (root : List (Text × json.Json)) → Ensures IsSound (load_root fl json root)
  unfolding load_root
  load_root-IsSound root = Ensures->> _ _ λ _. Ensures-attempt _ _ λ schema _.
      Ensures-attempt _ _ λ display d. Ensures-attempt _ _ λ statuses _.
        Ensures-attempt _ _ λ monitors m. Ensures-attempt _ _ λ content c.
          let sized =
            value_or-holds HasSize (default_display fl json) _ display default_display-HasSize
              (load_display-HasSize root) d in
          let fits =
            value_or-holds
              (ContentFits (value_or (default_display fl json) display) (value_or [] statuses)
                sized.0.0 sized.1.0)
              ([], []) _ content (tt, tt)
              (load_content-Fits (value_or (default_display fl json) display) (value_or [] statuses)
                sized.0.0 sized.1.0 _ _)
              c in
          Ensures-succeed _ (
            record {
              width_within = sized.0;
              height_within = sized.1;
              indicators_inside = fits.0;
              cards_fit = fits.1;
            },
            value_or-holds (AreAcceptable fl) [] _ monitors (no_monitors fl)
                (load_monitors-AreAcceptable fl json root (value_or [] statuses)) m,
          )

  read_config-IsSound :
      (path : Text) (file : ConfigFile) → Ensures IsSound (read_config fl json path file)
  unfolding read_config
  read_config-IsSound path unopened = Ensures-refuse _
  read_config-IsSound path (opened size contents) =
      Ensures-guard _ _ _
        λ _. Ensures->>= _ _ λ text _. Ensures->>= _ _ λ root _. load_root-IsSound root

  load_result-Gives :
      (m : Load (AppConfig fl.Double)) {c : AppConfig fl.Double}
      → (load_result fl json m).config ≡ some c
      → Gives m c
  unfolding load_result
  load_result-Gives (loaded result []) h = h
  load_result-Gives (loaded result (e ∷ rest)) h = cc h

  config-IsSound :
      (path : Text) (file : ConfigFile) {c : AppConfig fl.Double}
      → (load_config_file fl json path file).config ≡ some c
      → IsSound c
  unfolding load_config_file
  config-IsSound path file h =
      (read_config-IsSound path file).holds _ (load_result-Gives (read_config fl json path file) h)

  -- A configuration that the loader returns has a display of 1 to 256 pixels in each direction, and
  -- whatever the file says, each of its indicators and each widget of its cards, also those that a
  -- tree of nodes places, is a rectangle with a pixel that lies in the display; its bitmaps have the
  -- size of their rectangle with colours from their palette, its grids have room for their cells,
  -- and its clock cards have 15 pixels in each direction.
  pub load_config_file-IsFittingConfig :
      (path : Text) (file : ConfigFile) {c : AppConfig fl.Double}
      → (load_config_file fl json path file).config ≡ some c
      → IsFittingConfig c
  load_config_file-IsFittingConfig path file h = (config-IsSound path file h).0

  -- The monitors of a configuration that the loader returns have valid and distinct identifiers,
  -- positive intervals and TTLs, and policies that the evaluator accepts, and there are at most 256.
  pub load_config_file-AreAcceptable :
      (path : Text) (file : ConfigFile) {c : AppConfig fl.Double}
      → (load_config_file fl json path file).config ≡ some c
      → AreAcceptable fl c.monitors
  load_config_file-AreAcceptable path file h = (config-IsSound path file h).1
