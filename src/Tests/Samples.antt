-- ===== src/Tests/Samples.antt =====
-- The values that the tests share. The numbers of the samples are integers.
use pixel_status_nx.Prelude.{
  true, Option, none, some, List, [], ◌∷◌, ◌++◌, Text, str, ℤ, pos, ◌+ℤ◌, ◌-ℤ◌, ◌*ℤ◌, ◌/ℤ◌, ltb_ℤ,
  leb_ℤ, eqb_ℤ,
}
use pixel_status_nx.Floating.{Floating}
use pixel_status_nx.Time.{TimePoint}
use pixel_status_nx.Color.{Rgb}
use pixel_status_nx.Frame.{make_frame}
use pixel_status_nx.State.{Store, MonitorState, integer, upsert}
use pixel_status_nx.Monitor.{MonitorResult, RunOutcome, returned, no_error}
use pixel_status_nx.Evaluator.{EvaluationPolicy, greater_or_equal}
use pixel_status_nx.Engine.{Engine, Job, MonitorDefinition}
use pixel_status_nx.Engine.Run.{add}
use pixel_status_nx.Config.{
  AppConfig, LayoutStatusGridConfig, LayoutBarConfig, left, CardConfig, slide_left, indicator_card,
}
use pixel_status_nx.Appearance.{solid}
use pixel_status_nx.Renderer.{Canvas, empty_report}
use pixel_status_nx.Json.{JsonLibrary, JsonView, string_view, object_view}
use pixel_status_nx.StatusApi.{ApiRequest}

abbrev pub integers : Floating
integers = record {
  Double = ℤ;
  LongDouble = ℤ;
  of_int = λ n. n;
  is_finite = λ n. true;
  equal = eqb_ℤ;
  less = ltb_ℤ;
  add = ◌+ℤ◌;
  sub = ◌-ℤ◌;
  mul = ◌*ℤ◌;
  div = ◌/ℤ◌;
  half = pos 0;
  floor = λ n. n;
  truncate = λ n. n;
  lround = λ n. n;
  long_of_int = λ n. n;
  long_of_double = λ n. n;
  long_equal = eqb_ℤ;
  long_less = ltb_ℤ;
  long_less_eq = leb_ℤ;
}

abbrev pub healthy : Text
healthy = str "healthy"

abbrev pub door : Text
door = str "door"

-- A state that goes stale after five seconds.
abbrev pub door_state : MonitorState ℤ
door_state = record {
  id = door;
  status = healthy;
  value = integer (pos 3);
  message = [];
  observed_at = pos 0;
  updated_at = pos 0;
  ttl = some (pos 5000);
}

abbrev pub one_state : Store ℤ
one_state = (upsert [] door_state).0

-- A policy with a condition and an otherwise rule.
abbrev pub policy : EvaluationPolicy ℤ
policy = record {
  transport_failure_status = str "offline";
  no_match_status = str "unknown";
  rules =
      record {
        when = some (record {
          operation = greater_or_equal;
          expected = integer (pos 2);
          upper_bound = none;
        });
        status = healthy;
      }
      ∷ record { when = none; status = str "failing" }
      ∷ [];
}

abbrev pub result : MonitorResult ℤ
result = record {
  transport_success = true;
  value = integer (pos 3);
  latency = pos 1;
  error = no_error;
  detail = [];
  observed_at = none;
}

-- A monitor that runs every second.
abbrev pub probe : MonitorDefinition ℤ
probe = record { id = door; interval = pos 1000; ttl = some (pos 5000); evaluation = policy }

abbrev pub runner : Unit {0} → TimePoint → RunOutcome ℤ × Unit {0}
runner u now = (returned result, u)

abbrev pub no_jobs : Engine ℤ (Unit {0})
no_jobs = record { states = []; jobs = [] }

abbrev pub one_job : Engine ℤ (Unit {0})
one_job = (add integers no_jobs probe (some tt) (pos 0)).0

abbrev pub due_job : Job ℤ (Unit {0})
due_job = record { definition = probe; runner = tt; next_due = pos 0; in_flight = true }

abbrev pub red : Rgb
red = record { r = 255; g = 16; b = 0 }

abbrev pub canvas : Canvas
canvas = record { report = empty_report; output = make_frame 16 16 red }

-- Three sources in two columns.
abbrev pub grid : LayoutStatusGridConfig
grid = record {
  id = str "grid";
  sources = door ∷ str "gate" ∷ str "roof" ∷ [];
  x = 1;
  y = 2;
  width = 9;
  height = 8;
  columns = 2;
  gap = 1;
}

abbrev pub config : AppConfig ℤ
config = record {
  schema_version = pos 1;
  display = record { width = 16; height = 16; background = red };
  statuses = (healthy, solid red) ∷ [];
  monitors = [];
  indicators = [];
  cards = [];
}

-- A JSON library with two values: a text, and the object that reports the healthy status.
abbrev view_sample : Option Text → JsonView ℤ (Option Text)
view_sample none = object_view ((str "status", some healthy) ∷ [])
view_sample (some text) = string_view text

abbrev pub sample_json : JsonLibrary ℤ
sample_json = record {
  Json = Option Text;
  view = view_sample;
  parse = λ text. some none;
  dump = λ value. [];
}

abbrev pub token : Text
token = str "secret"

abbrev pub post_request : ApiRequest
post_request = record {
  method = str "POST";
  target = str "/api/v1/status/door";
  headers =
      (str "Authorization", str "Bearer " ++ token)
      ∷ (str "Content-Type", str "application/json")
      ∷ [];
  body = str "{}";
}

-- A bar from zero to ten that grows to the left.
abbrev pub bar : LayoutBarConfig ℤ
bar = record {
  id = str "bar";
  source = door;
  x = 2;
  y = 3;
  width = 10;
  height = 2;
  direction = left;
  minimum = pos 0;
  maximum = pos 10;
  track_color = red;
}

-- Two cards of a second each, with a transition between them.
abbrev sample_card : Text → CardConfig ℤ
sample_card id = record {
  id = id;
  hold = pos 1000;
  transition = record { type = slide_left; duration = pos 200 };
  content = indicator_card (record { indicators = [] });
}

abbrev pub deck : List (CardConfig ℤ)
deck = sample_card (str "first") ∷ sample_card (str "second") ∷ []
