-- ===== src/Lib.antt =====
-- PixelStatus-NX: a status display. Monitors observe services, an evaluator turns each observation into
-- a status, a store holds the statuses until they go stale, an HTTP interface reads and writes them, and
-- a renderer draws them on a small matrix of pixels.
--
-- The parts, with the files that model them:
--   src/core/state.cpp: State.antt. The store is a list of entries with their keys; `StateStore`'s
--     methods are `upsert`, `find`, `resolve`, `snapshot` and `store_size`. A method that changes the
--     store returns the new one. The order of an `unordered_map` is not observed: `snapshot` sorts.
--   src/core/evaluator.cpp: Evaluator.antt, `validate` and `evaluate`. The theorems are in
--     Operands, about conditions, and Validity, about policies.
--   src/core/monitor.cpp: Monitor.antt, the results of a runner.
--   src/core/monitor_engine.cpp: Engine.antt (jobs, the claim of due ones) and Engine/Run.antt
--     (`add` and `run_due`). A runner is a value with a function that runs it, and may throw. The
--     theorems are in Schedule, Registry, Claimed (the indices that are claimed), Places, Pump (the counters),
--     Flags and Published (what a call leaves in the store).
--   src/core/frame.cpp, src/core/color.cpp, src/core/appearance.cpp: Frame.antt, Color.antt and
--     Appearance.antt.
--   src/core/renderer.cpp: Renderer.antt and the files below it, one for the widgets, the grid, the
--     digits, the cards, the composition of two frames, and `Renderer::render`.
--   include/pixelstatus/config.hpp: Config.antt and, for the monitors, Config/Monitors.antt.
--   src/core/config.cpp: Loader.antt and the files below it. A function returns its value, if it has
--     one, with the errors that it appends (`Load`). Durations, Fields, Appearances, Policies, Http and
--     Names read values; HttpMonitors, NetworkMonitors and Monitors read monitors; Widgets, Grids and
--     Bitmaps read widgets; Nodes places a tree of them, with Nodes/Split for the extents of the
--     children; Cards reads cards, Rounds is the loop over them, and File is `load_config_file`. The
--     theorems are in Results, Inside, Placed, Fitting, Fresh, Acceptable, Outcome, Reported, Shown,
--     Nodes/Extents, Nodes/Tree, Durations/Exact and Http/Secrets.
--   src/simulator/main.cpp: Registration.antt, the loop of `main` that registers the monitors.
--   src/core/http_url.cpp, src/core/mi_protocol.cpp, src/core/validation.cpp: HttpUrl.antt, Mi.antt and
--     Validation.antt.
--   src/core/status_api.cpp: StatusApi.antt (headers, comparison, JSON that is written) and
--     StatusApi/Handle.antt (`StatusApi::handle`). Auth is about the comparison of the token, Described
--     about the fields that a request describes, and Effects, Accepted and Refused about the handler.
-- The engine and the HTTP interface write to the store, and the renderer reads it at a given time.
--
-- Texts are lists of bytes. A time point counts nanoseconds and a duration milliseconds, both as
-- integers without a bound; a cast to a type of fewer bits is written out with its remainder, and
-- so is the wrap-around of `std::size_t` in the status grid (Renderer/Grid.antt). What the sources
-- take from elsewhere is a parameter: the arithmetic of `double` and `long double` (Floating.antt),
-- the JSON library (`JsonLibrary` in Json.antt, where an object is the list of its fields), the
-- conversions of wall time (`WallClock` in Renderer/Clock.antt), and the runners. Sorting is stable
-- here, where `std::sort` may reorder equal elements. Recursion is structural but in two places,
-- which count rounds: a tree of nodes has seventeen levels, since the code refuses a deeper node by
-- its depth, and the loop over the references to secrets (`secrets_valid`, which returns none where
-- the rounds run out) has one round more than the value has bytes, of which each round takes one
-- off.
--
-- A method of the store or of the engine that holds a lock is one step. The second `try` block of
-- `run_due` throws at an iteration that its first argument tells. The contents of a configuration file
-- are a parameter (`ConfigFile`). The errors of the loader are its texts in the order in which the code
-- appends them.
--
-- Not modelled: the handler of exceptions of `load_config_file`, to which no conversion there throws; the
-- executor, runners, transports and drivers of src/host, and the rest of the simulator, which are input
-- and output or not yet covered.
pub mod Appearance
pub mod Color
pub mod Config
pub mod Engine
pub mod Evaluator
pub mod Floating
pub mod Frame
pub mod FromChars
pub mod HttpUrl
pub mod Json
pub mod Loader
pub mod Mi
pub mod Monitor
pub mod Prelude
pub mod Registration
pub mod Renderer
pub mod Search
pub mod State
pub mod StatusApi
pub mod Tests
pub mod Time
pub mod Validation
