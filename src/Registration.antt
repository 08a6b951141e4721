-- ===== src/Registration.antt =====
-- The registration of the configured monitors (the loop of `main` in src/simulator/main.cpp). The
-- creation of a runner is a parameter.
pub mod Accepted
use pixel_status_nx.Prelude.{Option, none, some, List, [], ◌∷◌, if◌then◌else◌}
use pixel_status_nx.Floating.{Floating}
use pixel_status_nx.Time.{TimePoint}
use pixel_status_nx.Engine.{Engine, MonitorDefinition}
use pixel_status_nx.Engine.Run.{add}
use pixel_status_nx.Config.Monitors.{MonitorSourceConfig, PullMonitorConfig}

abbrev pub definition_of : {D : Type 0} → PullMonitorConfig D → MonitorDefinition D
definition_of configured = record {
  id = configured.id;
  interval = configured.interval;
  ttl = configured.ttl;
  evaluation = configured.evaluation;
}

module _ (fl : Floating) {R : Type 0} (create : MonitorSourceConfig fl.Double → Option R)
    (started_at : TimePoint) where
  -- One round of the loop, or `none` where `main` returns 1.
  unfoldable pub register :
      PullMonitorConfig fl.Double → Engine fl.Double R → Option (Engine fl.Double R)
  unfolding add
  register configured engine = elim (create configured.source) [
    | none ↦ none
    | some runner ↦
        let (engine', registered) =
          add fl engine (definition_of configured) (some runner) started_at in
        if registered.success then some engine' else none
  ]

  unfoldable pub register_all :
      List (PullMonitorConfig fl.Double) → Engine fl.Double R → Option (Engine fl.Double R)
  unfolding register
  register_all [] engine = some engine
  register_all (configured ∷ rest) engine = elim (register configured engine) [
    | none ↦ none
    | some engine' ↦ register_all rest engine'
  ]
