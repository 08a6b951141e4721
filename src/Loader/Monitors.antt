-- ===== src/Loader/Monitors.antt =====
-- A monitor (`parse_pull_monitor` of src/core/config.cpp).
use pixel_status_nx.Prelude.{
  Bool, true, false, Option, none, some, List, [], ◌∷◌, ◌++◌, Text, String, str, pos, if◌then◌else◌,
}
use pixel_status_nx.Floating.{Floating}
use pixel_status_nx.Time.{Duration}
use pixel_status_nx.Config.{find_text}
use pixel_status_nx.Config.Monitors.{
  MonitorSourceConfig, http_source, tcp_connect_source, icmp_ping_source, tcp_exchange_source,
  dns_source, PullMonitorConfig,
}
use pixel_status_nx.Json.{JsonLibrary}
use pixel_status_nx.Loader.{
  Load, succeed, stop, attempt, or_refuse, or_stop, ◌>>=◌, ◌>>◌, both, check,
}
use pixel_status_nx.Loader.Limits.{
  minimum_monitor_interval, maximum_monitor_interval, maximum_monitor_ttl,
}
use pixel_status_nx.Loader.Fields.{
  field_path, is_name, object_of, required_string, required_identifier, reject_unknown_fields,
  bounded_duration_value,
}
use pixel_status_nx.Loader.Policies.{Statuses, parse_evaluation_policy}
use pixel_status_nx.Loader.HttpMonitors.{parse_http_monitor}
use pixel_status_nx.Loader.NetworkMonitors.{
  parse_tcp_connect_monitor, parse_icmp_ping_monitor, parse_tcp_exchange_monitor, parse_dns_monitor,
}

-- The types of monitors that `parse_pull_monitor` tells apart.
pub data MonitorType : Type 0 where
  http tcp_connect icmp_ping tcp_exchange dns unknown_type : MonitorType

unfoldable pub monitor_type : Option Text → MonitorType
monitor_type none = unknown_type
monitor_type (some name) =
    if is_name name "http"
    then http
    else if is_name name "tcp_connect"
    then tcp_connect
    else if is_name name "icmp_ping"
    then icmp_ping
    else if is_name name "tcp_exchange"
    then tcp_exchange
    else if is_name name "dns"
    then dns
    else unknown_type

unfoldable pub allowed_fields : MonitorType → List String
allowed_fields http =
    "id" ∷ "type" ∷ "url" ∷ "method" ∷ "headers" ∷ "body" ∷ "interval" ∷ "ttl" ∷ "timeout"
    ∷ "maximum_response_bytes" ∷ "observe" ∷ "evaluate" ∷ "transport_failure_status"
    ∷ "no_match_status" ∷ []
allowed_fields tcp_connect =
    "id" ∷ "type" ∷ "host" ∷ "port" ∷ "interval" ∷ "ttl" ∷ "timeout" ∷ "evaluate"
    ∷ "transport_failure_status" ∷ "no_match_status" ∷ []
allowed_fields icmp_ping =
    "id" ∷ "type" ∷ "host" ∷ "interval" ∷ "ttl" ∷ "timeout" ∷ "evaluate"
    ∷ "transport_failure_status" ∷ "no_match_status" ∷ []
allowed_fields tcp_exchange =
    "id" ∷ "type" ∷ "host" ∷ "port" ∷ "interval" ∷ "ttl" ∷ "timeout" ∷ "send" ∷ "read_until"
    ∷ "maximum_response_bytes" ∷ "observe" ∷ "evaluate" ∷ "transport_failure_status"
    ∷ "no_match_status" ∷ []
allowed_fields dns =
    "id" ∷ "type" ∷ "host" ∷ "family" ∷ "interval" ∷ "ttl" ∷ "timeout" ∷ "observe" ∷ "evaluate"
    ∷ "transport_failure_status" ∷ "no_match_status" ∷ []
allowed_fields unknown_type =
    "id" ∷ "type" ∷ "url" ∷ "method" ∷ "headers" ∷ "body" ∷ "host" ∷ "port" ∷ "family" ∷ "interval"
    ∷ "ttl" ∷ "timeout" ∷ "send" ∷ "read_until" ∷ "maximum_response_bytes" ∷ "observe" ∷ "evaluate"
    ∷ "transport_failure_status" ∷ "no_match_status" ∷ []

-- Whether a type that is given is one of the five.
abbrev is_known : Option Text → MonitorType → Bool
is_known (some name) unknown_type = false
is_known _ _ = true

module _ (fl : Floating) (json : JsonLibrary fl.Double) where
  open json use {Json, view}

  unfoldable pub monitor_interval : List (Text × Json) → Text → Load Duration
  unfolding or_refuse bounded_duration_value
  monitor_interval monitor path = do
    field ←
        or_refuse (find_text (str "interval") monitor)
          (field_path path "interval" ++ str " is required")
    bounded_duration_value fl json field (field_path path "interval") minimum_monitor_interval
        maximum_monitor_interval

  unfoldable pub monitor_ttl : List (Text × Json) → Text → Load (Option Duration)
  unfolding bounded_duration_value succeed
  monitor_ttl monitor path = elim (find_text (str "ttl") monitor) [
    | none ↦ succeed none
    | some field ↦ (do
      ttl ← bounded_duration_value fl json field (field_path path "ttl") (pos 1) maximum_monitor_ttl
      succeed (some ttl))
  ]

  unfoldable pub monitor_source :
      MonitorType → List (Text × Json) → Text → Load (MonitorSourceConfig fl.Double)
  unfolding parse_http_monitor parse_tcp_connect_monitor parse_icmp_ping_monitor
      parse_tcp_exchange_monitor parse_dns_monitor succeed stop
  monitor_source http monitor path =
      parse_http_monitor fl json monitor path >>= λ c. succeed (http_source c)
  monitor_source tcp_connect monitor path =
      parse_tcp_connect_monitor fl json monitor path >>= λ c. succeed (tcp_connect_source c)
  monitor_source icmp_ping monitor path =
      parse_icmp_ping_monitor fl json monitor path >>= λ c. succeed (icmp_ping_source c)
  monitor_source tcp_exchange monitor path =
      parse_tcp_exchange_monitor fl json monitor path >>= λ c. succeed (tcp_exchange_source c)
  monitor_source dns monitor path =
      parse_dns_monitor fl json monitor path >>= λ c. succeed (dns_source c)
  monitor_source unknown_type monitor path = stop

  -- The monitor in an object.
  unfoldable pub read_monitor :
      List (Text × Json) → Text → Statuses → Load (PullMonitorConfig fl.Double)
  unfolding required_identifier required_string reject_unknown_fields monitor_type allowed_fields
      monitor_interval monitor_ttl parse_evaluation_policy monitor_source attempt check or_stop
      succeed ◌>>◌
  read_monitor monitor path statuses = do
    id ← attempt (required_identifier fl json monitor "id" path)
    type ← attempt (required_string fl json monitor "type" path)
    reject_unknown_fields fl json monitor (allowed_fields (monitor_type type)) path
    known ← check (is_known type (monitor_type type)) (
        field_path path "type" ++ str " must be http, tcp_connect, icmp_ping, tcp_exchange, or dns")
    interval ← attempt (monitor_interval monitor path)
    ttl ← attempt (monitor_ttl monitor path)
    evaluation ← attempt (parse_evaluation_policy fl json monitor path statuses)
    source ← attempt (monitor_source (monitor_type type) monitor path)
    (i, (t, (l, (e, s)))) ← or_stop (both id (both interval (both ttl (both evaluation source))))
    succeed (record { id = i; interval = t; ttl = l; evaluation = e; source = s })

  unfoldable pub parse_pull_monitor : Json → Text → Statuses → Load (PullMonitorConfig fl.Double)
  unfolding or_refuse read_monitor
  parse_pull_monitor value path statuses = do
    monitor ← or_refuse (object_of fl json (view value)) (path ++ str " must be an object")
    read_monitor monitor path statuses
