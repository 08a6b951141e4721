-- ===== src/Loader/NetworkMonitors.antt =====
-- The sources of monitors that speak TCP, ICMP and DNS (src/core/config.cpp).
use pixel_status_nx.Prelude.{
  ℕ, Bool, true, not, ◌&&◌, Option, none, some, List, [], ◌++◌, Text, str, pos, leb, if◌then◌else◌,
  is_some, length,
}
use pixel_status_nx.Floating.{Floating}
use pixel_status_nx.Time.{Duration}
use pixel_status_nx.State.{is_empty}
use pixel_status_nx.Config.{find_text}
use pixel_status_nx.Config.Monitors.{
  TcpConnectMonitorConfig, IcmpPingMonitorConfig, TcpExchangeMonitorConfig, TcpExchangeObservation,
  DnsMonitorConfig, DnsAddressFamily, any, ipv4, ipv6, DnsObservation, addresses, address_count,
}
use pixel_status_nx.Json.{JsonLibrary}
use pixel_status_nx.Loader.{
  Load, succeed, refuse, attempt, or_refuse, or_stop, ◌>>=◌, ◌>>◌, both, keep_if, guard, check,
}
use pixel_status_nx.Loader.Limits.{
  maximum_monitor_timeout, maximum_monitor_response_bytes, maximum_tcp_send_bytes,
  maximum_tcp_delimiter_bytes,
}
use pixel_status_nx.Loader.Fields.{
  field_path, is_name, only_field, string_of, object_of, is_true, field_as, required_string,
  bounded_size, bounded_duration_value,
}
use pixel_status_nx.Loader.Http.{valid_network_host}

module _ (fl : Floating) (json : JsonLibrary fl.Double) where
  open json use {Json, view}

  -- The host that each of the monitors requires: the value is there where `host_valid` holds.
  unfoldable pub network_host : List (Text × Json) → Text → Load Text
  unfolding required_string valid_network_host guard succeed ◌>>◌
  network_host monitor path = do
    host ← required_string fl json monitor "host" path
    guard (valid_network_host host) (
        field_path path "host"
        ++ str " must be a hostname or unbracketed IP address of at most 253 bytes")
    succeed host

  -- The optional timeout, two seconds by default.
  unfoldable pub monitor_timeout : List (Text × Json) → Text → Load Duration
  unfolding bounded_duration_value succeed
  monitor_timeout monitor path = elim (find_text (str "timeout") monitor) [
    | none ↦ succeed (pos 2_000)
    | some value ↦
        bounded_duration_value fl json value (field_path path "timeout") (pos 1)
          maximum_monitor_timeout
  ]

  -- The optional limit on the response, four kilobytes by default.
  unfoldable pub response_limit : List (Text × Json) → Text → Load ℕ
  unfolding bounded_size succeed
  response_limit monitor path =
      if is_some (find_text (str "maximum_response_bytes") monitor)
      then bounded_size fl json monitor "maximum_response_bytes" path 1
          maximum_monitor_response_bytes
      else succeed 4_096

  unfoldable pub parse_tcp_connect_monitor :
      List (Text × Json) → Text → Load TcpConnectMonitorConfig
  unfolding network_host bounded_size monitor_timeout attempt or_stop succeed
  parse_tcp_connect_monitor monitor path = do
    host ← attempt (network_host monitor path)
    port ← attempt (bounded_size fl json monitor "port" path 1 65_535)
    timeout ← monitor_timeout monitor path
    (h, p) ← or_stop (both host port)
    succeed (record { host = h; port = p; timeout = timeout })

  unfoldable pub parse_icmp_ping_monitor : List (Text × Json) → Text → Load IcmpPingMonitorConfig
  unfolding network_host monitor_timeout attempt or_stop succeed
  parse_icmp_ping_monitor monitor path = do
    host ← attempt (network_host monitor path)
    timeout ← monitor_timeout monitor path
    h ← or_stop host
    succeed (record { host = h; timeout = timeout })

  -- The field `observe`: an object with one field, which is true.
  unfoldable pub observed_name : List (Text × Json) → Text → Load Text
  unfolding or_refuse guard succeed ◌>>◌
  observed_name monitor path = do
    (name, value) ←
        or_refuse (only_field (field_as fl json (object_of fl json) monitor "observe"))
          (field_path path "observe" ++ str " must define exactly one observation")
    guard (is_true fl json (view value)) (field_path path "observe" ++ str " values must be true")
    succeed name

  unfoldable pub tcp_exchange_observation : Text → Text → Load TcpExchangeObservation
  unfolding succeed refuse
  tcp_exchange_observation name path =
      if is_name name "body"
      then succeed TcpExchangeObservation.body
      else if is_name name "latency_ms"
      then succeed TcpExchangeObservation.latency_ms
      else refuse (field_path path "observe" ++ str " contains an unknown observation")

  unfoldable pub exchange_send : List (Text × Json) → Text → Load Text
  unfolding or_refuse guard succeed ◌>>◌
  exchange_send monitor path =
      let message = field_path path "send" ++ str " must be a string of at most 4096 bytes" in
      elim (find_text (str "send") monitor) [
        | none ↦ succeed []
        | some value ↦ (do
          text ← or_refuse (string_of fl json (view value)) message
          guard (leb (length text) maximum_tcp_send_bytes) message
          succeed text)
      ]

  unfoldable pub exchange_delimiter : List (Text × Json) → Text → Load Text
  unfolding or_refuse guard succeed ◌>>◌
  exchange_delimiter monitor path =
      let message = field_path path "read_until" ++ str " must contain 1-256 bytes" in
      do
        text ← or_refuse (field_as fl json (string_of fl json) monitor "read_until") message
        guard (not (is_empty text) && leb (length text) maximum_tcp_delimiter_bytes) message
        succeed text

  -- Whether the response can hold the delimiter, where both were read.
  abbrev room_for : Option Text → Option ℕ → Bool
  room_for (some delimiter) (some maximum) = leb (length delimiter) maximum
  room_for _ _ = true

  unfoldable pub parse_tcp_exchange_monitor :
      List (Text × Json) → Text → Load TcpExchangeMonitorConfig
  unfolding network_host bounded_size monitor_timeout exchange_send exchange_delimiter
      response_limit observed_name tcp_exchange_observation attempt check or_stop succeed
  parse_tcp_exchange_monitor monitor path = do
    host ← attempt (network_host monitor path)
    port ← attempt (bounded_size fl json monitor "port" path 1 65_535)
    timeout ← attempt (monitor_timeout monitor path)
    send ← attempt (exchange_send monitor path)
    delimiter ← attempt (exchange_delimiter monitor path)
    maximum ← attempt (response_limit monitor path)
    roomy ← check (room_for delimiter maximum) (
        field_path path "maximum_response_bytes"
        ++ str " must be at least the read_until byte length")
    observation ←
        attempt (observed_name monitor path >>= λ name. tcp_exchange_observation name path)
    (h, (p, (t, (s, (d, (m, o)))))) ← or_stop (
        both host (
          both port
            (both timeout (both send (both delimiter (both (keep_if roomy maximum) observation))))))
    succeed (record {
      host = h;
      port = p;
      timeout = t;
      send = s;
      read_until = d;
      maximum_response_bytes = m;
      observation = o;
    })

  abbrev family_named : Text → Text → Load DnsAddressFamily
  family_named family message =
      if is_name family "any"
      then succeed any
      else if is_name family "ipv4"
      then succeed ipv4
      else if is_name family "ipv6"
      then succeed ipv6
      else refuse message

  unfoldable pub dns_family : List (Text × Json) → Text → Load DnsAddressFamily
  unfolding or_refuse succeed refuse
  dns_family monitor path =
      let message = field_path path "family" ++ str " must be any, ipv4, or ipv6" in
      elim (find_text (str "family") monitor) [
        | none ↦ succeed any
        | some value ↦ (do
          family ← or_refuse (string_of fl json (view value)) message
          family_named family message)
      ]

  unfoldable pub dns_observation : Text → Text → Load DnsObservation
  unfolding succeed refuse
  dns_observation name path =
      if is_name name "addresses"
      then succeed addresses
      else if is_name name "address_count"
      then succeed address_count
      else if is_name name "latency_ms"
      then succeed DnsObservation.latency_ms
      else refuse (field_path path "observe" ++ str " contains an unknown observation")

  unfoldable pub parse_dns_monitor : List (Text × Json) → Text → Load DnsMonitorConfig
  unfolding network_host dns_family monitor_timeout observed_name dns_observation attempt or_stop
      succeed
  parse_dns_monitor monitor path = do
    host ← attempt (network_host monitor path)
    family ← attempt (dns_family monitor path)
    timeout ← attempt (monitor_timeout monitor path)
    observation ← attempt (observed_name monitor path >>= λ name. dns_observation name path)
    (h, (f, (t, o))) ← or_stop (both host (both family (both timeout observation)))
    succeed (record { host = h; family = f; timeout = t; observation = o })
