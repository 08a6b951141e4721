-- ===== src/Config/Monitors.antt =====
-- The configuration of monitors (include/pixelstatus/config.hpp).
use pixel_status_nx.Prelude.{ℕ, Option, List, Text}
use pixel_status_nx.Time.{Duration}
use pixel_status_nx.Evaluator.{EvaluationPolicy}

pub data HttpObservation : Type 0 where
  status_code body json_pointer json_array_length json_ratio : HttpObservation

pub data HttpMethod : Type 0 where
  get head post put patch delete : HttpMethod

pub record HttpHeader : Type 0 where
  pub name : Text
  pub value : Text

pub record HttpMonitorConfig (D : Type 0) : Type 0 where
  pub url : Text
  pub method : HttpMethod
  pub headers : List HttpHeader
  pub body : Text
  pub timeout : Duration
  pub maximum_response_bytes : ℕ
  pub observation : HttpObservation
  pub json_pointer : Text
  pub json_denominator_pointer : Text
  pub json_scale : D

pub record TcpConnectMonitorConfig : Type 0 where
  pub host : Text
  pub port : ℕ
  pub timeout : Duration

pub record IcmpPingMonitorConfig : Type 0 where
  pub host : Text
  pub timeout : Duration

pub data TcpExchangeObservation : Type 0 where
  body latency_ms : TcpExchangeObservation

pub record TcpExchangeMonitorConfig : Type 0 where
  pub host : Text
  pub port : ℕ
  pub timeout : Duration
  pub send : Text
  pub read_until : Text
  pub maximum_response_bytes : ℕ
  pub observation : TcpExchangeObservation

pub data DnsAddressFamily : Type 0 where
  any ipv4 ipv6 : DnsAddressFamily

pub data DnsObservation : Type 0 where
  addresses address_count latency_ms : DnsObservation

pub record DnsMonitorConfig : Type 0 where
  pub host : Text
  pub family : DnsAddressFamily
  pub observation : DnsObservation
  pub timeout : Duration

-- The variant `MonitorSourceConfig`.
pub data MonitorSourceConfig (D : Type 0) : Type 0 where
  http_source : HttpMonitorConfig D → MonitorSourceConfig D
  tcp_connect_source : TcpConnectMonitorConfig → MonitorSourceConfig D
  icmp_ping_source : IcmpPingMonitorConfig → MonitorSourceConfig D
  tcp_exchange_source : TcpExchangeMonitorConfig → MonitorSourceConfig D
  dns_source : DnsMonitorConfig → MonitorSourceConfig D

pub record PullMonitorConfig (D : Type 0) : Type 0 where
  pub id : Text
  pub interval : Duration
  pub ttl : Option Duration
  pub evaluation : EvaluationPolicy D
  pub source : MonitorSourceConfig D
