-- ===== src/Monitor.antt =====
-- src/core/monitor.cpp and include/pixelstatus/monitor.hpp.
use pixel_status_nx.Prelude.{Bool, Option, Text, str}
use pixel_status_nx.State.{StateValue}
use pixel_status_nx.Time.{Duration, TimePoint}

pub data MonitorError : Type 0 where
  no_error timeout name_resolution connection tls protocol response_too_large : MonitorError
  invalid_response internal : MonitorError

unfoldable pub monitor_error_name : MonitorError → Text
unfolding str
monitor_error_name no_error = str "none"
monitor_error_name timeout = str "timeout"
monitor_error_name name_resolution = str "name_resolution"
monitor_error_name connection = str "connection"
monitor_error_name tls = str "tls"
monitor_error_name protocol = str "protocol"
monitor_error_name response_too_large = str "response_too_large"
monitor_error_name invalid_response = str "invalid_response"
monitor_error_name internal = str "internal"

pub record MonitorResult (D : Type 0) : Type 0 where
  pub transport_success : Bool
  pub value : StateValue D
  pub latency : Duration
  pub error : MonitorError
  pub detail : Text
  pub observed_at : Option TimePoint

-- What a call of `MonitorRunner::run` does: it returns, throws a `std::exception` with a text, or
-- throws something else.
pub data RunOutcome (D : Type 0) : Type 0 where
  returned : MonitorResult D → RunOutcome D
  threw : Text → RunOutcome D
  threw_unknown : RunOutcome D
