-- ===== src/Loader/Limits.antt =====
-- The limits of src/core/config.cpp. Durations count milliseconds.
use pixel_status_nx.Prelude.{ℕ, pos}
use pixel_status_nx.Time.{Duration}

abbrev pub maximum_config_bytes : ℕ
maximum_config_bytes = 1_048_576

abbrev pub maximum_dimension : ℕ
maximum_dimension = 256

abbrev pub maximum_pixels : ℕ
maximum_pixels = 65_536

abbrev pub maximum_indicators : ℕ
maximum_indicators = 1_024

abbrev pub maximum_layout_widgets : ℕ
maximum_layout_widgets = 1_024

abbrev pub maximum_layout_nodes : ℕ
maximum_layout_nodes = 2_048

abbrev pub maximum_layout_depth : ℕ
maximum_layout_depth = 16

abbrev pub maximum_layout_weight : ℕ
maximum_layout_weight = 1_000_000

abbrev pub maximum_cards : ℕ
maximum_cards = 32

abbrev pub maximum_bitmap_palette_entries : ℕ
maximum_bitmap_palette_entries = 32

abbrev pub maximum_statuses : ℕ
maximum_statuses = 256

abbrev pub maximum_monitors : ℕ
maximum_monitors = 256

abbrev pub maximum_appearance_duration : Duration
maximum_appearance_duration = pos 86_400_000

abbrev pub minimum_monitor_interval : Duration
minimum_monitor_interval = pos 1_000

abbrev pub maximum_monitor_interval : Duration
maximum_monitor_interval = pos 86_400_000

abbrev pub maximum_monitor_ttl : Duration
maximum_monitor_ttl = pos 604_800_000

abbrev pub maximum_monitor_timeout : Duration
maximum_monitor_timeout = pos 30_000

abbrev pub minimum_card_hold : Duration
minimum_card_hold = pos 1_000

abbrev pub maximum_card_hold : Duration
maximum_card_hold = pos 86_400_000

abbrev pub maximum_card_transition : Duration
maximum_card_transition = pos 10_000

abbrev pub maximum_monitor_rules : ℕ
maximum_monitor_rules = 32

abbrev pub maximum_monitor_response_bytes : ℕ
maximum_monitor_response_bytes = 65_536

abbrev pub maximum_url_bytes : ℕ
maximum_url_bytes = 2_048

abbrev pub maximum_json_pointer_bytes : ℕ
maximum_json_pointer_bytes = 512

abbrev pub maximum_host_bytes : ℕ
maximum_host_bytes = 253

abbrev pub maximum_http_request_body_bytes : ℕ
maximum_http_request_body_bytes = 16_384

abbrev pub maximum_http_header_count : ℕ
maximum_http_header_count = 32

abbrev pub maximum_http_header_name_bytes : ℕ
maximum_http_header_name_bytes = 128

abbrev pub maximum_http_header_value_bytes : ℕ
maximum_http_header_value_bytes = 2_048

abbrev pub maximum_http_headers_bytes : ℕ
maximum_http_headers_bytes = 8_192

abbrev pub maximum_secret_name_bytes : ℕ
maximum_secret_name_bytes = 128

abbrev pub maximum_tcp_send_bytes : ℕ
maximum_tcp_send_bytes = 4_096

abbrev pub maximum_tcp_delimiter_bytes : ℕ
maximum_tcp_delimiter_bytes = 256
