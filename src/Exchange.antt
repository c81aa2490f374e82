-- ===== src/Exchange.antt =====
-- What stands inline in include/chronos/io and include/chronos/market_data of the connection to an
-- exchange: the two protocols' heartbeats, the security settings, and the data of a gateway.
use Prim.Native.String.{String}
use text.Mathlib.Text.{◌==◌ as str_eq}
use trading_engine.Base.{ℕ, Bool, true, false, List, [], ◌∷◌}
use trading_engine.Base.Int.{ℤ, pos}
use trading_engine.Core.Enums.{ConnectionStatus}
use trading_engine.Config.{ExchangeConfig}

-- The members of `Protocol` that the two implementations define inline.
pub record Heartbeat : Type 0 where
  pub is_ping_message : String → Bool
  pub is_pong_message : String → Bool
  pub heartbeat_payload : String
  pub uses_ws_ping : Bool
  pub default_url : String

abbrev pub okx_heartbeat : Heartbeat
okx_heartbeat = record {
  is_ping_message = λ msg. str_eq msg "ping";
  is_pong_message = λ msg. str_eq msg "pong";
  heartbeat_payload = "ping";
  uses_ws_ping = false;
  default_url = "wss://ws.okx.com:8443/ws/v5/public";
}

abbrev pub binance_heartbeat : Heartbeat
binance_heartbeat = record {
  is_ping_message = λ msg. false;
  is_pong_message = λ msg. false;
  heartbeat_payload = "";
  uses_ws_ping = true;
  default_url = "wss://stream.binance.com:9443/ws";
}

-- `Transport::sendPing` where a transport does not override it.
abbrev pub default_send_ping : Bool
default_send_ping = true

-- `ApiKeyEncryptor::isConfigured`, of the key's bytes.
abbrev pub is_configured : List ℕ → Bool
is_configured [] = false
is_configured (b ∷ bs) = true

-- `LogSanitizer::Config`; 42 is the code of `*`.
pub record SanitizerConfig : Type 0 where
  pub mask_api_keys : Bool
  pub mask_private_keys : Bool
  pub mask_tokens : Bool
  pub mask_char : ℕ

abbrev pub default_sanitizer_config : SanitizerConfig
default_sanitizer_config = record {
  mask_api_keys = true;
  mask_private_keys = true;
  mask_tokens = true;
  mask_char = 42;
}

-- `TokenValidator::Config` and the members of `TokenValidator`.
pub record TokenConfig : Type 0 where
  pub valid_token : String
  pub max_requests_per_second : ℕ

abbrev pub token_config : String → TokenConfig
token_config token = record { valid_token = token; max_requests_per_second = 10 }

pub record TokenValidator : Type 0 where
  pub config : TokenConfig
  pub current_second : ℕ
  pub requests_this_second : ℕ
  pub accepted : ℕ
  pub rejected : ℕ

abbrev pub new_token_validator : TokenConfig → TokenValidator
new_token_validator cfg = record {
  config = cfg;
  current_second = 0;
  requests_this_second = 0;
  accepted = 0;
  rejected = 0;
}

-- `MarketDataGateway`: the statistics, with the latency in microseconds, and the members that are data.
pub record MarketStatistics : Type 0 where
  pub messages_received : ℕ
  pub ticks_processed : ℕ
  pub errors_count : ℕ
  pub reconnections : ℕ
  pub avg_latency : ℕ
  pub last_message_time : ℕ

abbrev pub default_market_statistics : MarketStatistics
default_market_statistics = record {
  messages_received = 0;
  ticks_processed = 0;
  errors_count = 0;
  reconnections = 0;
  avg_latency = 0;
  last_message_time = 0;
}

pub record MarketDataGateway : Type 0 where
  pub config : ExchangeConfig
  pub status : ConnectionStatus
  pub should_reconnect : Bool
  pub reconnection_attempts : ℤ
  pub statistics : MarketStatistics
  pub running : Bool

abbrev pub new_market_gateway : ExchangeConfig → MarketDataGateway
new_market_gateway cfg = record {
  config = cfg;
  status = ConnectionStatus.disconnected;
  should_reconnect = true;
  reconnection_attempts = pos 0;
  statistics = default_market_statistics;
  running = false;
}
