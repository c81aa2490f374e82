-- ===== src/Core/Enums.antt =====
-- The enumerations of include/chronos/core/types.hpp and the names that `toString` gives them. An
-- enumeration of C++ may hold any value of its underlying type, so `toString` takes the number.
use Prim.Native.String.{String}
use trading_engine.Base.{ℕ, ◌==◌, if◌then◌else◌}

pub data OrderSide : Type 0 where
  buy sell : OrderSide

pub data ExchangeId : Type 0 where
  unknown binance okx : ExchangeId

pub data TickSide : Type 0 where
  bid ask trade : TickSide

pub data OrderType : Type 0 where
  limit market stop_loss stop_limit : OrderType

pub data TimeInForce : Type 0 where
  gtc ioc fok day : TimeInForce

pub data ConnectionStatus : Type 0 where
  disconnected connecting connected reconnecting error : ConnectionStatus

pub data ErrorSeverity : Type 0 where
  debug info warning error critical : ErrorSeverity

pub data OrderStatus : Type 0 where
  pending accepted rejected partially_filled filled cancelled expired : OrderStatus

-- The underlying values.
abbrev pub side_code : OrderSide → ℕ
side_code OrderSide.buy = 0
side_code OrderSide.sell = 1

abbrev pub order_type_code : OrderType → ℕ
order_type_code OrderType.limit = 0
order_type_code OrderType.market = 1
order_type_code OrderType.stop_loss = 2
order_type_code OrderType.stop_limit = 3

abbrev pub tif_code : TimeInForce → ℕ
tif_code TimeInForce.gtc = 0
tif_code TimeInForce.ioc = 1
tif_code TimeInForce.fok = 2
tif_code TimeInForce.day = 3

abbrev pub order_status_code : OrderStatus → ℕ
order_status_code OrderStatus.pending = 0
order_status_code OrderStatus.accepted = 1
order_status_code OrderStatus.rejected = 2
order_status_code OrderStatus.partially_filled = 3
order_status_code OrderStatus.filled = 4
order_status_code OrderStatus.cancelled = 5
order_status_code OrderStatus.expired = 6

abbrev pub connection_status_code : ConnectionStatus → ℕ
connection_status_code ConnectionStatus.disconnected = 0
connection_status_code ConnectionStatus.connecting = 1
connection_status_code ConnectionStatus.connected = 2
connection_status_code ConnectionStatus.reconnecting = 3
connection_status_code ConnectionStatus.error = 4

abbrev pub severity_code : ErrorSeverity → ℕ
severity_code ErrorSeverity.debug = 0
severity_code ErrorSeverity.info = 1
severity_code ErrorSeverity.warning = 2
severity_code ErrorSeverity.error = 3
severity_code ErrorSeverity.critical = 4

pub side_to_string : ℕ → String
side_to_string c = if c == 0 then "BUY" else if c == 1 then "SELL" else "UNKNOWN"

pub order_type_to_string : ℕ → String
order_type_to_string c =
    if c == 0
    then "LIMIT"
    else if c == 1
    then "MARKET"
    else if c == 2
    then "STOP_LOSS"
    else if c == 3
    then "STOP_LIMIT"
    else "UNKNOWN"

pub tif_to_string : ℕ → String
tif_to_string c =
    if c == 0
    then "GTC"
    else if c == 1
    then "IOC"
    else if c == 2
    then "FOK"
    else if c == 3
    then "DAY"
    else "UNKNOWN"

pub order_status_to_string : ℕ → String
order_status_to_string c =
    if c == 0
    then "PENDING"
    else if c == 1
    then "ACCEPTED"
    else if c == 2
    then "REJECTED"
    else if c == 3
    then "PARTIALLY_FILLED"
    else if c == 4
    then "FILLED"
    else if c == 5
    then "CANCELLED"
    else if c == 6
    then "EXPIRED"
    else "UNKNOWN"

pub connection_status_to_string : ℕ → String
connection_status_to_string c =
    if c == 0
    then "DISCONNECTED"
    else if c == 1
    then "CONNECTING"
    else if c == 2
    then "CONNECTED"
    else if c == 3
    then "RECONNECTING"
    else if c == 4
    then "ERROR"
    else "UNKNOWN"

pub severity_to_string : ℕ → String
severity_to_string c =
    if c == 0
    then "DEBUG"
    else if c == 1
    then "INFO"
    else if c == 2
    then "WARNING"
    else if c == 3
    then "ERROR"
    else if c == 4
    then "CRITICAL"
    else "UNKNOWN"

pub data LogLevel : Type 0 where
  trace debug info warning error critical : LogLevel

abbrev pub log_level_code : LogLevel → ℕ
log_level_code LogLevel.trace = 0
log_level_code LogLevel.debug = 1
log_level_code LogLevel.info = 2
log_level_code LogLevel.warning = 3
log_level_code LogLevel.error = 4
log_level_code LogLevel.critical = 5

pub data EventType : Type 0 where
  tick order fill snapshot timer : EventType

abbrev pub event_type_code : EventType → ℕ
event_type_code EventType.tick = 0
event_type_code EventType.order = 1
event_type_code EventType.fill = 2
event_type_code EventType.snapshot = 3
event_type_code EventType.timer = 4
