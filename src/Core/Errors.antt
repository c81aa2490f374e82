-- ===== src/Core/Errors.antt =====
-- The data of include/chronos/core/error.hpp.
use Prim.Native.String.{String}
use trading_engine.Base.{ℕ, Bool, List}
use trading_engine.Base.Int.{ℤ, pos}
use trading_engine.Core.Enums.{ErrorSeverity}

pub data ErrorCategory : Type 0 where
  network market_data order_execution risk_management configuration persistence system strategy
        unknown :
      ErrorCategory

pub data RecoveryAction : Type 0 where
  no_action retry reconnect reload_config restart_component shutdown alert_operator : RecoveryAction

pub record Error : Type 0 where
  pub severity : ErrorSeverity
  pub category : ErrorCategory
  pub component : String
  pub message : String
  pub context : String
  pub timestamp_us : ℕ
  pub stack_trace : List String
  pub recovery_action : RecoveryAction
  pub error_code : ℤ

pub record ErrorStatistics : Type 0 where
  pub total_errors : ℕ
  pub errors_by_severity : List ℕ
  pub errors_by_category : List ℕ
  pub last_error_timestamp_us : ℕ

-- `ErrorHandler`; a callback is a function.
pub record ErrorHandler (Callback : Type 0) : Type 0 where
  pub callbacks : List (ℕ × Callback)
  pub category_callbacks : List (ErrorCategory × List (ℕ × Callback))
  pub statistics : ErrorStatistics
  pub error_history : List Error
  pub history_write_index : ℕ
  pub max_history_size : ℕ
  pub next_callback_id : ℕ
  pub console_logging_enabled : Bool
  pub minimum_severity : ErrorSeverity

-- A call of `reportError`, with the values of its default arguments.
pub record ErrorReport : Type 0 where
  pub severity : ErrorSeverity
  pub category : ErrorCategory
  pub component : String
  pub message : String
  pub context : String
  pub recovery : RecoveryAction
  pub error_code : ℤ

abbrev pub report_error : ErrorSeverity → ErrorCategory → String → String → ErrorReport
report_error severity category component message = record {
  severity = severity;
  category = category;
  component = component;
  message = message;
  context = "";
  recovery = no_action;
  error_code = pos 0;
}

-- The macros that name a severity of the enumeration.
abbrev pub chronos_error : ErrorCategory → String → String → ErrorReport
chronos_error = report_error ErrorSeverity.error

abbrev pub chronos_warning : ErrorCategory → String → String → ErrorReport
chronos_warning = report_error ErrorSeverity.warning

abbrev pub chronos_critical : ErrorCategory → String → String → ErrorReport
chronos_critical = report_error ErrorSeverity.critical
