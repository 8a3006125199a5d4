-- ===== src/Gateway/Oauth/Types.antt =====
-- packages/gateway/src/host/oauth/types.ts, errors.ts: states, errors and details of a device login.
use dsh_gateway.Prelude.{ℕ, Text, Option}

pub data LoginState : Type 0 where
  starting pending success denied expired cancelled timed_out failed : LoginState

pub data ErrorCategory : Type 0 where
  configuration duplicate not_found disposed cancelled spawn nonzero_exit timeout parse :
      ErrorCategory

-- The `code` texts of the manager; `of_parser` stands for those that the parser throws.
pub data ErrorCode : Type 0 where
  operation_already_active subprocess_spawn_failed startup_timed_out operation_not_found : ErrorCode
  operation_cancelled manager_disposed stdout_unavailable required_fields_missing : ErrorCode
  output_stream_invalid subprocess_nonzero_exit authentication_failed subprocess_failed : ErrorCode
  operation_timed_out device_code_expired invalid_operation_id : ErrorCode
  login_denied login_expired login_cancelled login_failed : ErrorCode
  invalid_process_configuration invalid_timeout invalid_kill_grace invalid_output_limit : ErrorCode
  of_parser : Text → ErrorCode

pub record LoginError : Type 0 where
  pub category : ErrorCategory
  pub code : ErrorCode
  pub exit_code : Option ℕ

pub record LoginDetails : Type 0 where
  pub verification_uri : Text
  pub user_code : Text
  pub expires_at_ms : ℕ
  pub poll_interval_ms : ℕ

-- `CodexDeviceLoginTerminalState` of parser.ts
pub data TerminalState : Type 0 where
  success failed denied expired cancelled : TerminalState

-- `CodexDeviceLoginParserEvent` of parser.ts
pub data ParserEvent : Type 0 where
  ready : LoginDetails → ParserEvent
  state : TerminalState → ParserEvent

pub record LoginStatus : Type 0 where
  pub operation_id : Text
  pub state : LoginState
  pub details : Option LoginDetails
  pub error : Option LoginError
