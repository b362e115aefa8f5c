-- ===== src/Host/Errors.antt =====
-- The exceptions that cross the modelled code.
use canokey_usbip.Prelude.{String, Bool, true, false, ℤ, pos}

-- The subclasses of OSError that the code names, and the rest.
pub data OsError : Type 0 where
  blocking_io process_lookup permission other_os : OsError

pub data Exc : Type 0 where
  harness_error : String → Exc
  pcsc_query_error : String → Exc
  -- PhaseError: phase, message, exit code
  phase_error : String → String → ℤ → Exc
  os_error : OsError → String → Exc
  timeout_expired : String → Exc
  runtime_error : String → Exc
  value_error : String → Exc
  type_error : String → Exc
  key_error : String → Exc
  assertion_error : Exc
  -- SystemExit, as parser.error raises it after printing the message
  system_exit : ℤ → String → Exc

-- str(exc)
unfoldable pub message : Exc → String
message (harness_error m) = m
message (pcsc_query_error m) = m
message (phase_error p m c) = m
message (os_error k m) = m
message (timeout_expired m) = m
message (runtime_error m) = m
message (value_error m) = m
message (type_error m) = m
message (key_error m) = m
message assertion_error = ""
message (system_exit c m) = m

-- isinstance(exc, HarnessError): the class and its two subclasses.
unfoldable pub is_harness_error : Exc → Bool
is_harness_error (harness_error m) = true
is_harness_error (pcsc_query_error m) = true
is_harness_error (phase_error p m c) = true
is_harness_error e = false

-- PhaseError(phase, message) with the default exit code.
unfoldable pub in_phase : String → String → Exc
in_phase phase m = phase_error phase m (pos 1)
