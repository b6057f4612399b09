-- ===== src/Gate/Reports/Shape.antt =====
-- `_report_shape` and `ReportError` of gate.py: what a reader raises on a malformed report.
use security_toolchain.Prelude.Result.{Result, ok, err, ◌>>=◌}
use security_toolchain.Json.{
  Json, Py, PyError, attribute_error, type_error, key_error, recursion_error,
}

-- `report_error` carries the name of the exception that it replaces.
pub data ReadError : Type 0 where
  report_error : PyError → ReadError
  other : PyError → ReadError

unfoldable pub reported : PyError → ReadError
reported attribute_error = report_error attribute_error
reported type_error = report_error type_error
reported key_error = report_error key_error
reported recursion_error = report_error recursion_error
reported e = other e

-- `except ... as exc: raise ReportError(...) from exc`
unfoldable pub convert : {A : Type 0} → Py A → Result ReadError A
unfolding reported
convert (ok a) = ok a
convert (err e) = err (reported e)

-- The decorated reader: `loaded` is what `json.loads(path.read_text())` gives or raises.
unfoldable pub report_shape : {A : Type 0} → (Json → Py A) → Py Json → Result ReadError A
unfolding convert
report_shape read loaded = convert (loaded >>= read)
