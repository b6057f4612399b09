-- ===== src/Changed/Event/Derived.antt =====
-- What a run must have read before it scans less than everything.
use security_toolchain.Prelude.{text_eq}
use security_toolchain.Changed.Lists.{Changed}
