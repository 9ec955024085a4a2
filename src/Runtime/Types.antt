-- ===== src/Runtime/Types.antt =====
-- service_runtime.h: the answer of an operation of the runtime.
use pokrov_app.Base.{ℕ, List}
use pokrov_app.Protocol.Types.{Status}

pub record RuntimeResult : Type 0 where
  pub status : Status
  pub body : List ℕ

unfoldable pub result : Status → List ℕ → RuntimeResult
result status body = record { status = status; body = body }
