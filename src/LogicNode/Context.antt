-- ===== src/LogicNode/Context.antt =====
-- internal/node/ctxutil/context.go, and the tests of errors that the node's operations make.
use koorde_dht.Prelude.{Bool, true, false, Option, none, some}
use koorde_dht.Result.{
  Code, canceled, unknown, deadline_exceeded, Error, context_canceled, context_deadline, wrap,
  status,
}

-- errors.Is(err, context.Canceled)
unfoldable pub is_canceled : Error → Bool
is_canceled context_canceled = true
is_canceled (wrap msg e) = is_canceled e
is_canceled _ = false

-- errors.Is(err, context.DeadlineExceeded)
unfoldable pub is_deadline : Error → Bool
is_deadline context_deadline = true
is_deadline (wrap msg e) = is_deadline e
is_deadline _ = false

abbrev pub is_deadline_code : Code → Bool
is_deadline_code deadline_exceeded = true
is_deadline_code _ = false

-- `st, ok := status.FromError(err); ok && st.Code() == codes.DeadlineExceeded`
unfoldable pub has_deadline_code : Error → Bool
has_deadline_code (status c msg) = is_deadline_code c
has_deadline_code (wrap msg e) = has_deadline_code e
has_deadline_code _ = false

-- CheckContext of a context whose Err() is the argument.
unfoldable pub check_context : Option Error → Option Error
check_context none = none
check_context (some e) = elim (is_canceled e) [
  | true ↦ some (status canceled "request canceled")
  | false ↦ elim (is_deadline e) [
    | true ↦ some (status deadline_exceeded "deadline exceeded")
    | false ↦ some (status unknown "%v")
  ]
]
