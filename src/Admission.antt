-- ===== src/Admission.antt =====
-- src/grag/request_limits.py: `RequestLimitMiddleware`, which bounds an HTTP body before it is
-- parsed. `receive` is the list of the messages that it will deliver.
pub mod Laws
mod Tests
use grag.Base.{
  ℕ, ◌+◌, ltb, String, List, [], ◌∷◌, ◌++◌, length, Bool, true, false, if◌then◌else◌, str_eq,
  Option, none, some,
}
use grag.Limits.{max_request_bytes}

-- A message of any other type counts as a part of the body, as in the source.
pub data Message : Type 0 where
  disconnect : Message
  request : List ℕ → Bool → Message

-- What the middleware does: it returns without an answer, answers with status 413, waits for a
-- message that does not come, or calls the application with a body and what is left to receive.
pub data Outcome : Type 0 where
  dropped rejected waiting : Outcome
  passed : List ℕ → List Message → Outcome

-- The `while True` loop; `payload` is `b"".join(chunks)`, and `size` is counted beside it.
unfoldable pub collect : List ℕ → ℕ → List Message → Outcome
collect payload size [] = waiting
collect payload size (disconnect ∷ rest) = dropped
collect payload size (request body more ∷ rest) =
    let size' = size + length body in
    let next = collect (payload ++ body) size' rest in
    if ltb max_request_bytes size'
    then rejected
    else if more
    then next
    else passed (payload ++ body) rest

unfoldable pub handle_http : List Message → Outcome
handle_http messages = collect [] 0 messages

-- Whether a middleware's `scope["type"]` is "http"; other scopes go to the application untouched.
pub data Dispatch : Type 0 where
  untouched : List Message → Dispatch
  limited : Outcome → Dispatch

unfoldable pub dispatch : String → List Message → Dispatch
dispatch kind messages =
    if str_eq kind "http" then limited (handle_http messages) else untouched messages

-- `limited_receive`: the flag is `delivered`. The first call gives the body whole; later ones pass
-- on what the client sends.
pub record Receiver : Type 0 where
  pub payload : List ℕ
  pub delivered : Bool
  pub rest : List Message

-- `await receive()`: the next message, or `none` while there is none.
unfoldable pub receive : Receiver → List Message → Option Message × Receiver
receive r [] = (none, r)
receive r (m ∷ rest) = (some m, record r { rest = rest })

unfoldable pub limited_receive : Receiver → Option Message × Receiver
limited_receive r =
    let next = receive r r.rest in
    if r.delivered then next else (some (request r.payload false), record r { delivered = true })
