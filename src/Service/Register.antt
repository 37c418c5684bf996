-- ===== src/Service/Register.antt =====
-- krossbar-bus-lib/src/service.rs: `Service::hub_connect`, the connection of a service to the hub.
use Prim.Native.String.{◌++◌ as text_append}
use krossbar_bus.Common.{
  ℕ, String, Bool, true, false, Option, none, some, List, [], ◌∷◌, Result, ok, err,
}
use krossbar_bus.Protocol.{Error, internal_error, not_allowed}

-- The kinds of errors of `UnixStream::connect` that the code tells apart.
pub data ErrorKind : Type 0 where
  not_found connection_refused other : ErrorKind

-- What becomes of the registration call on a new stream: it cannot be sent, the hub answers, or the
-- hub sends something else first (as `Debug` prints it).
pub data Registration : Type 0 where
  not_sent : Error → Registration
  response : Result (Unit {0}) Error → Registration
  request : String → Registration

-- One attempt: the stream (a number) and what comes of it, or the error.
pub data Attempt : Type 0 where
  connected : ℕ → Registration → Attempt
  failed : ErrorKind → Attempt

unfoldable pub hub_is_down : ErrorKind → Bool
hub_is_down not_found = true
hub_is_down connection_refused = true
hub_is_down other = false

unfoldable pub registered : ℕ → Registration → Result ℕ Error
registered rpc (not_sent e) = err e
registered rpc (response (ok u)) = ok rpc
registered rpc (response (err e)) = err e
registered rpc (request m) =
    err (internal_error (text_append "Unexpected hub message during connection request: " m))

-- `Service::hub_connect`; `none` is to try on, after the attempts so far.
unfoldable pub hub_connect : List Attempt → Option (Result ℕ Error)
unfolding registered hub_is_down
hub_connect [] = none
hub_connect (connected rpc r ∷ attempts) = some (registered rpc r)
hub_connect (failed kind ∷ attempts) = elim (hub_is_down kind) [
  | true ↦ hub_connect attempts
  | false ↦ some (err not_allowed)
]
