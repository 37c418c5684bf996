-- ===== src/Service/Retry.antt =====
-- krossbar-bus-lib/src/service.rs: the loops `Service::hub_connect` and `Service::run`.
use krossbar_bus.Common.{
  ◌∙◌, ℕ, ◌≡◌, refl, true, Option, none, some, List, [], ◌∷◌, ◌++◌, ◌⊎◌, inl, inr, Result, ok, err,
}
use krossbar_bus.Protocol.{Error, not_allowed}
use krossbar_bus.Client.Events.{Channel, Store}
use krossbar_bus.Client.Handles
use krossbar_bus.Client.Handles.{ClientHandle, LinkEvent, Polled, pending, ready, disconnect}
use krossbar_bus.Service.Register.{
  Attempt, connected, failed, other, ErrorKind, not_found, connection_refused, Registration,
  registered, hub_is_down, hub_connect,
}
use krossbar_bus.Service.Poll.{
  Scheduled, Setting, Service, Event, client, hub_request, hub_lost, interrupted, take_out, poll,
  poll_client, on_polled, on_reconnected, run, after_poll,
}

-- The hub was not there in any of the attempts: its socket file was missing, or nobody listened on it.
abbrev pub HubDown : List Attempt → Type 0
HubDown [] = Unit {0}
HubDown (failed kind ∷ attempts) =
    ((kind ≡ not_found) ⊎ (kind ≡ connection_refused)) × HubDown attempts
HubDown (connected rpc r ∷ attempts) = ⊥

down_kinds :
    (kind : ErrorKind) → (kind ≡ not_found) ⊎ (kind ≡ connection_refused) → hub_is_down kind ≡ true
unfolding hub_is_down
down_kinds kind (inl e) = rw e refl
down_kinds kind (inr e) = rw e refl

-- A service tries to connect to the hub for as long as the socket file is missing or nobody listens on it,
-- and no longer: the first stream decides by the answer to the registration, and any other error ends
-- the attempts.
pub hub_connect_lem :
    (downs rest : List Attempt) (rpc : ℕ) (r : Registration)
    → HubDown downs
    → (hub_connect downs ≡ none)
      × (hub_connect (downs ++ connected rpc r ∷ rest) ≡ some (registered rpc r))
      × (hub_connect (downs ++ failed other ∷ rest) ≡ some (err not_allowed))
unfolding hub_connect
hub_connect_lem [] rest rpc r d = (refl, refl, refl)
hub_connect_lem (connected p q ∷ downs) rest rpc r d = absurd d
hub_connect_lem (failed kind ∷ downs) rest rpc r d =
    let (a, b, c) = hub_connect_lem downs rest rpc r d.1 in
    let down = down_kinds kind d.0 in
    (rw (hub_connect, down) a, rw (hub_connect, down) b, rw (hub_connect, down) c)

-- It returned no error.
AlwaysOk : Option (Result (Unit {0}) Error) → Type 0
AlwaysOk none = Unit {0}
AlwaysOk (some (ok u)) = Unit {0}
AlwaysOk (some (err e)) = ⊥

after_poll-AlwaysOk :
    (r rest : Option (Result (Unit {0}) Error)) → AlwaysOk r → after_poll r rest ≡ rest
unfolding after_poll AlwaysOk
after_poll-AlwaysOk none rest a = refl
after_poll-AlwaysOk (some (ok u)) rest a = refl
after_poll-AlwaysOk (some (err e)) rest a = absurd a

module _ {channel : Channel} {U Bson : Type 0} where
  on_polled-AlwaysOk :
      (setting : Setting) (h : ClientHandle) (p : Polled Bson × Store channel)
      (s : Service channel U Bson)
      → AlwaysOk (on_polled setting h p s).0
  unfolding on_polled AlwaysOk
  on_polled-AlwaysOk setting h (pending phase, store) s = tt
  on_polled-AlwaysOk setting h (ready (Handles.message n m), store) s = tt
  on_polled-AlwaysOk setting h (ready (disconnect n), store) s = tt

  poll_client-AlwaysOk :
      (setting : Setting) (link : LinkEvent Bson) (o : Option (Scheduled × List Scheduled))
      (s : Service channel U Bson)
      → AlwaysOk (poll_client setting link o s).0
  unfolding poll_client AlwaysOk
  poll_client-AlwaysOk setting link none s = tt
  poll_client-AlwaysOk setting link (some (f, rest)) s =
      on_polled-AlwaysOk setting f.handle _ (record s { client_poll_handles = rest })

  on_reconnected-AlwaysOk :
      (r : Option (Result ℕ Error)) (s : Service channel U Bson) → AlwaysOk (on_reconnected r s).0
  unfolding on_reconnected AlwaysOk
  on_reconnected-AlwaysOk none s = tt
  on_reconnected-AlwaysOk (some (ok rpc)) s = tt
  on_reconnected-AlwaysOk (some (err e)) s = tt

  poll-AlwaysOk :
      (setting : Setting) (event : Event Bson) (s : Service channel U Bson)
      → AlwaysOk (poll setting event s).0
  unfolding poll AlwaysOk
  poll-AlwaysOk setting (client i link) s =
      poll_client-AlwaysOk setting link (take_out i s.client_poll_handles) s
  poll-AlwaysOk setting (hub_request m) s = tt
  poll-AlwaysOk setting (hub_lost attempts) s = on_reconnected-AlwaysOk (hub_connect attempts) s
  poll-AlwaysOk setting interrupted s = tt

  -- `Service::run` never returns, whatever happens, ctrl-c included.
  pub run_never_returns :
      (setting : Setting) (events : List (Event Bson)) (s : Service channel U Bson)
      → run setting events s ≡ none
  unfolding run
  run_never_returns setting [] s = refl
  run_never_returns setting (event ∷ events) s =
      after_poll-AlwaysOk _ _ (poll-AlwaysOk setting event s)
      ∙ run_never_returns setting events (poll setting event s).1
