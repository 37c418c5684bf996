-- ===== src/Handshake/Meeting.antt =====
-- The connection of two services, on all three sides: the service that asks for it, the hub, and the
-- service that is asked for.
use krossbar_bus.Common.{
  ℕ, String, ◌≡◌, refl, Bool, true, false, none, some, [], ◌∷◌, ◌&&◌, ok, arith, text_eq, eq_refl,
}
use krossbar_bus.Common.Maps.{get, insert, contains_key, contains_key-get, get-insert}
use krossbar_bus.Protocol.{connect, hub_connect_method, monitor_service_name}
use krossbar_bus.Rpc.{Message, call, fd}
use krossbar_bus.Client.Events.{Channel, Store}
use krossbar_bus.Client.Handles.{Client, asking, answered, client_handle, new_handle}
use krossbar_bus.Service.Poll
use krossbar_bus.Service.Poll.{
  Setting, Service, hub_request, handle_body, add_client, schedule_client_poll,
}
use krossbar_bus.Service.Connect.{returned, dialed, connect_step, keep_handle}
use krossbar_bus.Service.Peers.{client_of}
use krossbar_bus.Hub.Context.{
  respond_with_fd, connection_request, Env, handle_connection_request, connect_or_wait,
  send_connection_descriptors,
}
use krossbar_bus.Hub.Sessions
use krossbar_bus.Hub.Sessions.{
  Codec, running, HubState, polled, step, settle, client_loop, loop_body, loop_message,
  check_endpoint, set_task,
}

module _ {channel : Channel} {U Bson : Type 0} where
  -- The service has a client of the name, which writes to the socket and is looked after.
  abbrev pub Knows : String → ℕ → Service channel U Bson → Type 0
  Knows n socket s =
      (c : Client) × (c.writer ≡ socket)
      × (get n s.client_map ≡ some c)
      × (client_of n s.client_poll_handles ≡ some c)

  known :
      (s : Service channel U Bson) (n : String) (socket hub event : ℕ) (out wait : Bool)
      (store : Store channel)
      → let (h, store2) = new_handle channel out n socket hub event wait store in
        Knows n socket (
          schedule_client_poll h
            (record s { store = store2; client_map = insert n (client_handle h) s.client_map }))
  unfolding client_of client_handle schedule_client_poll new_handle
  known s n socket hub event out wait store =
      let h = (new_handle channel out n socket hub event wait store).0 in
      (
        client_handle h,
        refl,
        ground (arith, get-insert n n (client_handle h) s.client_map, eq_refl n),
        rw (eq_refl n) refl,
      )

  -- The service that is asked for gets a connection request of the hub.
  accepts_peer :
      (s : Service channel U Bson) (setting : Setting) (m : Message Bson) (n : String) (socket : ℕ)
      → m.body ≡ fd n socket
      → get n s.client_map ≡ none
      → text_eq n monitor_service_name ≡ false
      → Knows n socket (Poll.poll setting (hub_request m) s).1
  unfolding Poll.poll client_of client_handle
  accepts_peer s setting m n socket body free plain =
      let guard : (setting.monitor && text_eq n monitor_service_name) ≡ false = ground arith in
      let new : contains_key n s.client_map ≡ false =
        ground (arith, contains_key-get n s.client_map) in
      rw (Poll.handle_new_connection, body, handle_body, guard, add_client, new)
        (known s n socket s.hub_connection s.reconnect_signal false false s.store)

  -- The service that asks gets the answer of the hub.
  gets_peer :
      (s : Service channel U Bson) (setting : Setting) (n : String) (wait : Bool) (socket : ℕ)
      → (c : Client) × (s2 : Service channel U Bson) × Knows n socket s2
        × (connect_step setting n wait asking (dialed (answered (ok socket))) s
            ≡ some (returned (ok c), s2))
  unfolding connect_step client_of client_handle keep_handle
  gets_peer s setting n wait socket =
      (_, _, known s n socket s.hub_connection s.reconnect_signal true wait s.store, refl)

module _ (codec : Codec) where
  introduces :
      (env : Env) (h : HubState) (c d id : ℕ) (i t : String) (wait : Bool) (b : codec.Bson)
      (p q : ℕ)
      → h.tasks c ≡ some (running i)
      → get t h.context.client_registry ≡ some d
      → (env.policy h.context.permissions).check_connection_allowed i t ≡ some true
      → (env.attempts 0).pair ≡ ok (p, q)
      → (env.attempts 0).write_fails ≡ false
      → codec.from_bson b ≡ ok (connect t wait)
      → (h2 : HubState) × (h2.context ≡ h.context)
        × (step codec env h (
              polled c
                (some (record { message_id = id; endpoint = hub_connect_method; body = call b })))
            ≡ some (
              h2,
              connection_request d i t p
                  ∷ respond_with_fd (record { connection = c; message_id = id }) q
                  ∷ [],
            ))
  unfolding step Sessions.poll client_loop loop_body loop_message check_endpoint
  introduces env h c d id i t wait b p q at there allowed pair writes decoded = (
    record h { tasks = set_task h.tasks c (some (running i)) },
    refl,
    rw
        (
          at, decoded, handle_connection_request, allowed, connect_or_wait, there,
          send_connection_descriptors, pair, writes,
        )
        refl,
  )

  -- If a service asks the hub for a peer that is registered and that it may connect to, and the socket
  -- pair is made and sent, then the hub writes a connection request to the peer and the answer to the
  -- service, each with one end of the pair. A peer that has no client of the name of the service, which
  -- is not the monitor, has one with its end of the pair after it polled the request; and the service
  -- that waits for the answer gets a client with the other end. Both clients are looked after.
  pub peers_meet :
      {channel : Channel} {U V Bson : Type 0} (env : Env) (h : HubState) (c d id : ℕ) (i t : String)
      (wait : Bool) (b : codec.Bson) (p q : ℕ) (setting : Setting) (asker : Service channel U Bson)
      (asked : Service channel V Bson) (m : Message Bson)
      → h.tasks c ≡ some (running i)
      → get t h.context.client_registry ≡ some d
      → (env.policy h.context.permissions).check_connection_allowed i t ≡ some true
      → (env.attempts 0).pair ≡ ok (p, q)
      → (env.attempts 0).write_fails ≡ false
      → codec.from_bson b ≡ ok (connect t wait)
      → m.body ≡ fd i p
      → get i asked.client_map ≡ none
      → text_eq i monitor_service_name ≡ false
      → ((h2 : HubState) × (h2.context ≡ h.context)
          × (step codec env h (
                polled c
                  (some (record { message_id = id; endpoint = hub_connect_method; body = call b })))
              ≡ some (
                h2,
                connection_request d i t p
                    ∷ respond_with_fd (record { connection = c; message_id = id }) q
                    ∷ [],
              )))
        × Knows i p (Poll.poll setting (hub_request m) asked).1
        × ((e : Client) × (asker2 : Service channel U Bson) × Knows t q asker2
            × (connect_step setting t wait asking (dialed (answered (ok q))) asker
                ≡ some (returned (ok e), asker2)))
  peers_meet env h c d id i t wait b p q setting asker asked m at there allowed pair writes decoded
        body free plain =
      (
        introduces env h c d id i t wait b p q at there allowed pair writes decoded,
        accepts_peer asked setting m i p body free plain,
        gets_peer asker setting t wait q,
      )
