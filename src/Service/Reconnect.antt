-- ===== src/Service/Reconnect.antt =====
-- krossbar-bus-lib/src/service.rs and client.rs: peers that the service connects to, and that are lost.
use krossbar_bus.Common.{
  ℕ, String, ◌≡◌, refl, ap, sym, ◌∙◌, Bool, true, none, some, List, ◌∷◌, ok, arith, eq_refl,
  some_inj, subst,
}
use krossbar_bus.Common.Maps.{get}
use krossbar_bus.Client.Events.{Channel, emit}
use krossbar_bus.Client.Handles.{
  ClientHandle, Client, polling, Dial, dialing, asking, lost, dialed, answered, client_handle,
  new_handle,
}
use krossbar_bus.Client.Handles
use krossbar_bus.Endpoints.World.{update}
use krossbar_bus.Service.Poll.{
  Scheduled, Setting, Service, client, take_out, poll, poll_client, schedule_client_poll,
}
use krossbar_bus.Service.Connect.{returned, Progress, connect_impl, connect_step}
use krossbar_bus.Service.Connect
use krossbar_bus.Service.Peers.{client_of, Inv, take_out-IsSplit}

module _ {channel : Channel} {U Bson : Type 0} where
  -- When the connection of a future is lost, the future calls the hub to connect again; when the hub hands
  -- over a stream, the future polls the connection again, and the clients of the peer are told. No client
  -- is removed.
  pub record ComesBack (setting : Setting) (i : ℕ) (f : Scheduled) (rest : List Scheduled)
      (s : Service channel U Bson) : Type 0 where
    pub lost_then : poll setting (client i lost) s ≡ (
      none,
      record s {
        client_poll_handles = record { handle = f.handle; phase = dialing asking } ∷ rest;
      },
    )
    pub back_then :
        (stream : ℕ)
        → poll setting (client 0 (dialed (answered (ok stream)))) (poll setting (client i lost) s).1
          ≡ (
            none,
            record s {
              client_poll_handles = record { handle = f.handle; phase = polling } ∷ rest;
              store = emit channel f.handle.self_reconnect_event (ok tt) s.store;
            },
          )

  outgoing-ComesBack :
      (setting : Setting) (i : ℕ) (f : Scheduled) (rest : List Scheduled)
      (s : Service channel U Bson)
      → take_out i s.client_poll_handles ≡ some (f, rest)
      → f.phase ≡ polling
      → s.store.flags f.handle.outgoing ≡ true
      → ComesBack setting i f rest s
  unfolding poll
  outgoing-ComesBack setting i f rest s out at outgoing =
      let gone : poll setting (client i lost) s ≡ (
        none,
        record s {
          client_poll_handles = record { handle = f.handle; phase = dialing asking } ∷ rest;
        },
      ) =
        rw (out, poll_client, at) (rw outgoing) in
      record { lost_then = gone; back_then = λ stream. rw gone refl }

  -- A call of `connect` that succeeds: the hub hands over a stream to a peer that the map does not name,
  -- or the map names the peer.
  pub data Connects (setting : Setting) (n : String) (wait : Bool) (s : Service channel U Bson)
      : Progress (Service channel U Bson) → Type 0 where
    first :
        {p : Progress (Service channel U Bson)} (stream : ℕ)
        → get n s.client_map ≡ none
        → connect_step setting n wait asking (Connect.dialed (answered (ok stream))) s ≡ some p
        → Connects setting n wait s p
    again :
        (c : Client)
        → get n s.client_map ≡ some c
        → Connects setting n wait s (connect_impl n wait s)

module _ {channel : Channel} {U Bson : Type 0} (s : Service channel U Bson) (v : Inv s) where
  -- The client of the map is the one of the future.
  found_client :
      (n : String) (c : Client) (i : ℕ) (f : Scheduled) (rest : List Scheduled)
      → get n s.client_map ≡ some c
      → take_out i s.client_poll_handles ≡ some (f, rest)
      → f.handle.service_name ≡ n
      → c ≡ client_handle f.handle
  found_client n c i f rest there out named =
      let split = take_out-IsSplit i s.client_poll_handles f rest v.one_each out in
      some_inj (sym there ∙ v.agree n ∙ split.clients n ∙ rw (named, eq_refl n) refl)

  reconnects_again :
      (n : String) (wait : Bool) (c : Client) (setting : Setting) (i : ℕ) (f : Scheduled)
      (rest : List Scheduled)
      → get n s.client_map ≡ some c
      → take_out i s.client_poll_handles ≡ some (f, rest)
      → f.handle.service_name ≡ n
      → f.phase ≡ polling
      → ((connect_impl n wait s).0 ≡ returned (ok (client_handle f.handle)))
        × ComesBack setting i f rest (connect_impl n wait s).1
  unfolding connect_impl update client_handle
  reconnects_again n wait c setting i f rest there out named at =
      let same = found_client n c i f rest there out named in
      let flagged : update c.outgoing true s.store.flags f.handle.outgoing ≡ true =
        let shared : c.outgoing ≡ f.handle.outgoing = ap (λ (x : Client). x.outgoing) same in
        ground (arith, shared) in
      rw (connect_impl, there)
        (
          ap
              (λ (x : Client).
                let r : Progress (Service channel U Bson) = (returned (ok x), s) in r.0)
              same,
          outgoing-ComesBack setting i f rest _ out at flagged,
        )

  -- The future of a peer that the map did not name is the one that was added for it.
  added_client :
      (h : ClientHandle) (i : ℕ) (f : Scheduled) (rest : List Scheduled)
      → get h.service_name s.client_map ≡ none
      → take_out i (record { handle = h; phase = polling } ∷ s.client_poll_handles) ≡ some (f, rest)
      → f.handle.service_name ≡ h.service_name
      → client_handle h ≡ client_handle f.handle
  unfolding client_of
  added_client h i f rest free out named =
      let split =
        take_out-IsSplit i (record { handle = h; phase = polling } ∷ s.client_poll_handles) f rest
          (sym (v.agree h.service_name) ∙ free, v.one_each) out in
      let here : client_of h.service_name
            (record { handle = h; phase = polling } ∷ s.client_poll_handles)
          ≡ some (client_handle h) =
        rw (eq_refl h.service_name) refl in
      some_inj (sym here ∙ split.clients h.service_name ∙ rw (named, eq_refl h.service_name) refl)

  -- What `connect` concludes with, in both ways to succeed.
  abbrev Kept :
      Setting → ℕ → Scheduled → List Scheduled → Progress (Service channel U Bson) → Type 0
  Kept setting i f rest p =
      (p.0 ≡ returned (ok (client_handle f.handle))) × ComesBack setting i f rest p.1

  reconnects_first :
      (h : ClientHandle) (setting : Setting) (i : ℕ) (f : Scheduled) (rest : List Scheduled)
      (after : Service channel U Bson)
      → after.client_poll_handles ≡ record { handle = h; phase = polling } ∷ s.client_poll_handles
      → after.store.flags h.outgoing ≡ true
      → get h.service_name s.client_map ≡ none
      → take_out i after.client_poll_handles ≡ some (f, rest)
      → f.handle.service_name ≡ h.service_name
      → f.phase ≡ polling
      → Kept setting i f rest (returned (ok (client_handle h)), after)
  unfolding client_handle
  reconnects_first h setting i f rest after fs flagged free out named at =
      let same = added_client h i f rest free (rw fs at out) named in
      let shared : h.outgoing ≡ f.handle.outgoing = ap (λ (x : Client). x.outgoing) same in
      (
        ap (λ (x : Client). let r : Progress (Service channel U Bson) = (returned (ok x), s) in r.0)
            same,
        outgoing-ComesBack setting i f rest after out at
            (subst (λ a. after.store.flags a ≡ true) shared flagged),
      )

  pub reconnects_after_connect :
      (n : String) (wait : Bool) (setting : Setting) (p : Progress (Service channel U Bson)) (i : ℕ)
      (f : Scheduled) (rest : List Scheduled)
      → Connects setting n wait s p
      → take_out i p.1.client_poll_handles ≡ some (f, rest)
      → f.handle.service_name ≡ n
      → f.phase ≡ polling
      → (p.0 ≡ returned (ok (client_handle f.handle))) × ComesBack setting i f rest p.1
  unfolding connect_impl connect_step Connect.on_dialed Connect.keep_handle schedule_client_poll
      new_handle Handles.hub_connect update
  reconnects_after_connect n wait setting p i f rest (again c there) out named at =
      reconnects_again n wait c setting i f rest there (rw (connect_impl, there) at out) named at
  reconnects_after_connect n wait setting p i f rest (first stream free e) out named at =
      let made =
        new_handle channel true n stream s.hub_connection s.reconnect_signal wait s.store in
      let flagged : made.1.flags made.0.outgoing ≡ true = ground arith in
      subst
        (λ (q : Progress (Service channel U Bson)).
          take_out i q.1.client_poll_handles ≡ some (f, rest) → Kept setting i f rest q)
        (some_inj e) (λ o. reconnects_first made.0 setting i f rest _ refl flagged free o named at)
        out
