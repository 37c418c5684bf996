-- ===== src/Hub/Moves.antt =====
-- What a task may do to the shared state of the hub: a relation between the phase of a task with the
-- context before, and those after. Every handler only makes such moves.
use krossbar_bus.Common.{
  ℕ, String, ◌≡◌, Bool, true, false, Option, none, some, List, ◌++◌, arith, Bool-cases,
  Option-cases, inl, inr, Result, ok, err, and_then,
}
use krossbar_bus.Common.Maps.{get, contains_key, insert, remove, contains_key-get}
use krossbar_bus.Protocol.{HubMessage, register, connect}
use krossbar_bus.Rpc.{Body, Message, call}
use krossbar_bus.Hub.Context.{
  Request, Effect, Env, Policy, HubContext, admit, on_allowed, connect_or_wait, wait_or_refuse,
  push_waiter,
}
use krossbar_bus.Hub.Sessions.{
  Codec, Phase, authorizing, resolving, running, finished, Outcome, authorize, client_loop,
  authorize_message, authorize_body, loop_message, loop_body, on_auth,
}

pub data Move (context : HubContext) (c : ℕ) : Phase → HubContext → Phase → Type 0 where
  refused :
      (credentials : Option ℕ) → Move context c (authorizing credentials) context (finished none)
  takes :
      (credentials : Option ℕ) (n : String)
      → get n context.client_registry ≡ none
      → Move context c
          (authorizing credentials)
          (record context { client_registry = insert n c context.client_registry })
          (resolving n)
  serves :
      (n : String)
      → Move context c
          (resolving n)
          (record context { pending_connections = remove n context.pending_connections })
          (running n)
  stays : (n : String) → Move context c (running n) context (running n)
  queues :
      (n t : String) (request : Request)
      → get t context.client_registry ≡ none
      → Move context c (running n) (push_waiter t n request context) (running n)
  ends : (n : String) → Move context c (running n) context (finished (some n))

-- An outcome that is no panic is a move.
abbrev pub Moves : HubContext → ℕ → Phase → Outcome → Type 0
Moves context c phase none = Unit {0}
Moves context c phase (some (context', phase', effects)) = Move context c phase context' phase'

admit-Moves :
    (credentials : Option ℕ) (n : String) (context : HubContext) (before : List Effect)
    (request : Request) (o : Option Bool)
    → get n context.client_registry ≡ none
    → Moves context request.connection (authorizing credentials) (
        and_then
          (and_then o (λ allowed. some (admit n request.connection context allowed)))
          (on_auth n before request))
unfolding admit on_auth
admit-Moves credentials n context before request none e = tt
admit-Moves credentials n context before request (some true) e = takes credentials n e
admit-Moves credentials n context before request (some false) e = refused credentials

queue-Moves :
    (policy : Policy) (n t : String) (request : Request) (wait : Bool) (context : HubContext)
    → get t context.client_registry ≡ none
    → Move context request.connection
        (running n)
        (wait_or_refuse policy n t request wait context).0
        (running n)
unfolding wait_or_refuse
queue-Moves policy n t request false context e = stays n
queue-Moves policy n t request true context e = elim (Bool-cases (policy.check_service_exists t)) [
  | inl known ↦ rw known (queues n t request e)
  | inr unknown ↦ rw unknown (stays n)
]

on_allowed-Moves :
    (env : Env) (n t : String) (request : Request) (wait : Bool) (context : HubContext)
    (allowed : Bool)
    → Move context request.connection
        (running n)
        (on_allowed env n t request wait context allowed).0
        (running n)
unfolding on_allowed
on_allowed-Moves env n t request wait context false = stays n
on_allowed-Moves env n t request wait context true =
    elim (Option-cases (get t context.client_registry)) [
      | inl e ↦
          rw (e, connect_or_wait)
            (queue-Moves (env.policy context.permissions) n t request wait context e)
      | inr (w, e) ↦ rw (e, connect_or_wait) (stays n)
    ]

module _ (codec : Codec) (env : Env) where
  open codec use {Bson}

  authorize_message-Moves :
      (credentials : Option ℕ) (context : HubContext) (before : List Effect) (request : Request)
      (r : Result HubMessage String)
      → Moves context request.connection
          (authorizing credentials)
          (authorize_message codec env credentials context before request r)
  unfolding authorize_message
  authorize_message-Moves credentials context before request (err e) = refused credentials
  authorize_message-Moves credentials context before request (ok (connect t w)) =
      refused credentials
  authorize_message-Moves credentials context before request (ok (register n)) =
      elim (Bool-cases (contains_key n context.client_registry)) [
        | inl taken ↦ rw taken (refused credentials)
        | inr free ↦ rw free (
            admit-Moves credentials n context before request
              ((env.policy context.permissions).check_service_name_allowed credentials n)
              (ground (arith, contains_key-get n context.client_registry)))
      ]

  authorize_body-Moves :
      (credentials : Option ℕ) (context : HubContext) (before : List Effect) (request : Request)
      (body : Body Bson)
      → Moves context request.connection
          (authorizing credentials)
          (authorize_body codec env credentials context before request body)
  unfolding authorize_body
  authorize_body-Moves credentials context before request (call bson) =
      authorize_message-Moves credentials context before request (codec.from_bson bson)
  authorize_body-Moves credentials context before request other = refused credentials

  -- Authorization is refused, or takes a name that is free.
  pub authorize-Moves :
      (credentials : Option ℕ) (c : ℕ) (context : HubContext) (m : Option (Message Bson))
      → Moves context c (authorizing credentials) (authorize codec env credentials c context m)
  unfolding authorize
  authorize-Moves credentials c context none = refused credentials
  authorize-Moves credentials c context (some m) =
      authorize_body-Moves credentials context _
        (record { connection = c; message_id = m.message_id }) m.body

  loop_message-Moves :
      (n : String) (context : HubContext) (before : List Effect) (request : Request)
      (r : Result HubMessage String)
      → Moves context request.connection
          (running n)
          (loop_message codec env n context before request r)
  unfolding loop_message
  loop_message-Moves n context before request (err e) = ends n
  loop_message-Moves n context before request (ok (register m)) = ends n
  loop_message-Moves n context before request (ok (connect t wait)) =
      asked ((env.policy context.permissions).check_connection_allowed n t)
    where
      asked :
          (o : Option Bool)
          → Moves context request.connection (running n) (
              and_then
                (and_then o (λ allowed. some (on_allowed env n t request wait context allowed)))
                (λ (context', effects). some (context', running n, before ++ effects)))
      asked none = tt
      asked (some allowed) = on_allowed-Moves env n t request wait context allowed

  loop_body-Moves :
      (n : String) (context : HubContext) (before : List Effect) (request : Request)
      (body : Body Bson)
      → Moves context request.connection
          (running n)
          (loop_body codec env n context before request body)
  unfolding loop_body
  loop_body-Moves n context before request (call bson) =
      loop_message-Moves n context before request (codec.from_bson bson)
  loop_body-Moves n context before request other = ends n

  -- A round of the client loop ends the task, leaves the context, or queues a client for a name that
  -- is not registered.
  pub client_loop-Moves :
      (n : String) (c : ℕ) (context : HubContext) (m : Option (Message Bson))
      → Moves context c (running n) (client_loop codec env n c context m)
  unfolding client_loop
  client_loop-Moves n c context none = ends n
  client_loop-Moves n c context (some m) =
      loop_body-Moves n context _ (record { connection = c; message_id = m.message_id }) m.body
