-- ===== src/Hub/Crashes.antt =====
-- Where the hub can panic: only in the check of a name, and there only on an executable path that is
-- no text.
use krossbar_bus.Common.{
  ℕ, String, ◌≡◌, ◌≢◌, refl, inl, inr, Bool, false, Option, none, some, List, Bool-cases, Result,
  ok, err,
}
use krossbar_bus.Common.Maps.{contains_key}
use krossbar_bus.Protocol.{Error, HubMessage, register, connect}
use krossbar_bus.Rpc.{Body, Message, call}
use krossbar_bus.Names.Decide.{Visits}
use krossbar_bus.Permissions.{System, Permissions, not_text, check_link, check_service_name_allowed}
use krossbar_bus.Permissions.Execs.{check_service_name_allowed-MayRegister}
use krossbar_bus.Hub.Context.{
  Request, Effect, Env, HubContext, Attempt, handle_connection_request, handle_auth_request,
}
use krossbar_bus.Hub.Sessions.{
  Codec, Phase, authorizing, resolving, running, finished, Outcome, authorize, client_loop,
  authorize_message, authorize_body, loop_message, loop_body, on_auth, HubState, settle, Event,
  accepted, polled, woken, reaped, poll, step,
}
use krossbar_bus.Hub.Policies.{env_of}

-- It returns.
abbrev pub Returns {ℓ} : {A : Type ℓ} → Option A → Type ℓ
Returns {A} o = (a : A) × (o ≡ some a)

-- The check of names never panics.
abbrev pub NamesReturn : Env → Type 0
NamesReturn env =
    (p : Permissions) (credentials : Option ℕ) (n : String)
    → Returns ((env.policy p).check_service_name_allowed credentials n)

module _ (codec : Codec) (env : Env) (names : NamesReturn env) where
  open codec use {Bson}

  auth-Returns :
      (credentials : Option ℕ) (context : HubContext) (n : String) (w : ℕ)
      → Returns (handle_auth_request env n w credentials context)
  unfolding handle_auth_request
  auth-Returns credentials context n w =
      elim (Bool-cases (contains_key n context.client_registry)) [
        | inl taken ↦ rw taken (_, refl)
        | inr free ↦ let (b, e) = names context.permissions credentials n in rw (free, e) (_, refl)
      ]

  on_auth-Returns :
      (n : String) (before : List Effect) (request : Request)
      (r : Result (Unit {0}) Error × HubContext)
      → Returns (on_auth n before request r)
  unfolding on_auth
  on_auth-Returns n before request (ok u, context) = (_, refl)
  on_auth-Returns n before request (err e, context) = (_, refl)

  authorize-Returns :
      (credentials : Option ℕ) (c : ℕ) (context : HubContext) (m : Option (Message Bson))
      → Returns (authorize codec env credentials c context m)
  unfolding authorize
  authorize-Returns credentials c context none = (_, refl)
  authorize-Returns credentials c context (some m) = body _ _ m.body
    where
      decoded :
          (before : List Effect) (request : Request) (r : Result HubMessage String)
          → Returns (authorize_message codec env credentials context before request r)
      decoded before request (err e) = (_, refl)
      decoded before request (ok (connect t w)) = (_, refl)
      decoded before request (ok (register n)) =
          let (r, e) = auth-Returns credentials context n request.connection in
          rw (e, authorize_message) (on_auth-Returns n before request r)

      body :
          (before : List Effect) (request : Request) (b : Body Bson)
          → Returns (authorize_body codec env credentials context before request b)
      body before request (call bson) = decoded before request (codec.from_bson bson)
      body before request other = (_, refl)

  connect-Returns :
      (n t : String) (request : Request) (wait : Bool) (context : HubContext)
      → Returns (handle_connection_request env n t request wait context)
  unfolding handle_connection_request
  connect-Returns n t request wait context =
      let (b, e) = (env.policy context.permissions).connection_total n t in rw e (_, refl)

  client_loop-Returns :
      (n : String) (c : ℕ) (context : HubContext) (m : Option (Message Bson))
      → Returns (client_loop codec env n c context m)
  unfolding client_loop
  client_loop-Returns n c context none = (_, refl)
  client_loop-Returns n c context (some m) = body _ _ m.body
    where
      decoded :
          (before : List Effect) (request : Request) (r : Result HubMessage String)
          → Returns (loop_message codec env n context before request r)
      decoded before request (err e) = (_, refl)
      decoded before request (ok (register t)) = (_, refl)
      decoded before request (ok (connect t wait)) =
          let (r, e) = connect-Returns n t request wait context in rw (e, loop_message) (_, refl)

      body :
          (before : List Effect) (request : Request) (b : Body Bson)
          → Returns (loop_body codec env n context before request b)
      body before request (call bson) = decoded before request (codec.from_bson bson)
      body before request other = (_, refl)

  settle-Returns : (h : HubState) (c : ℕ) (o : Outcome) → Returns o → Returns (settle h c o)
  unfolding settle
  settle-Returns h c o ((context, phase, effects), e) = rw (e, settle) (_, refl)

  poll-Returns :
      (h : HubState) (c : ℕ) (m : Option (Message Bson)) (o : Option Phase)
      → Returns (poll codec env h c m o)
  unfolding poll
  poll-Returns h c m (some (authorizing credentials)) =
      settle-Returns h c _ (authorize-Returns credentials c h.context m)
  poll-Returns h c m (some (running n)) = settle-Returns h c _ (client_loop-Returns n c h.context m)
  poll-Returns h c m (some (resolving n)) = (_, refl)
  poll-Returns h c m (some (finished n)) = (_, refl)
  poll-Returns h c m none = (_, refl)

  step-Returns : (h : HubState) (event : Event Bson) → Returns (step codec env h event)
  unfolding step
  step-Returns h (accepted credentials) = (_, refl)
  step-Returns h (polled c m) = poll-Returns h c m (h.tasks c)
  step-Returns h (woken c) = (_, refl)
  step-Returns h (reaped c) = (_, refl)

-- If the executable links of all processes are texts or cannot be read, and iterating over a set
-- visits its members and nothing else, then no event makes the hub panic, whatever the clients
-- send: malformed names, unknown services and undecodable messages included.
pub hub_never_panics :
    (codec : Codec) (sys : System) (visits : Visits sys.order) (attempts : ℕ → Attempt)
    (h : HubState) (event : Event codec.Bson)
    → ((pid : ℕ) → sys.exe_link pid ≢ not_text)
    → Returns (step codec (env_of sys visits attempts) h event)
hub_never_panics codec sys visits attempts h event texts =
    step-Returns codec (env_of sys visits attempts)
      (λ p credentials n.
        let (b, e, _) =
          check_service_name_allowed-MayRegister sys p credentials n (λ pid _. texts pid) in
        (b, e))
      h event

-- A client whose executable path is no text ends the hub by asking for any name that is free.
pub hub_panics_on_link :
    (codec : Codec) (sys : System) (visits : Visits sys.order) (attempts : ℕ → Attempt)
    (h : HubState) (c pid : ℕ) (m : Message codec.Bson) (bson : codec.Bson) (n : String)
    → h.tasks c ≡ some (authorizing (some pid))
    → sys.exe_link pid ≡ not_text
    → m.body ≡ call bson
    → codec.from_bson bson ≡ ok (register n)
    → contains_key n h.context.client_registry ≡ false
    → step codec (env_of sys visits attempts) h (polled c (some m)) ≡ none
unfolding step poll authorize handle_auth_request check_service_name_allowed
hub_panics_on_link codec sys visits attempts h c pid m bson n at link body decoded free =
    rw (at, poll)
      (rw (body, authorize_body)
        (rw (decoded, authorize_message) (rw (free, link, check_link, settle))))
