-- ===== src/Hub/Restart.antt =====
-- krossbar-hub/src/main.rs and hub.rs: the runs of the program and the histories of the hub.
use krossbar_bus.Common.{
  String, ◌≡◌, refl, sym, ap, ◌∙◌, append-nil, append_assoc, Bool, none, true, some, List, [], ◌∷◌,
  ◌++◌, inl, inr, ◌⊎◌, ok, err,
}
use krossbar_bus.Hub.Context.{Effect, Env}
use krossbar_bus.Hub.Sessions.{Codec, HubState, Event, new, step, Runs, start, then_step}
use krossbar_bus.Hub.Program.{
  SocketFile, listen, bind_or_replace, bind_again, served, panicked, ongoing, stopped, Next,
  happens, ctrl_c, serve, clean_up, serve_on, run, all_exist, main,
}

module _ (codec : Codec) where
  -- What happens in a history, in its order.
  unfoldable pub events_of :
      {origin h : HubState} {effects : List Effect}
      → Runs codec origin effects h
      → List (Next codec)
  events_of start = []
  events_of (then_step env event r e) = events_of r ++ happens env event ∷ []

  serve-step :
      (env : Env) (event : Event (codec.Bson)) (more : List (Next codec)) (h h2 : HubState)
      (es fs : List Effect)
      → step codec env h event ≡ some (h2, fs)
      → serve codec (happens env event ∷ more) h es ≡ serve codec more h2 (es ++ fs)
  unfolding serve
  serve-step env event more h h2 es fs e = rw (serve, e) refl

  serve_panic :
      (env : Env) (event : Event (codec.Bson)) (more : List (Next codec)) (h : HubState)
      (es : List Effect)
      → step codec env h event ≡ none
      → serve codec (happens env event ∷ more) h es ≡ panicked
  unfolding serve
  serve_panic env event more h es e = rw (serve, e) refl

  -- The loop takes a history step by step, and goes on from its end.
  serve-events :
      {origin h : HubState} {effects : List Effect} (r : Runs codec origin effects h)
      (more : List (Next codec))
      → serve codec (events_of r ++ more) origin [] ≡ serve codec more h effects
  unfolding events_of
  serve-events start more = refl
  serve-events {origin} (then_step env event r e) more =
      ap (λ nexts. serve codec nexts origin []) (append_assoc (events_of r) _ more)
      ∙ serve-events r (happens env event ∷ more)
      ∙ serve-step env event more _ _ _ _ e

  module _ (socket : SocketFile) where
    listens :
        (s bound listening : socket.State)
        → (socket.bind s ≡ ok bound)
          ⊎ ((e : String) × (socket.bind s ≡ err e)
              × (socket.bind (socket.remove_file s) ≡ ok bound))
        → socket.set_permissions bound ≡ some listening
        → listen socket s ≡ some listening
    unfolding listen bind_or_replace bind_again
    listens s bound listening (inl e) opened = rw (e, opened) refl
    listens s bound listening (inr (x, e, again)) opened = rw (e, again, opened) refl

    -- Once it listens, the program is its loop and what comes after.
    started :
        (exists : String → Bool) (dirs : List String) (s bound listening : socket.State)
        → all_exist codec socket exists dirs ≡ true
        → (socket.bind s ≡ ok bound)
          ⊎ ((e : String) × (socket.bind s ≡ err e)
              × (socket.bind (socket.remove_file s) ≡ ok bound))
        → socket.set_permissions bound ≡ some listening
        → (nexts : List (Next codec))
        → main codec socket exists dirs nexts s
          ≡ clean_up codec socket listening (serve codec nexts (new dirs) [])
    unfolding main run serve_on
    started exists dirs s bound listening there binds opened nexts =
        let listening_on : listen socket s ≡ some listening =
          listens s bound listening binds opened in
        rw (there, listening_on) refl

    -- The program of the hub runs as its histories say. If all additional directories
    -- exist, and the socket can be bound, at once or after its file was removed, and opened to all users,
    -- then for each history of a new hub: after the events of the history it stands at the end of the
    -- history, with what was written there, and the socket file is there; if ctrl-c comes next, it stops
    -- there, whatever would come after, and the socket file is removed; and if a step panics next, it ends
    -- and leaves the socket file.
    pub main_lem :
        (exists : String → Bool) (dirs : List String) (s bound listening : socket.State)
        (h : HubState) (effects : List Effect) (r : Runs codec (new dirs) effects h)
        → all_exist codec socket exists dirs ≡ true
        → (socket.bind s ≡ ok bound)
          ⊎ ((e : String) × (socket.bind s ≡ err e)
              × (socket.bind (socket.remove_file s) ≡ ok bound))
        → socket.set_permissions bound ≡ some listening
        → (main codec socket exists dirs (events_of r) s ≡ served (ongoing h effects) listening)
          × ((rest : List (Next codec))
              → main codec socket exists dirs (events_of r ++ ctrl_c ∷ rest) s
                ≡ served (stopped h effects) (socket.remove_file listening))
          × ((rest : List (Next codec)) (env : Env) (event : Event (codec.Bson))
              → step codec env h event ≡ none
              → main codec socket exists dirs (events_of r ++ happens env event ∷ rest) s
                ≡ served panicked listening)
    unfolding serve clean_up
    main_lem exists dirs s bound listening h effects r there binds opened =
        let on = started exists dirs s bound listening there binds opened in
        (
          on (events_of r)
              ∙ ap (clean_up codec socket listening) (
                  ap (λ nexts. serve codec nexts (new dirs) []) (sym (append-nil (events_of r)))
                  ∙ serve-events r []),
          λ rest. on _ ∙ ap (clean_up codec socket listening) (serve-events r (ctrl_c ∷ rest)),
          λ rest env event e.
              on _
              ∙ ap (clean_up codec socket listening) (
                  serve-events r (happens env event ∷ rest)
                  ∙ serve_panic env event rest h effects e),
        )
