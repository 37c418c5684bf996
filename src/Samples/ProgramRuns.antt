-- ===== src/Samples/ProgramRuns.antt =====
-- The program of the hub, whose socket file was left by an earlier run.
use krossbar_bus.Common.{
  String, Bool, true, false, Result, ok, err, some, none, List, [], ◌∷◌, ◌++◌, ◌≡◌, refl, inr,
}
use krossbar_bus.Hub.Context.{Env}
use krossbar_bus.Hub.Sessions.{new, Event, accepted, step, Runs, start, then_step}
use krossbar_bus.Protocol.{HubMessage}
use krossbar_bus.Hub.Program.{
  SocketFile, Exit, served, ongoing, stopped, panicked, Next, happens, ctrl_c, main, all_exist,
}
use krossbar_bus.Hub.Restart.{events_of, main_lem}
use krossbar_bus.Samples.{codec}
use krossbar_bus.Samples.HubStates.{lax, client_came}

abbrev bind_file : Bool → Result Bool String
bind_file true = err "address in use"
bind_file false = ok true

-- Whether the file is there.
abbrev file : SocketFile
file = record {
  State = Bool;
  bind = bind_file;
  remove_file = λ s. false;
  set_permissions = λ s. some s;
}

-- One client came.
one_came : Runs codec (new []) [] client_came
unfolding step
one_came = then_step lax (accepted (some (some 7))) start refl

abbrev hub : List (Next codec) → Exit Bool
hub nexts = main codec file (λ dir. true) [] nexts true

main_lem_example :
    (hub (events_of codec one_came) ≡ served (ongoing client_came []) true)
    × ((rest : List (Next codec))
        → hub (events_of codec one_came ++ ctrl_c ∷ rest) ≡ served (stopped client_came []) false)
    × ((rest : List (Next codec)) (env : Env) (event : Event HubMessage)
        → step codec env client_came event ≡ none
        → hub (events_of codec one_came ++ happens env event ∷ rest) ≡ served panicked true)
unfolding all_exist
main_lem_example =
    main_lem codec file (λ dir. true) [] true true true client_came [] one_came refl
      (inr ("address in use", refl, refl)) refl
