-- ===== src/Hub/Interleaved/Total.antt =====
-- krossbar-hub/src/hub.rs and client.rs: panics of the hub while its tasks take turns.
use krossbar_bus.Common.{ℕ, String, ◌≡◌, ◌≢◌, subst, some, Option-cases, List, inl, inr}
use krossbar_bus.Names.Decide.{Visits}
use krossbar_bus.Permissions.{System, not_text}
use krossbar_bus.Hub.Context.{Attempt, Effect}
use krossbar_bus.Hub.Policies.{env_of}
use krossbar_bus.Hub.Sessions.{Codec}
use krossbar_bus.Hub.Crashes.{hub_never_panics}
use krossbar_bus.Hub.Pool.{Pool, Event}
use krossbar_bus.Hub.Interleaved.{turn, Turns}
use krossbar_bus.Hub.Interleaved.Abstract.{abstract}
use krossbar_bus.Hub.Interleaved.Resumes.{Follows}
use krossbar_bus.Hub.Interleaved.Refines.{turn-Follows}
use krossbar_bus.Hub.Interleaved.Allowed.{idle, interleaving_excludes}

-- If the executable links of all processes are texts or cannot be read, and iterating over a set visits its
-- members and nothing else: after every history of a new hub whose tasks take turns at their awaits, no
-- event makes the hub panic, whatever the clients send and whoever holds the lock.
pub interleaving_never_panics :
    (codec : Codec) (sys : System) (visits : Visits sys.order) (attempts : ℕ → Attempt)
    (dirs : List String) (p : Pool (codec.Bson)) (es : List Effect) (event : Event (codec.Bson))
    → Turns codec (idle dirs) es p
    → ((pid : ℕ) → sys.exe_link pid ≢ not_text)
    → (next : Pool (codec.Bson) × List Effect) × (turn codec
          (env_of sys visits attempts)
          p.main
          event
          p
        ≡ some next)
interleaving_never_panics codec sys visits attempts dirs p es event t texts =
    let env = env_of sys visits attempts in
    let follows =
      turn-Follows (λ w i u. Unit {0}) codec env p p.main event
        (interleaving_excludes codec dirs p es t).1 in
    elim (Option-cases (turn codec env p.main event p)) [
      | inr (next, e) ↦ (next, e)
      | inl e ↦
          let (coarse, panics) = subst (Follows (λ w i u. Unit {0}) codec env p) e follows in
          let (r, returns) = hub_never_panics codec sys visits attempts (abstract p) coarse texts in
          cc (panics, returns)
    ]
