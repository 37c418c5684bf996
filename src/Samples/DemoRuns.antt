-- ===== src/Samples/DemoRuns.antt =====
-- The demo server greets three clients, while another one watches its state.
use krossbar_bus.Common.{ℕ, String, Option, none, some, [], ◌∷◌, ◌≡◌, refl, Result, ok, arith}
use krossbar_bus.Endpoints.World.{World}
use krossbar_bus.Endpoints.States
use krossbar_bus.Demo.{Greeter, greet, hello}
use krossbar_bus.Demo.Tenth.{Greeted, opened, greeted, watches, IsTenth, tenth_client_lem}
use krossbar_bus.Samples.EndpointRuns.{all_take}

abbrev Pair : Type 0
Pair = ℕ × String

abbrev pair : Pair → Result Pair String
pair p = ok p

abbrev greeter : Greeter Pair
greeter = record {
  signal = record { signal_clients = 0; marker = λ n. ok (n, "") };
  state = record { state_clients = 1; value = (0, ""); current_value = 1 };
  client_counter = 0;
}

abbrev silent : World ℕ Pair
silent = record { clients = λ a. []; values = λ a. (0, ""); next = 2; sent = []; user = 0 }

abbrev Reply : Type 0
Reply = Option (String × Greeter Pair × World ℕ Pair)

abbrev after : Reply → Greeter Pair × World ℕ Pair
after none = (greeter, silent)
after (some (reply, g, w)) = (g, w)

abbrev one : Greeter Pair × World ℕ Pair
one = after (greet pair all_take "ann" greeter silent)

abbrev watched : World ℕ Pair
watched = States.add_client all_take (States.handle one.0.state) (7, 3) one.1

abbrev two : Greeter Pair × World ℕ Pair
two = after (greet pair all_take "bob" one.0 watched)

two-Greeted : Greeted pair greeter silent ("ann" ∷ "bob" ∷ []) two.0 two.1
unfolding greet
two-Greeted =
    greeted all_take "bob" (hello "bob")
      (watches all_take (7, 3) (greeted all_take "ann" (hello "ann") opened refl)) refl

tenth_client_lem_example : IsTenth pair ("ann" ∷ "bob" ∷ []) two.0 two.1
tenth_client_lem_example =
    tenth_client_lem pair greeter silent ("ann" ∷ "bob" ∷ []) two.0 two.1 refl two-Greeted
      (omega arith) (omega arith)

first_is_tenth :
    (States.current (States.handle two.0.state) two.1 ≡ (0, "ann")) × (two.0.client_counter ≡ 2)
unfolding greet States.add_client States.handle
first_is_tenth = (refl, refl)
