-- ===== src/Tools/Inspect.antt =====
-- krossbar-bus-common/src/protocols/inspections.rs: how `InspectData` is printed.
use krossbar_bus.Common.{String, List, [], ◌∷◌}
use krossbar_bus.Endpoints.World.{InspectData}
use krossbar_bus.Tools.Monitor.{concat}

-- The colours of the crate `colored`.
pub record Bright : Type 0 where
  pub bright_blue : String → String
  pub bright_yellow : String → String
  pub bright_green : String → String

-- One `writeln!` for each name, after a tab, in front of what follows.
unfoldable pub print_names : List String → String → String
unfolding concat
print_names [] rest = rest
print_names (name ∷ names) rest = concat ("\t" ∷ name ∷ "\n" ∷ print_names names rest ∷ [])

-- `InspectData::fmt`
unfoldable pub print : Bright → InspectData → String
unfolding concat print_names
print bright data' = concat (
    bright.bright_blue "methods"
    ∷ ":\n"
    ∷ print_names data'.methods (
        concat (
          bright.bright_yellow "signals"
          ∷ ":\n"
          ∷ print_names data'.signals
              (concat (bright.bright_green "states" ∷ ":\n" ∷ print_names data'.states "" ∷ []))
          ∷ []))
    ∷ [])
