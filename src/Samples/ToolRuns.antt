-- ===== src/Samples/ToolRuns.antt =====
-- The theorems on the tools, applied to a name and to a line of input.
use krossbar_bus.Common.{
  ◌∷◌, [], String, ℕ, true, false, ok, err, some, none, ◌≡◌, refl, split, contains_char, cons_first,
}
use krossbar_bus.Protocol.{not_allowed}
use krossbar_bus.Tools.Monitor.{short_name, push_short, push_first}
use krossbar_bus.Tools.Short.{Shows, short_name_lem}
use krossbar_bus.Tools.Inspect.{Bright, print}
use krossbar_bus.Tools.Listed.{print_lem}
use krossbar_bus.Tools.Commands.{
  Peer, handle_input_line, run_session, line, quits, show, unknown_command, call, response,
}
use krossbar_bus.Tools.Lines.{Handles, handle_input_line_lem}

-- Painted texts start with a mark.
abbrev mark : String → String
mark s = String.◌∷◌ "+" s

name_is_shortened : short_name mark "com.krossbar.hub" true ≡ some "c.k.+hub"
unfolding short_name push_short push_first split cons_first
name_is_shortened = refl

empty_section_panics : short_name mark "com..hub" true ≡ none
unfolding short_name push_short push_first split cons_first
empty_section_panics = refl

mark_keeps : (s : String) → contains_char "." s ≡ false → contains_char "." (mark s) ≡ false
unfolding contains_char
mark_keeps s e = e

short_name_lem_example :
    Shows mark true (split "." "com.krossbar.hub") (short_name mark "com.krossbar.hub" true)
short_name_lem_example = short_name_lem mark "com.krossbar.hub" true mark_keeps

abbrev echo : Peer
echo = record {
  Json = String;
  Stream = ℕ;
  parse = λ s. ok s;
  on_call = λ name json. ok json;
  on_subscribe = λ name. err not_allowed;
  on_inspect = err not_allowed;
  print_error = λ e. "not allowed";
}

handle_input_line_lem_example :
    Handles echo "call sum 3" (handle_input_line echo "com.b" "call sum 3")
handle_input_line_lem_example = handle_input_line_lem echo "com.b" "call sum 3"

abbrev gray : Bright
gray = record { bright_blue = λ s. s; bright_yellow = λ s. s; bright_green = λ s. s }

print_lem_example :
    split "\n" (print gray (record { methods = "sum" ∷ []; signals = []; states = "level" ∷ [] }))
    ≡ "methods:" ∷ "\tsum" ∷ "signals:" ∷ "states:" ∷ "\tlevel" ∷ "" ∷ []
unfolding contains_char
print_lem_example =
    print_lem gray (record { methods = "sum" ∷ []; signals = []; states = "level" ∷ [] })
      (refl, (refl, (refl, tt))) (refl, tt) tt (refl, tt)

session_ends :
    run_session echo "com.b" (line "" ∷ line "call sum 3" ∷ line "q" ∷ line "help" ∷ []) []
    ≡ (quits, show (unknown_command "") ∷ call "sum" "3" ∷ show (response "Method" "sum" "3") ∷ [])
unfolding run_session handle_input_line split cons_first
session_ends = refl
