-- ===== src/Tools/Listed.antt =====
-- krossbar-bus-common/src/protocols/inspections.rs: the lines of a printed `InspectData`.
use Prim.Native.Char.{Char, code}
use Prim.Native.String.{◌++◌ as text_append}
use text.Mathlib.TextLemmas.{nil-append, cons-append, append-nil}
use krossbar_bus.Common.{
  String, ◌≡◌, refl, sym, ap, ◌∙◌, false, List, [], ◌∷◌, ◌++◌, inl, inr, arith, Bool-cases, ◌==◌,
  contains_char, split, cons_first, map,
}
use krossbar_bus.Endpoints.World.{InspectData}
use krossbar_bus.Tools.Monitor.{concat}
use krossbar_bus.Tools.Inspect.{Bright, print, print_names}
use krossbar_bus.Tools.Short.{HaveNo}

-- A text without the separator, in front of another, is in front of its first section.
split-append :
    (c : Char) (s t u : String) (us : List String)
    → contains_char c s ≡ false
    → split c t ≡ u ∷ us
    → split c (text_append s t) ≡ text_append s u ∷ us
unfolding split contains_char cons_first
split-append c String.[] t u us none_there e =
    ap (split c) (nil-append t) ∙ e ∙ ap (λ x. x ∷ us) (sym (nil-append u))
split-append c (String.◌∷◌ d s) t u us none_there e = elim (Bool-cases (code d == code c)) [
  | inl same ↦ ground arith
  | inr other ↦
      ap (split c) (cons-append d s t)
      ∙ rw (other, split-append c s t u us (ground arith) e)
          (ap (λ x. x ∷ us) (sym (cons-append d s u)))
]

-- Texts one after the other, the last of which begins with a new line.
split-line :
    (s t : String)
    → contains_char "\n" s ≡ false
    → split "\n" (text_append s (String.◌∷◌ "\n" t)) ≡ s ∷ split "\n" t
unfolding split
split-line s t none_there =
    split-append "\n" s (String.◌∷◌ "\n" t) "" (split "\n" t) none_there refl
    ∙ ap (λ x. x ∷ split "\n" t) (append-nil s)

newline : (t : String) → text_append "\n" t ≡ String.◌∷◌ "\n" t
newline t = cons-append "\n" "" t ∙ ap (String.◌∷◌ "\n") (nil-append t)

-- A name, as it is listed.
abbrev pub tabbed : String → String
tabbed name = text_append "\t" name

-- A heading, as it is listed.
abbrev pub titled : String → String
titled heading = text_append heading ":"

split-names :
    (names : List String) (rest : String)
    → HaveNo "\n" names
    → split "\n" (print_names names rest) ≡ map tabbed names ++ split "\n" rest
unfolding print_names concat contains_char
split-names [] rest v = refl
split-names (name ∷ names) rest v = split-append "\n" "\t" _ name _ refl (
    ap (λ t. split "\n" (text_append name t)) (newline _)
    ∙ split-line name _ v.0
    ∙ ap (λ t. name ∷ split "\n" t) (append-nil (print_names names rest))
    ∙ ap (λ lines. name ∷ lines) (split-names names rest v.1))

split-heading :
    (heading rest : String)
    → contains_char "\n" heading ≡ false
    → split "\n" (text_append heading (text_append ":\n" rest)) ≡ titled heading ∷ split "\n" rest
unfolding split cons_first
split-heading heading rest none_there =
    split-append "\n" heading (text_append ":\n" rest) ":" (split "\n" rest) none_there
      (ap (split "\n") (cons-append ":" "\n" rest ∙ ap (String.◌∷◌ ":") (newline rest)))

split-section :
    (heading : String) (names : List String) (rest : String)
    → contains_char "\n" heading ≡ false
    → HaveNo "\n" names
    → split "\n" (concat (heading ∷ ":\n" ∷ print_names names rest ∷ []))
      ≡ titled heading ∷ (map tabbed names ++ split "\n" rest)
unfolding concat
split-section heading names rest none_there v =
    split-heading heading _ none_there
    ∙ ap (λ t. titled heading ∷ split "\n" t) (append-nil (print_names names rest))
    ∙ ap (λ lines. titled heading ∷ lines) (split-names names rest v)

-- Where no name of an endpoint and no coloured heading holds a line feed: an `InspectData` is printed as
-- three headings, each of them followed by the names of its endpoints, in their order, one on a line and
-- after a tab; the text ends with a line feed.
pub print_lem :
    (bright : Bright) (d : InspectData)
    → HaveNo "\n" (
        bright.bright_blue "methods"
        ∷ bright.bright_yellow "signals"
        ∷ bright.bright_green "states"
        ∷ [])
    → HaveNo "\n" d.methods
    → HaveNo "\n" d.signals
    → HaveNo "\n" d.states
    → split "\n" (print bright d)
      ≡ titled (bright.bright_blue "methods")
        ∷ (map tabbed d.methods
            ++ (titled (bright.bright_yellow "signals")
                ∷ (map tabbed d.signals
                    ++ (titled (bright.bright_green "states") ∷ (map tabbed d.states ++ "" ∷ [])))))
unfolding print split
print_lem bright d (blue, (yellow, (green, u))) methods signals states =
    split-section (bright.bright_blue "methods") d.methods _ blue methods
    ∙ ap (λ lines. titled (bright.bright_blue "methods") ∷ (map tabbed d.methods ++ lines))
        (split-section (bright.bright_yellow "signals") d.signals _ yellow signals
          ∙ ap (λ lines. titled (bright.bright_yellow "signals") ∷ (map tabbed d.signals ++ lines))
              (split-section (bright.bright_green "states") d.states "" green states))
