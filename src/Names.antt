-- ===== src/Names.antt =====
-- krossbar-hub/src/service_names.rs: service name patterns and their matching.
pub mod Spec
pub mod Walk
pub mod Moves
pub mod Decide
pub mod Print
pub mod Exact
use krossbar_bus.Common.{
  ℕ, ◌+◌, String, Bool, true, false, Option, none, some, List, [], ◌∷◌, ◌++◌, ◌==◌, if◌then◌else◌,
  length, get_elem?, contains, insert, Result, ok, err, ◌>>=◌, and_then, text_eq, contains_char,
  split,
}

pub data NameError : Type 0 where
  invalid_section : String → NameError
  name_contains_asterisk empty_section : NameError

pub data NameSectionPattern : Type 0 where
  any_name any_sections : NameSectionPattern
  section : String → NameSectionPattern

-- `NameSectionPattern::from_string`
unfoldable pub section_from_string : String → Result NameSectionPattern NameError
section_from_string string =
    if text_eq string ""
    then err empty_section
    else if contains_char "*" string
    then (if text_eq string "*"
        then ok any_name
        else if text_eq string "**"
        then ok any_sections
        else err (invalid_section string))
    else ok (section string)

pub record NamePattern : Type 0 where
  pub section_patterns : List NameSectionPattern

-- The loop of `NamePattern::from_string`, with the patterns pushed so far.
unfoldable pub push_sections :
    List NameSectionPattern → List String → Result (List NameSectionPattern) NameError
push_sections patterns [] = ok patterns
push_sections patterns (string ∷ strings) = do
  pattern' ← section_from_string string
  push_sections (patterns ++ pattern' ∷ []) strings

-- `NamePattern::from_string`
unfoldable pub from_string : String → Result NamePattern NameError
from_string string = do
  patterns ← push_sections [] (split "." string)
  ok (record { section_patterns = patterns })

-- The `match` on `self.section_patterns[index]`; `none` is the panic of an index out of bounds.
unfoldable pub extend : Option NameSectionPattern → String → ℕ → List ℕ → Option (List ℕ)
extend none name_section index next = none
extend (some any_name) name_section index next = some (insert (index + 1) next)
extend (some any_sections) name_section index next = some (insert (index + 1) (insert index next))
extend (some (section pattern_section)) name_section index next =
    some (if text_eq pattern_section name_section then insert (index + 1) next else next)

-- The body of the inner loop, for one leaf.
unfoldable pub visit : List NameSectionPattern → String → ℕ → List ℕ → Option (List ℕ)
visit patterns name_section index next =
    if index == length patterns
    then some next
    else extend (get_elem? patterns index) name_section index next

-- The inner loop over the leaves of one round.
unfoldable pub visit_all : List NameSectionPattern → String → List ℕ → List ℕ → Option (List ℕ)
visit_all patterns name_section [] next = some next
visit_all patterns name_section (index ∷ leaves) next =
    and_then (visit patterns name_section index next) (visit_all patterns name_section leaves)

-- A `HashSet` is iterated in an order of its own, which differs from one set to the next: `order k`
-- is the order of the set with `k` sections of the name left to match.
abbrev pub Order : Type 0
Order = ℕ → List ℕ → List ℕ

-- The outer loop over the sections of the name.
unfoldable pub walk : Order → List NameSectionPattern → List String → List ℕ → Option (List ℕ)
walk order patterns [] leaves = some leaves
walk order patterns (name_section ∷ name_sections) leaves =
    and_then (visit_all patterns name_section (order (length name_sections) leaves) [])
      (walk order patterns name_sections)

-- `name_sections.contains(&"")`
unfoldable pub has_empty : List String → Bool
has_empty [] = false
has_empty (s ∷ ss) = if text_eq s "" then true else has_empty ss

-- `NamePattern::matches`; `none` is a panic.
unfoldable pub matches : Order → NamePattern → String → Option (Result Bool NameError)
matches order self service_name =
    if contains_char "*" service_name
    then some (err name_contains_asterisk)
    else let name_sections = split "." service_name in
      if has_empty name_sections
      then some (err empty_section)
      else and_then (walk order self.section_patterns name_sections (insert 0 []))
          (λ leaves. some (ok (contains (length self.section_patterns) leaves)))
