-- ===== src/Samples/NameRuns.antt =====
-- The patterns of krossbar-hub/tests/service_names_tests.rs, and runs of the theorems on names.
use krossbar_bus.Common.{
  String, ◌≡◌, refl, true, false, Option, some, none, List, [], ◌∷◌, Result, ok, err, split,
  contains_char,
}
use krossbar_bus.Names.{
  NameSectionPattern, any_name, any_sections, section, NamePattern, NameError, invalid_section,
  empty_section, name_contains_asterisk, from_string, matches,
}
use krossbar_bus.Names.Decide.{Answers, matches-Answers}
use krossbar_bus.Names.Spec.{Matches}
use krossbar_bus.Names.Print.{print, print-from_string, join, join-split}
use krossbar_bus.Names.Exact.{matches-from_string, matches-any_sections}
use krossbar_bus.Samples.{in_order, in_order_visits}

abbrev com_any_service : NamePattern
com_any_service = record { section_patterns = section "com" ∷ any_name ∷ section "service" ∷ [] }

com_any_service_parsed : from_string "com.*.service" ≡ ok com_any_service
unfolding from_string krossbar_bus.Names.push_sections split krossbar_bus.Names.section_from_string
    krossbar_bus.Common.contains_char
com_any_service_parsed = refl

asterisk_in_section : from_string "com.*test.service" ≡ err (invalid_section "*test")
unfolding from_string krossbar_bus.Names.push_sections split krossbar_bus.Names.section_from_string
    krossbar_bus.Common.contains_char
asterisk_in_section = refl

two_dots : from_string "com..service" ≡ err empty_section
unfolding from_string krossbar_bus.Names.push_sections split krossbar_bus.Names.section_from_string
    krossbar_bus.Common.contains_char
two_dots = refl

one_section_taken : matches in_order com_any_service "com.test.service" ≡ some (ok true)
unfolding matches krossbar_bus.Common.contains_char krossbar_bus.Names.has_empty split
    krossbar_bus.Names.walk krossbar_bus.Names.visit_all krossbar_bus.Common.insert
    krossbar_bus.Common.contains krossbar_bus.Names.visit krossbar_bus.Names.extend
one_section_taken = refl

one_section_missing : matches in_order com_any_service "com.service" ≡ some (ok false)
unfolding matches krossbar_bus.Common.contains_char krossbar_bus.Names.has_empty split
    krossbar_bus.Names.walk krossbar_bus.Names.visit_all krossbar_bus.Common.insert
    krossbar_bus.Common.contains krossbar_bus.Names.visit krossbar_bus.Names.extend
one_section_missing = refl

asterisk_in_name : matches in_order com_any_service "com.*test" ≡ some (err name_contains_asterisk)
unfolding matches krossbar_bus.Common.contains_char
asterisk_in_name = refl

matches-Answers_example :
    Answers
      (Matches com_any_service.section_patterns (split "." "com.test.service"))
      (matches in_order com_any_service "com.test.service")
unfolding contains_char krossbar_bus.Names.has_empty split
matches-Answers_example =
    matches-Answers in_order com_any_service "com.test.service" in_order_visits (refl, refl)

hub_is_matched :
    Answers
      (◌≡◌ {A = String} "com.b" "com.a")
      (matches in_order (record { section_patterns = section "com" ∷ section "a" ∷ [] }) "com.b")
unfolding contains_char krossbar_bus.Names.has_empty split from_string
    krossbar_bus.Names.push_sections krossbar_bus.Names.section_from_string
hub_is_matched =
    matches-from_string in_order "com.a" "com.b"
      (record { section_patterns = section "com" ∷ section "a" ∷ [] }) in_order_visits (refl, refl)
      (refl, refl) refl

two_asterisks_match :
    matches in_order (record { section_patterns = any_sections ∷ [] }) "com.test.service"
    ≡ some (ok true)
unfolding contains_char from_string krossbar_bus.Names.push_sections split
    krossbar_bus.Names.section_from_string krossbar_bus.Names.has_empty
two_asterisks_match =
    matches-any_sections in_order (record { section_patterns = any_sections ∷ [] })
      "com.test.service" in_order_visits refl (refl, refl)

print-from_string_example : print com_any_service ≡ "com.*.service"
print-from_string_example = print-from_string "com.*.service" com_any_service com_any_service_parsed

join-split_example : join (split "." "com..service") ≡ "com..service"
join-split_example = join-split "com..service"
