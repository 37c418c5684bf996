-- ===== src/Permissions/Entries.antt =====
-- Reading `incoming_connections`: no entry is dropped, reordered or changed.
use krossbar_bus.Common.{
  String, ◌≡◌, refl, sym, ap, ◌∙◌, Bool, true, false, Option, none, some, List, [], ◌∷◌, ◌++◌, map,
  map-append, append-nil, append_assoc, Result, ok, err, >>=-eq-ok,
}
use krossbar_bus.Names.{NamePattern, NameError, from_string}
use krossbar_bus.Names.Print.{print, print-from_string, ok_inj}
use krossbar_bus.Permissions.{
  System, Permissions, read_entries, read_allowed_connections, parse_service_file_json, or_denied,
  or_not_allowed, require,
}

pub or_not_allowed-ok {ℓ} :
    {A : Type ℓ} (o : Option A) {a : A} → or_not_allowed o ≡ ok a → o ≡ some a
unfolding or_not_allowed
or_not_allowed-ok none h = cc
or_not_allowed-ok (some b) h = cc

pub require-ok : (b : Bool) {u : Unit {0}} → require b ≡ ok u → b ≡ true
unfolding require
require-ok true h = refl
require-ok false h = cc

or_denied-ok : (r : Result NamePattern NameError) {p : NamePattern} → or_denied r ≡ ok p → r ≡ ok p
unfolding or_denied
or_denied-ok (ok q) h = ap ok (ok_inj h)
or_denied-ok (err e) h = cc

module _ (sys : System) where
  open sys use {Json, has_key, index, as_str, is_array, members}

  -- The texts of the patterns, each where it stands.
  abbrev pub printed : List NamePattern → List (Option String)
  printed ps = map (λ p. some (print p)) ps

  read_entries-printed :
      (ps : List NamePattern) (entries : List Json) (qs : List NamePattern)
      → read_entries sys ps entries ≡ ok qs
      → printed qs ≡ printed ps ++ map as_str entries
  unfolding read_entries
  read_entries-printed ps [] qs h = ap printed (sym (ok_inj h)) ∙ sym (append-nil (printed ps))
  read_entries-printed ps (entry ∷ entries) qs h =
      let (text, e, h') = >>=-eq-ok (or_not_allowed (as_str entry)) _ h in
      let (p, e', h'') = >>=-eq-ok (or_denied (from_string text)) _ h' in
      let same : print p ≡ text = print-from_string text p (or_denied-ok _ e') in
      read_entries-printed (ps ++ p ∷ []) entries qs h''
      ∙ simp (map-append, append_assoc, same, or_not_allowed-ok _ e)

  -- If the connections of a service are read, then its service file was found and parsed, the entry
  -- `incoming_connections` is there and is an array, and the patterns, printed, are the members of
  -- the array: each is a text, none is missing and none has moved.
  pub read_allowed_connections-printed :
      (self : Permissions) (service_name : String) (ps : List NamePattern)
      → read_allowed_connections sys self service_name ≡ ok ps
      → (json : Json) × (parse_service_file_json sys self service_name ≡ ok json)
        × (has_key json "incoming_connections" ≡ true)
        × (is_array (index json "incoming_connections") ≡ true)
        × (printed ps ≡ map as_str (members (index json "incoming_connections")))
  unfolding read_allowed_connections
  read_allowed_connections-printed self service_name ps h =
      let (json, e, h₁) = >>=-eq-ok (parse_service_file_json sys self service_name) _ h in
      let (_, found, h₂) = >>=-eq-ok (require (has_key json "incoming_connections")) _ h₁ in
      let (_, array, h₃) =
        >>=-eq-ok (require (is_array (index json "incoming_connections"))) _ h₂ in
      (json, e, require-ok _ found, require-ok _ array, read_entries-printed [] _ ps h₃)
