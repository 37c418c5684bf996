-- ===== src/Permissions/Connections.antt =====
-- Who may connect: `check_connection_allowed` against a description of what it allows.
use krossbar_bus.Common.{
  String, ◌≡◌, refl, sym, subst, ◌⊎◌, inl, inr, ◌↔◌, Bool, true, false, Option, none, some, List,
  [], ◌∷◌, Bool-cases, Result, ok, err, contains_char, split,
}
use krossbar_bus.Protocol.{Error}
use krossbar_bus.Names.{
  NamePattern, NameError, matches, has_empty, name_contains_asterisk, empty_section,
}
use krossbar_bus.Names.Spec.{Matches}
use krossbar_bus.Names.Decide.{Visits, IsWellFormed, Answers, matches-Answers}
use krossbar_bus.Names.Print.{ok_inj}
use krossbar_bus.Permissions.{
  System, Permissions, on_match, match_patterns, match_allowed, check_connection_allowed,
  read_allowed_connections, is_previleged_service,
}

-- Some pattern of the list matches the sections of a name.
abbrev pub AnyMatches : List NamePattern → List String → Type 0
AnyMatches [] ns = ⊥
AnyMatches (p ∷ ps) ns = Matches p.section_patterns ns ⊎ AnyMatches ps ns

IsWellFormed-cases :
    (name : String)
    → IsWellFormed name ⊎ ((contains_char "*" name ≡ true) ⊎ (has_empty (split "." name) ≡ true))
IsWellFormed-cases name = elim (Bool-cases (contains_char "*" name)) [
  | inl e ↦ inr (inl e)
  | inr e ↦ elim (Bool-cases (has_empty (split "." name))) [
    | inl e' ↦ inr (inr e')
    | inr e' ↦ inl (e, e')
  ]
]

-- A loop that answers `Q` without a panic.
abbrev pub Decides : Type 0 → Option Bool → Type 0
Decides Q result = (b : Bool) × (result ≡ some b) × ((b ≡ true) ↔ Q)

on_match-Decides :
    {G H : Type 0} (r : Option (Result Bool NameError)) (rest : Option Bool)
    → Answers G r
    → Decides H rest
    → Decides (G ⊎ H) (on_match r rest)
unfolding on_match
on_match-Decides none rest a d = absurd a
on_match-Decides (some (err x)) rest a d = absurd a
on_match-Decides (some (ok true)) rest a d = (true, refl, (λ _. inl a, λ _. refl))
on_match-Decides (some (ok false)) rest a (b, e, iff) =
    (b, e, (λ h. inr (iff.0 h), λ s. elim s [ inl g ↦ absurd (a g) | inr h ↦ iff.1 h ]))

module _ (sys : System) (visits : Visits sys.order) where
  open sys use {order}

  match_patterns-Decides :
      (client : String) (ps : List NamePattern)
      → IsWellFormed client
      → Decides (AnyMatches ps (split "." client)) (match_patterns sys client ps)
  unfolding match_patterns
  match_patterns-Decides client [] well = (false, refl, (λ e. cc, λ h. absurd h))
  match_patterns-Decides client (p ∷ ps) well =
      on_match-Decides (matches order p client) _ (matches-Answers order p client visits well)
        (match_patterns-Decides client ps well)

  -- A name with an asterisk or an empty section ends the loop at the first pattern.
  matches-malformed :
      (client : String) (p : NamePattern)
      → (contains_char "*" client ≡ true) ⊎ (has_empty (split "." client) ≡ true)
      → (e : NameError) × (matches order p client ≡ some (err e))
  unfolding matches
  matches-malformed client p (inl e) = (name_contains_asterisk, rw e)
  matches-malformed client p (inr e) = elim (Bool-cases (contains_char "*" client)) [
    | inl a ↦ (name_contains_asterisk, rw a)
    | inr a ↦ (empty_section, rw (a, e))
  ]

  match_patterns-malformed :
      (client : String) (ps : List NamePattern)
      → (contains_char "*" client ≡ true) ⊎ (has_empty (split "." client) ≡ true)
      → match_patterns sys client ps ≡ some false
  unfolding match_patterns
  match_patterns-malformed client [] h = refl
  match_patterns-malformed client (p ∷ ps) h =
      let (e, failed) = matches-malformed client p h in rw failed

  -- What the service files say: the client is a privileged tool, or a well-formed name that one of
  -- the patterns of the target's service file matches.
  abbrev pub Permits : Permissions → String → String → Type 0
  Permits self client target =
      (is_previleged_service sys client ≡ true)
      ⊎ (IsWellFormed client
          × (ps : List NamePattern) × (read_allowed_connections sys self target ≡ ok ps)
          × AnyMatches ps (split "." client))

  match_allowed-Decides :
      (client : String) (r : Result (List NamePattern) Error)
      → Decides
          (IsWellFormed client
            × (ps : List NamePattern) × (r ≡ ok ps)
            × AnyMatches ps (split "." client))
          (match_allowed sys client r)
  unfolding match_allowed
  match_allowed-Decides client (err e) = (false, refl, (λ h. cc, λ (w, ps, h, m). cc))
  match_allowed-Decides client (ok ps) = elim (IsWellFormed-cases client) [
    | inl well ↦
        let (b, e, iff) = match_patterns-Decides client ps well in
        (
          b,
          e,
          (
            λ h. (well, ps, refl, iff.0 h),
            λ (w, qs, h, m).
                iff.1 (subst (λ x. AnyMatches x (split "." client)) (sym (ok_inj h)) m),
          ),
        )
    | inr bad ↦
        (false, match_patterns-malformed client ps bad, (λ h. cc, λ (w, qs, h, m). not_both w bad))
  ]
    where
      not_both :
          IsWellFormed client
          → (contains_char "*" client ≡ true) ⊎ (has_empty (split "." client) ≡ true)
          → false ≡ true
      not_both w (inl e) = cc (w.0)
      not_both w (inr e) = cc (w.1)

  -- If iterating over a set visits its members and nothing else, then `check_connection_allowed`
  -- does not panic, and returns true exactly for a privileged client, or for a client with a well-
  -- formed name that some pattern in the target's service file matches.
  pub check_connection_allowed-Permits :
      (self : Permissions) (client target : String)
      → Decides (Permits self client target) (check_connection_allowed sys self client target)
  unfolding check_connection_allowed
  check_connection_allowed-Permits self client target =
      elim (Bool-cases (is_previleged_service sys client)) [
        | inl yes' ↦ rw yes' (true, refl, (λ _. inl refl, λ _. refl))
        | inr no' ↦
            let (b, e, iff) =
              match_allowed-Decides client (read_allowed_connections sys self target) in
            rw no' (b, e, (λ h. inr (iff.0 h), λ s. elim s [ inl p ↦ cc p | inr p ↦ iff.1 p ]))
      ]
