-- ===== src/Service/Peers.antt =====
-- krossbar-bus-lib/src/service.rs: the clients that the map of a service names, and those that its
-- futures look after.
use krossbar_bus.Common.{
  ℕ, zero, suc, String, ◌≡◌, refl, sym, ◌∙◌, subst, Option, none, some, List, [], ◌∷◌, some_inj,
  if◌then◌else◌, arith, text_eq, eq_iff, inl, inr, Option-cases,
}
use krossbar_bus.Common.Maps.{get, insert, remove, get-insert, get-remove}
use krossbar_bus.Client.Events.{Channel}
use krossbar_bus.Client.Handles.{Client, client_handle}
use krossbar_bus.Service.Poll.{Scheduled, take_out, Service}

-- The client of the first future that looks after a name.
unfoldable pub client_of : String → List Scheduled → Option Client
client_of n [] = none
client_of n (f ∷ fs) =
    if text_eq f.handle.service_name n then some (client_handle f.handle) else client_of n fs

-- No two futures look after one name.
abbrev pub Distinct : List Scheduled → Type 0
Distinct [] = Unit {0}
Distinct (f ∷ fs) = (client_of f.handle.service_name fs ≡ none) × Distinct fs

-- A list of futures is one of them and the others.
pub record IsSplit (fs : List Scheduled) (f : Scheduled) (rest : List Scheduled) : Type 0 where
  pub apart : client_of f.handle.service_name rest ≡ none
  pub distinct : Distinct rest
  pub clients :
      (n : String)
      → client_of n fs ≡ (
          if text_eq f.handle.service_name n
          then some (client_handle f.handle)
          else client_of n rest)

IsSplit-cons :
    (s f : Scheduled) (ss rest : List Scheduled)
    → client_of s.handle.service_name ss ≡ none
    → IsSplit ss f rest
    → IsSplit (s ∷ ss) f (s ∷ rest)
unfolding client_of
IsSplit-cons s f ss rest apart split = record {
  apart = ground (
    arith,
    eq_iff s.handle.service_name f.handle.service_name,
    eq_iff f.handle.service_name s.handle.service_name,
    split.clients s.handle.service_name,
    split.apart,
  );
  distinct = (ground (arith, split.clients s.handle.service_name), split.distinct);
  clients = λ n. ground (
    arith,
    eq_iff s.handle.service_name n,
    eq_iff f.handle.service_name n,
    eq_iff f.handle.service_name s.handle.service_name,
    split.clients n,
    split.clients s.handle.service_name,
  );
}

pub take_out-IsSplit :
    (i : ℕ) (fs : List Scheduled) (f : Scheduled) (rest : List Scheduled)
    → Distinct fs
    → take_out i fs ≡ some (f, rest)
    → IsSplit fs f rest
unfolding take_out client_of
take_out-IsSplit i [] f rest d e = cc
take_out-IsSplit zero (s ∷ ss) f rest d e =
    subst (λ x. IsSplit (s ∷ ss) x.0 x.1) (some_inj e)
      (record { apart = d.0; distinct = d.1; clients = λ n. refl })
take_out-IsSplit (suc i) (s ∷ ss) f rest d e = elim (Option-cases (take_out i ss)) [
  | inl q ↦ cc (rw (q, take_out) at e)
  | inr ((t, others), q) ↦
      subst (λ x. IsSplit (s ∷ ss) x.0 x.1) (some_inj (rw (q, take_out) at e))
        (IsSplit-cons s t ss others d.0 (take_out-IsSplit i ss t others d.1 q))
]

-- The map and the futures agree.
pub record Inv {channel : Channel} {U Bson : Type 0} (s : Service channel U Bson) : Type 0 where
  pub agree : (n : String) → get n s.client_map ≡ client_of n s.client_poll_handles
  pub one_each : Distinct s.client_poll_handles

module _ {channel : Channel} {U Bson : Type 0} (s s2 : Service channel U Bson) (v : Inv s) where
  -- A future was taken out and another one for the same client put back.
  pub Inv-put_back :
      (f g : Scheduled) (rest : List Scheduled)
      → IsSplit s.client_poll_handles f rest
      → g.handle ≡ f.handle
      → s2.client_map ≡ s.client_map
      → s2.client_poll_handles ≡ g ∷ rest
      → Inv s2
  unfolding client_of
  Inv-put_back f g rest split same map fs = record {
    agree = λ n. rw (map, fs) (v.agree n ∙ split.clients n ∙ rw same);
    one_each = rw (fs, same) (split.apart, split.distinct);
  }

  -- A future was taken out and its name removed.
  pub Inv-removed :
      (f : Scheduled) (rest : List Scheduled)
      → IsSplit s.client_poll_handles f rest
      → s2.client_map ≡ remove f.handle.service_name s.client_map
      → s2.client_poll_handles ≡ rest
      → Inv s2
  Inv-removed f rest split map fs = record {
    agree = λ n.
        rw (map, fs)
          (ground (
            arith,
            get-remove f.handle.service_name n s.client_map,
            v.agree n,
            split.clients n,
            split.apart,
            eq_iff f.handle.service_name n,
          ));
    one_each = rw fs split.distinct;
  }

  -- A client with a new name was added, and its future.
  pub Inv-added :
      (f : Scheduled)
      → get f.handle.service_name s.client_map ≡ none
      → s2.client_map ≡ insert f.handle.service_name (client_handle f.handle) s.client_map
      → s2.client_poll_handles ≡ f ∷ s.client_poll_handles
      → Inv s2
  unfolding client_of
  Inv-added f free map fs = record {
    agree = λ n.
        rw (map, fs)
          (ground (
            arith,
            get-insert f.handle.service_name n (client_handle f.handle) s.client_map,
            v.agree n,
          ));
    one_each = rw fs (sym (v.agree f.handle.service_name) ∙ free, v.one_each);
  }

  -- Nothing of the peers changed.
  pub Inv-kept :
      s2.client_map ≡ s.client_map → s2.client_poll_handles ≡ s.client_poll_handles → Inv s2
  Inv-kept map fs = record { agree = λ n. rw (map, fs) (v.agree n); one_each = rw fs v.one_each }
