-- ===== src/Demo/Tenth.antt =====
-- krossbar-bus-lib/examples/demo_server.rs: the state of each tenth client.
use Prim.Native.Nat.{◌%◌, ◌^◌}
use krossbar_bus.Common.{
  ℕ, suc, zero, ◌+◌, ◌≤◌, ◌<◌, String, Bool, none, some, List, [], ◌∷◌, ◌++◌, ◌≡◌, ◌≢◌, refl, sym,
  ap, ◌∙◌, subst, some_inj, ◌==◌, Result, ok, Result-cases, Bool-cases, Option-cases, arith, inl,
  inr, length, get_elem?,
}
use krossbar_bus.Endpoints.World.{Subscriber, World, update}
use krossbar_bus.Endpoints.Delivery.{values-broadcast}
use krossbar_bus.Endpoints.Signals
use krossbar_bus.Endpoints.States
use krossbar_bus.Demo.{Greeter, fetch_add, unwrap, await, set_tenth, greet, hello}

length-more : (names : List String) (name : String) → length (names ++ name ∷ []) ≡ length names + 1
length-more [] name = refl
length-more (x ∷ names) name = ground (arith, length-more names name)

at_end :
    (names : List String) (name : String)
    → get_elem? (names ++ name ∷ []) (length names) ≡ some name
at_end [] name = refl
at_end (x ∷ names) name = at_end names name

before_end :
    (names : List String) (name x : String) (k : ℕ)
    → get_elem? names k ≡ some x
    → get_elem? (names ++ name ∷ []) k ≡ some x
before_end [] name x k e = cc
before_end (y ∷ names) name x zero e = e
before_end (y ∷ names) name x (suc k) e = before_end names name x k e

module _ {U Bson : Type 0} (to_bson : ℕ × String → Result Bson String) where
  -- The clients that were greeted, in their order; others may subscribe in between.
  pub data Greeted (g0 : Greeter Bson) (w0 : World U Bson)
      : List String → Greeter Bson → World U Bson → Type 0 where
    opened : Greeted g0 w0 [] g0 w0
    greeted :
        {names : List String} {g g' : Greeter Bson} {w w' : World U Bson}
        (takes : Subscriber → Bool) (name reply : String)
        → Greeted g0 w0 names g w
        → greet to_bson takes name g w ≡ some (reply, g', w')
        → Greeted g0 w0 (names ++ name ∷ []) g' w'
    counts :
        {names : List String} {g : Greeter Bson} {w : World U Bson} (t : Subscriber)
        → Greeted g0 w0 names g w
        → Greeted g0 w0 names g (Signals.add_client (Signals.handle g.signal) t w)
    watches :
        {names : List String} {g : Greeter Bson} {w : World U Bson} (takes : Subscriber → Bool)
        (t : Subscriber)
        → Greeted g0 w0 names g w
        → Greeted g0 w0 names g (States.add_client takes (States.handle g.state) t w)

  -- What callers of the state read is written for the client at a place that ten divides, and at most nine
  -- clients came after it.
  pub record IsTenth (names : List String) (g : Greeter Bson) (w : World U Bson) : Type 0 where
    pub place : ℕ
    pub name : String
    pub there : get_elem? names place ≡ some name
    pub tenth : place % 10 ≡ 0
    pub latest : length names ≤ place + 10
    pub read : to_bson (place, name) ≡ ok (States.current (States.handle g.state) w)

  -- One step.
  record Moved (name : String) (g g' : Greeter Bson) (w w' : World U Bson) : Type 0 where
    pub counted : g'.client_counter ≡ fetch_add g.client_counter
    pub set :
        g.client_counter % 10 ≡ 0
        → to_bson (g.client_counter, name) ≡ ok (States.current (States.handle g'.state) w')
    pub kept :
        g.client_counter % 10 ≢ 0
        → States.current (States.handle g'.state) w' ≡ States.current (States.handle g.state) w

  emit-values :
      (takes : Subscriber → Bool) (s : Signals.Signal ℕ Bson) (n : ℕ) (w w2 : World U Bson)
      → unwrap (Signals.emit takes s n w) ≡ some w2
      → w2.values ≡ w.values
  unfolding Signals.emit unwrap update
  emit-values takes s n w w2 e = elim (Result-cases (s.marker n)) [
    | inl (b, m) ↦ ground (arith, values-broadcast takes b (w.clients s.signal_clients) w)
    | inr (x, m) ↦ ground arith
  ]

  set_tenth_read :
      (takes : Subscriber → Bool) (n : ℕ) (name : String) (s : States.State (ℕ × String))
      (w w2 : World U Bson)
      → await (set_tenth to_bson takes n name s).1 w ≡ some w2
      → (n % 10 ≡ 0
          → to_bson (n, name)
            ≡ ok (States.current (States.handle (set_tenth {U = U} to_bson takes n name s).0) w2))
        × (n % 10 ≢ 0
            → States.current (States.handle (set_tenth {U = U} to_bson takes n name s).0) w2
              ≡ States.current (States.handle s) w)
  unfolding set_tenth await unwrap States.set States.publish States.current States.handle update
  set_tenth_read takes n name s w w2 e = elim (Bool-cases (n % 10 == 0)) [
    | inr other ↦ ground arith
    | inl same ↦ elim (Result-cases (to_bson (n, name))) [
      | inl (b, m) ↦ ground arith
      | inr (x, m) ↦ ground arith
    ]
  ]

  greet-Moved :
      (takes : Subscriber → Bool) (name reply : String) (g g' : Greeter Bson) (w w' : World U Bson)
      → greet to_bson takes name g w ≡ some (reply, g', w')
      → Moved name g g' w w'
  unfolding greet States.current States.handle
  greet-Moved takes name reply g g' w w' e =
      let n = g.client_counter in
      let sender = (set_tenth {U = U} to_bson takes n name g.state).1 in
      elim (Option-cases (unwrap (Signals.emit takes g.signal n w))) [
        | inl failed ↦
            let panics : greet to_bson takes name g w ≡ none = rw failed refl in cc (panics, e)
        | inr (w2, emitted) ↦ elim (Option-cases (await sender w2)) [
          | inl failed ↦
              let panics : greet to_bson takes name g w ≡ none = rw (emitted, failed) refl in
              cc (panics, e)
          | inr (w3, sent) ↦
              let g3 : Greeter Bson = record g {
                state = (set_tenth {U = U} to_bson takes n name g.state).0;
                client_counter = fetch_add n;
              } in
              let done : greet to_bson takes name g w ≡ some (hello name, g3, w3) =
                rw (emitted, sent) refl in
              let r = set_tenth_read takes n name g.state w2 w3 sent in
              let moved : Moved name g g3 w w3 = record {
                counted = refl;
                set = r.0;
                kept = λ other.
                    r.1 other
                    ∙ ap (λ (values : ℕ → Bson). values g.state.current_value)
                        (emit-values takes g.signal n w w2 emitted);
              } in
              subst (λ (x : String × Greeter Bson × World U Bson). Moved name g x.1 w x.2)
                (some_inj (sym done ∙ e)) moved
        ]
      ]

  -- The counter, and the tenth client once there was a client.
  record Counted (names : List String) (g : Greeter Bson) (w : World U Bson) : Type 0 where
    pub counted : g.client_counter ≡ length names % 2 ^ 64
    pub latest : 1 ≤ length names → IsTenth names g w

  greeted-Counted :
      (names : List String) (name : String) (g g' : Greeter Bson) (w w' : World U Bson)
      → length names < 2 ^ 64
      → Counted names g w
      → Moved name g g' w w'
      → Counted (names ++ name ∷ []) g' w'
  unfolding fetch_add
  greeted-Counted names name g g' w w' few v m =
      let n = length names in
      let counter : g.client_counter ≡ n = omega (arith, v.counted, few) in
      let more = length-more names name in
      record {
        counted = omega (arith, m.counted, counter, more);
        latest = λ some_came. elim (Bool-cases (n % 10 == 0)) [
          | inl same ↦
              let divides : g.client_counter % 10 ≡ 0 = ground (arith, counter) in
              record {
                place = n;
                name = name;
                there = at_end names name;
                tenth = ground arith;
                latest = omega (arith, more);
                read = ap (λ k. to_bson (k, name)) (sym counter) ∙ m.set divides;
              }
          | inr other ↦
              let leaves : g.client_counter % 10 ≢ 0 = ground (arith, counter) in
              let came : 1 ≤ n = ground arith in
              let t = v.latest came in
              record {
                place = t.place;
                name = t.name;
                there = before_end names name t.name t.place t.there;
                tenth = t.tenth;
                latest = ground (arith, more, t.latest, t.tenth);
                read = t.read ∙ ap ok (sym (m.kept leaves));
              }
        ];
      }

  unread :
      (names : List String) (g : Greeter Bson) (w w' : World U Bson)
      → w'.values ≡ w.values
      → Counted names g w
      → Counted names g w'
  unfolding States.current
  unread names g w w' same v = record {
    counted = v.counted;
    latest = λ came.
        let t = v.latest came in
        record {
          place = t.place;
          name = t.name;
          there = t.there;
          tenth = t.tenth;
          latest = t.latest;
          read =
              t.read ∙ ap (λ values. ok (values (States.handle g.state).handle_value)) (sym same);
        };
  }

  watched :
      (takes : Subscriber → Bool) (h : States.Handle) (t : Subscriber) (w : World U Bson)
      → (States.add_client takes h t w).values ≡ w.values
  unfolding States.add_client
  watched takes h t w = elim (Bool-cases (takes t)) [ inl e ↦ rw e refl | inr e ↦ rw e refl ]

  Greeted-Counted :
      {g0 : Greeter Bson} {w0 : World U Bson} {names : List String} {g : Greeter Bson}
      {w : World U Bson}
      → g0.client_counter ≡ 0
      → Greeted g0 w0 names g w
      → length names ≤ 2 ^ 64
      → Counted names g w
  unfolding Signals.add_client States.add_client States.current States.handle
  Greeted-Counted zero_first opened few = record {
    counted = zero_first;
    latest = λ came. let nobody : ⊥ = omega arith in absurd nobody;
  }
  Greeted-Counted zero_first (greeted {names} {g} {g'} {w} {w'} takes name reply l e) few =
      let fewer : length names < 2 ^ 64 = omega (arith, length-more names name) in
      greeted-Counted names name g g' w w' fewer
        (Greeted-Counted zero_first l (omega (arith, fewer)))
        (greet-Moved takes name reply g g' w w' e)
  Greeted-Counted zero_first (counts {names} {g} {w} t l) few =
      unread names g w _ refl (Greeted-Counted zero_first l few)
  Greeted-Counted zero_first (watches {names} {g} {w} takes t l) few =
      unread names g w _ (watched takes (States.handle g.state) t w)
        (Greeted-Counted zero_first l few)

  -- From its start, with whoever subscribes to its signal and its state in between, after the server greeted
  -- some clients, at most 2 ^ 64 of them: what callers of the state `10th_client` read is written for a
  -- client whose place, counted from zero, is divided by ten, with that place, and at most nine clients were
  -- greeted after it.
  pub tenth_client_lem :
      (g0 : Greeter Bson) (w0 : World U Bson) (names : List String) (g : Greeter Bson)
      (w : World U Bson)
      → g0.client_counter ≡ 0
      → Greeted g0 w0 names g w
      → 1 ≤ length names
      → length names ≤ 2 ^ 64
      → IsTenth names g w
  tenth_client_lem g0 w0 names g w zero_first l came few =
      (Greeted-Counted zero_first l few).latest came
