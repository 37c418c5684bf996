-- ===== src/Tools/Lines.antt =====
-- krossbar-connect/src/main.rs: the answers to a line of input.
use krossbar_bus.Common.{
  String, ◌≡◌, ◌≢◌, refl, true, false, some, List, [], ◌∷◌, ◌⊎◌, inl, inr, Result, ok, err, arith,
  Bool-cases, text_eq, eq_iff, length, ◌==◌,
}
use krossbar_bus.Names.Print.{split-cons}
use krossbar_bus.Protocol.{Error, inspect_method}
use krossbar_bus.Endpoints.World.{InspectData}
use krossbar_bus.Tools.Commands.{
  Shown, empty_input, help, wrong_number_of_call_arguments, wrong_number_of_subscribe_arguments,
  not_json, unknown_command, Action, call, subscribe, get, show, Peer, Done, shows,
  on_call_response, call_parsed, call_command, on_stream, subscribe_command, on_inspection,
  inspect_command, first_word, run_line, complain, handle_input_line,
}

module _ (peer : Peer) where
  open peer use {Json, Stream}

  abbrev pub IsRequest : Action Json Stream → Type 0
  IsRequest (show s) = ⊥
  IsRequest a = Unit {0}

  -- One thing is shown, which is not the message on an empty input, after one request or none.
  abbrev pub IsAnswered : Done peer → Type 0
  IsAnswered done =
      (s : Shown Json Stream) × (s ≢ empty_input)
      × ((done ≡ some (false, show s ∷ []))
          ⊎ ((a : Action Json Stream) × IsRequest a × (done ≡ some (false, a ∷ show s ∷ []))))

  called_not_empty :
      (name : String) (r : Result Json Error) → on_call_response peer name r ≢ empty_input
  unfolding on_call_response
  called_not_empty name (ok r) e = cc
  called_not_empty name (err x) e = cc

  subscribed_not_empty :
      (name : String) (r : Result Stream Error) → on_stream peer name r ≢ empty_input
  unfolding on_stream
  subscribed_not_empty name (ok r) e = cc
  subscribed_not_empty name (err x) e = cc

  inspected_not_empty :
      (name : String) (r : Result InspectData Error) → on_inspection peer name r ≢ empty_input
  unfolding on_inspection
  inspected_not_empty name (ok r) e = cc
  inspected_not_empty name (err x) e = cc

  call_parsed-IsAnswered :
      (name : String) (r : Result Json String) → IsAnswered (call_parsed peer name r)
  unfolding call_parsed shows
  call_parsed-IsAnswered name (ok json) = (
    on_call_response peer name (peer.on_call name json),
    called_not_empty name _,
    inr (call name json, tt, refl),
  )
  call_parsed-IsAnswered name (err e) = (not_json e, λ x. cc, inl refl)

  call_command-IsAnswered : (words : List String) → IsAnswered (call_command peer words)
  unfolding call_command shows
  call_command-IsAnswered [] = (wrong_number_of_call_arguments, λ x. cc, inl refl)
  call_command-IsAnswered (w ∷ []) = (wrong_number_of_call_arguments, λ x. cc, inl refl)
  call_command-IsAnswered (w ∷ name ∷ []) = (wrong_number_of_call_arguments, λ x. cc, inl refl)
  call_command-IsAnswered (w ∷ name ∷ argument ∷ []) =
      call_parsed-IsAnswered name (peer.parse argument)
  call_command-IsAnswered (w ∷ name ∷ argument ∷ more ∷ words) =
      (wrong_number_of_call_arguments, λ x. cc, inl refl)

  subscribe_command-IsAnswered : (words : List String) → IsAnswered (subscribe_command peer words)
  unfolding subscribe_command shows
  subscribe_command-IsAnswered [] = (wrong_number_of_subscribe_arguments, λ x. cc, inl refl)
  subscribe_command-IsAnswered (w ∷ []) = (wrong_number_of_subscribe_arguments, λ x. cc, inl refl)
  subscribe_command-IsAnswered (w ∷ name ∷ []) = (
    on_stream peer name (peer.on_subscribe name),
    subscribed_not_empty name _,
    inr (subscribe name, tt, refl),
  )
  subscribe_command-IsAnswered (w ∷ name ∷ more ∷ words) =
      (wrong_number_of_subscribe_arguments, λ x. cc, inl refl)

  inspect_command-IsAnswered :
      (service_name : String) → IsAnswered (inspect_command peer service_name)
  unfolding inspect_command
  inspect_command-IsAnswered service_name = (
    on_inspection peer service_name peer.on_inspect,
    inspected_not_empty service_name _,
    inr (get inspect_method, tt, refl),
  )

  first_word-IsAnswered :
      (service_name word : String) (words : List String)
      → IsAnswered (first_word peer service_name words (some word))
  unfolding first_word shows
  first_word-IsAnswered service_name word words = elim (Bool-cases (text_eq word "call")) [
    | inl e ↦ rw e (call_command-IsAnswered words)
    | inr e ↦ elim (Bool-cases (text_eq word "subscribe")) [
      | inl q ↦ rw (e, q) (subscribe_command-IsAnswered words)
      | inr q ↦ elim (Bool-cases (text_eq word "inspect")) [
        | inl i ↦ rw (e, q, i) (inspect_command-IsAnswered service_name)
        | inr i ↦ rw (e, q, i) (unknown_command word, λ x. cc, inl refl)
      ]
    ]
  ]

  -- What the tool does with a line: it quits at `q`, without a word.
  abbrev pub Handles : String → Done peer → Type 0
  Handles line done = ((line ≡ "q") × (done ≡ some (true, []))) ⊎ ((line ≢ "q") × IsAnswered done)

  run_line-Handles :
      (service_name line w : String) (ws : List String)
      → Handles line (run_line peer service_name line (w ∷ ws))
  unfolding run_line shows
  run_line-Handles service_name line w ws = elim (Bool-cases (text_eq line "q")) [
    | inl e ↦ inl ((eq_iff line "q").0 e, rw ((eq_iff line "q").0 e) refl)
    | inr e ↦ inr (
      λ q. ground (arith, eq_iff line "q"),
      elim (Bool-cases (text_eq line "help")) [
        | inl h ↦ rw h (help, λ x. cc, inl refl)
        | inr h ↦ rw (h, e) (first_word-IsAnswered service_name w (w ∷ ws))
      ],
    )
  ]

  has_words : (w : String) (ws : List String) → (length (w ∷ ws) == 0) ≡ false
  has_words w ws = ground arith

  -- For every line of input, the tool does not panic. At `q` it quits and does nothing else. Any other
  -- line is answered once: after one request to the peer or none, one message, response or error is
  -- shown or one subscription is polled, and never the message on an empty input.
  pub handle_input_line_lem :
      (service_name line : String) → Handles line (handle_input_line peer service_name line)
  unfolding handle_input_line complain
  handle_input_line_lem service_name line =
      let (t, ts, e) = split-cons " " line in
      rw (e, has_words t ts) (run_line-Handles service_name line t ts)
