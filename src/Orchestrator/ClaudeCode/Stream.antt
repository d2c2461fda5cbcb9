-- ===== src/Orchestrator/ClaudeCode/Stream.antt =====
-- What the parser records of the event stream.
use josu.Common.{
  Bool, true, false, not, ◌&&◌, ◌||◌, String, Option, none, some, List, [], ◌∷◌, ◌++◌, ◌≡◌, refl,
  sym, ◌∙◌, ap, arith, append_assoc, append-nil, eq_string, eq_iff, if◌then◌else◌, inl, inr,
  Bool-cases, subst,
}
use josu.Delegate.Errors.{Result, ok, raise, bind, bind-ok}
use josu.Delegate.Json.{Json, null, bool, number, str, array, object, Fields, get, Decoded}
use josu.Orchestrator.ClaudeCode.{
  ParsedRun, is_str, input_of, text_at, record_block, record_blocks, content_of, record_event,
  record_events, init_servers, events_of, parse_stream_json, nothing_parsed,
}

abbrev listed : Option String → List String
listed none = []
listed (some s) = s ∷ []

-- The text of a tool call's input, if the block is a call of the tool and its input is an object.
abbrev input_text : Fields → String → Option String
input_text block key = elim (input_of block) [ none ↦ none | some fs ↦ text_at key fs ]

-- The command of a block, if it is a call of the Bash tool.
abbrev pub command_of : Json → List String
command_of (object block) =
    if is_str "tool_use" (get "type" block) && is_str "Bash" (get "name" block)
    then listed (input_text block "command")
    else []
command_of _ = []

-- The path of a block, if it is a call of the Read or the Edit tool.
abbrev pub path_of : Json → List String
path_of (object block) =
    if is_str "tool_use" (get "type" block)
      && (not (is_str "Bash" (get "name" block))
          && (is_str "Read" (get "name" block) || is_str "Edit" (get "name" block)))
    then listed (input_text block "file_path")
    else []
path_of _ = []

unfoldable pub concat_map {ℓ} : {A : Type ℓ} → (A → List String) → List A → List String
concat_map f [] = []
concat_map f (x ∷ xs) = f x ++ concat_map f xs

record_block-object :
    (block : Fields) (p : ParsedRun)
    → ((record_block (object block) p).bash_commands ≡ p.bash_commands ++ command_of (object block))
      × ((record_block (object block) p).read_edit_paths
          ≡ p.read_edit_paths ++ path_of (object block))
unfolding record_block
record_block-object block p =
    ground (arith, append-nil p.bash_commands, append-nil p.read_edit_paths)

-- What a step adds to the two lists.
abbrev Adds : ParsedRun → ParsedRun → List String → List String → Type 0
Adds p q commands paths =
    (q.bash_commands ≡ p.bash_commands ++ commands)
    × (q.read_edit_paths ≡ p.read_edit_paths ++ paths)

Adds-nothing : (p : ParsedRun) → Adds p p [] []
Adds-nothing p = (sym (append-nil p.bash_commands), sym (append-nil p.read_edit_paths))

Adds-then :
    (p q r : ParsedRun) (cs ds ps qs : List String)
    → Adds p q cs ps
    → Adds q r ds qs
    → Adds p r (cs ++ ds) (ps ++ qs)
Adds-then p q r cs ds ps qs (c, k) (d, l) = (
  d ∙ ap (λ xs. xs ++ ds) c ∙ append_assoc p.bash_commands cs ds,
  l ∙ ap (λ xs. xs ++ qs) k ∙ append_assoc p.read_edit_paths ps qs,
)

record_block-Adds :
    (block : Json) (p : ParsedRun)
    → Adds p (record_block block p) (command_of block) (path_of block)
unfolding record_block
record_block-Adds (object block) p = record_block-object block p
record_block-Adds null p = Adds-nothing p
record_block-Adds (bool b) p = Adds-nothing p
record_block-Adds (number n) p = Adds-nothing p
record_block-Adds (str s) p = Adds-nothing p
record_block-Adds (array xs) p = Adds-nothing p

record_blocks-Adds :
    (blocks : List Json) (p : ParsedRun)
    → Adds p (record_blocks blocks p) (concat_map command_of blocks) (concat_map path_of blocks)
unfolding record_blocks concat_map
record_blocks-Adds [] p = Adds-nothing p
record_blocks-Adds (block ∷ blocks) p =
    Adds-then p (record_block block p) (record_blocks blocks (record_block block p))
      (command_of block) (concat_map command_of blocks) (path_of block) (concat_map path_of blocks)
      (record_block-Adds block p) (record_blocks-Adds blocks (record_block block p))

-- The blocks of an event: those of an assistant's message.
abbrev blocks_in : Result (List Json) → List Json
blocks_in (raise e) = []
blocks_in (ok blocks) = blocks

abbrev pub blocks_of : Fields → List Json
blocks_of event = if is_str "assistant" (get "type" event) then blocks_in (content_of event) else []

not_both : (v : Option Json) → is_str "system" v ≡ true → is_str "assistant" v ≡ false
not_both none h = refl
not_both (some null) h = refl
not_both (some (bool b)) h = refl
not_both (some (number n)) h = refl
not_both (some (array xs)) h = refl
not_both (some (object fs)) h = refl
not_both (some (str s)) h =
    subst (λ t. is_str "assistant" (some (str t)) ≡ false) (sym ((eq_iff s "system").0 h)) refl

module _ (is_zero : String → Bool) where
  assistant_step :
      (event : Fields) (p q : ParsedRun)
      → is_str "assistant" (get "type" event) ≡ true
      → record_event is_zero event p ≡ ok q
      → bind (content_of event) (λ bs. ok (record_blocks bs p)) ≡ ok q
  unfolding record_event
  assistant_step event p q assistant h = elim (Bool-cases (is_str "system" (get "type" event))) [
    | inl system ↦ let clash = not_both (get "type" event) system in cc
    | inr differs ↦ ground arith
  ]

  -- An event of another type leaves the two lists as they are.
  abbrev Same : ParsedRun → ParsedRun → Type 0
  Same p q = (q.bash_commands ≡ p.bash_commands) × (q.read_edit_paths ≡ p.read_edit_paths)

  ok-Same : (p r q : ParsedRun) → Same p r → ok r ≡ ok q → Same p q
  ok-Same p r q h e = let same : r ≡ q = cc in subst (Same p) same h

  other_step :
      (event : Fields) (p q : ParsedRun)
      → is_str "assistant" (get "type" event) ≡ false
      → record_event is_zero event p ≡ ok q
      → Same p q
  unfolding record_event
  other_step event p q another h =
      elim (Bool-cases
        (is_str "system" (get "type" event) && is_str "init" (get "subtype" event))) [
          | inl init ↦
              let (names, (found, made)) =
                bind-ok (init_servers is_zero event p.mcp_servers_connected)
                  (λ ns. ok (record p { mcp_servers_connected = ns })) q (ground arith) in
              ok-Same p (record p { mcp_servers_connected = names }) q (refl, refl) made
          | inr plain ↦ elim (Bool-cases (is_str "result" (get "type" event))) [
            | inl last ↦ ok-Same p (record p { result_event = event }) q (refl, refl) (ground arith)
            | inr none_of_them ↦ ok-Same p p q (refl, refl) (ground arith)
          ]
        ]

  record_event-Adds :
      (event : Fields) (p q : ParsedRun)
      → record_event is_zero event p ≡ ok q
      → Adds p q (concat_map command_of (blocks_of event)) (concat_map path_of (blocks_of event))
  unfolding record_event concat_map
  record_event-Adds event p q h = elim (Bool-cases (is_str "assistant" (get "type" event))) [
    | inl assistant ↦
        let (blocks, (content, made)) =
          bind-ok (content_of event) (λ bs. ok (record_blocks bs p)) q
            (assistant_step event p q assistant h) in
        let same : record_blocks blocks p ≡ q = cc in
        rw (assistant, content)
          (subst (λ r. Adds p r (concat_map command_of blocks) (concat_map path_of blocks)) same
            (record_blocks-Adds blocks p))
    | inr another ↦
        let (commands, paths) = other_step event p q another h in
        rw another
          (commands ∙ sym (append-nil p.bash_commands), paths ∙ sym (append-nil p.read_edit_paths))
  ]

  record_events-Adds :
      (events : List Fields) (p q : ParsedRun)
      → record_events is_zero events p ≡ ok q
      → Adds p q
          (concat_map (λ e. concat_map command_of (blocks_of e)) events)
          (concat_map (λ e. concat_map path_of (blocks_of e)) events)
  unfolding record_events concat_map
  record_events-Adds [] p q h =
      let same : p ≡ q = cc in subst (λ r. Adds p r [] []) same (Adds-nothing p)
  record_events-Adds (event ∷ events) p q h =
      let (r, (step, later)) =
        bind-ok (record_event is_zero event p) (record_events is_zero events) q h in
      Adds-then p r q (concat_map command_of (blocks_of event))
        (concat_map (λ e. concat_map command_of (blocks_of e)) events)
        (concat_map path_of (blocks_of event))
        (concat_map (λ e. concat_map path_of (blocks_of e)) events)
        (record_event-Adds event p r step) (record_events-Adds events r q later)

-- Where the stream can be parsed, the commands and paths that are recorded are just those of the Bash
-- calls, and of the Read and Edit calls, of all assistant events, in their order.
pub parse_stream_json-Adds :
    (loads : String → Decoded) (is_zero : String → Bool) (lines : List String) (q : ParsedRun)
    → parse_stream_json loads is_zero lines ≡ ok q
    → (events : List Fields) × ((events_of loads lines ≡ ok events)
        × ((q.bash_commands ≡ concat_map (λ e. concat_map command_of (blocks_of e)) events)
            × (q.read_edit_paths ≡ concat_map (λ e. concat_map path_of (blocks_of e)) events)))
unfolding parse_stream_json
parse_stream_json-Adds loads is_zero lines q h =
    let (events, (read, recorded)) =
      bind-ok (events_of loads lines) (λ es. record_events is_zero es nothing_parsed) q h in
    (events, (read, record_events-Adds is_zero events nothing_parsed q recorded))
