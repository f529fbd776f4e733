-- ===== src/Agents/Runner.antt =====
-- src/benji_api/agents/runner.py: the model is asked, the tools that it calls are run and their
-- outputs given to it, until it answers or the rounds are used up.
pub mod Rounds
use dot_backend.Prelude.{
  ℕ, zero, suc, ◌+◌, ◌-◌, ◌≡◌, String, Bool, true, false, Option, none, some, List, [], ◌∷◌, ◌++◌,
  map, leb, str_eq, if◌then◌else◌,
}
use dot_backend.Prelude.Json.{ℤ, pos, negsuc, Json, Fields, int, text, object, end, field}
use dot_backend.Agents.Output.{
  Checked, valid, invalid, OutputError, ConversationOutput, FollowUpProposal,
  LanguagePreferenceProposal, parse_conversation_output,
}

pub record ModelToolCall : Type 0 where
  pub call_id : String
  pub name : String
  pub arguments : Fields

pub record ModelToolOutput : Type 0 where
  pub call_id : String
  pub output : String

pub record ModelTurn : Type 0 where
  pub response_id : String
  pub text : Option String
  pub tool_calls : List ModelToolCall
  pub token_usage : Option Fields

pub record ExecutedToolCall : Type 0 where
  pub call_id : String
  pub name : String
  pub arguments : Fields
  pub output : Fields
  pub succeeded : Bool

pub record AgentResult : Type 0 where
  pub messages : List String
  pub response_id : String
  pub tool_calls : List ExecutedToolCall
  pub follow_up : Option FollowUpProposal
  pub language_preference : Option LanguagePreferenceProposal
  pub reaction : Option String
  pub raw_output : Fields
  pub token_usage : Option (List (String × ℤ))

-- `AgentRunError` by its message, or the error of the parser.
pub data AgentRunError : Type 0 where
  no_answer too_many_rounds : AgentRunError
  bad_output : OutputError → AgentRunError

-- What a run uses, over a state `S` of the outside world: the session of the model's provider, the
-- tools with the context of the call, and the `json` module.
pub record Environment (S : Type 0) : Type 0 where
  pub next : List ModelToolOutput → S → ModelTurn × S
  pub execute : ModelToolCall → S → (Fields × Bool) × S
  pub dumps : Fields → String
  pub loads : String → Option Json

abbrev ◌+ℤ◌ : ℤ → ℤ → ℤ

infixl 60 ◌+ℤ◌
pos a +ℤ pos b = pos (a + b)
pos a +ℤ negsuc b = if leb (suc b) a then pos (a - suc b) else negsuc (b - a)
negsuc a +ℤ pos b = if leb (suc a) b then pos (b - suc a) else negsuc (a - b)
negsuc a +ℤ negsuc b = negsuc (suc (a + b))

-- `total[key] = total.get(key, 0) + value`
abbrev add_usage : String → ℤ → List (String × ℤ) → List (String × ℤ)
add_usage key value [] = (key, pos 0 +ℤ value) ∷ []
add_usage key value ((k, n) ∷ total) =
    let rest = add_usage key value total in
    if str_eq k key then (k, n +ℤ value) ∷ total else (k, n) ∷ rest

abbrev add_fields : Fields → List (String × ℤ) → List (String × ℤ)
add_fields end total = total
add_fields (field k (int n) fs) total = add_fields fs (add_usage k n total)
add_fields (field k _ fs) total = add_fields fs total

-- `_merge_token_usage`
abbrev merge_token_usage : List (String × ℤ) → Option Fields → List (String × ℤ)
merge_token_usage total none = total
merge_token_usage total (some usage) = add_fields usage total

abbrev usage_or_none : List (String × ℤ) → Option (List (String × ℤ))
usage_or_none [] = none
usage_or_none (u ∷ us) = some (u ∷ us)

abbrev raw_value : String → Option Json → Fields
raw_value t none = field "text" (text t) end
raw_value t (some (object fs)) = fs
raw_value t (some v) = field "value" v end

-- `_raw_output`
abbrev raw_output : (String → Option Json) → String → Fields
raw_output loads t = raw_value t (loads t)

-- A run returns a result or raises.
pub data Outcome : Type 0 where
  returns : AgentResult → Outcome
  raises : AgentRunError → Outcome

abbrev answered :
    List ExecutedToolCall
    → List (String × ℤ)
    → String
    → Fields
    → Checked ConversationOutput
    → Outcome
answered executions usage id raw (invalid e) = raises (bad_output e)
answered executions usage id raw (valid o) = returns (record {
  messages = o.messages;
  response_id = id;
  tool_calls = executions;
  follow_up = o.follow_up;
  language_preference = o.language_preference;
  reaction = o.reaction;
  raw_output = raw;
  token_usage = usage_or_none usage;
})

module _ {S : Type 0} (env : Environment S) where
  -- `if not turn.tool_calls`
  abbrev answer : List ExecutedToolCall → List (String × ℤ) → String → Option String → Outcome
  answer executions usage id none = raises no_answer
  answer executions usage id (some t) =
      answered executions usage id (raw_output env.loads t) (parse_conversation_output env.loads t)

  abbrev executed : ModelToolCall → Fields × Bool → ExecutedToolCall
  executed c (output, succeeded) = record {
    call_id = c.call_id;
    name = c.name;
    arguments = c.arguments;
    output = output;
    succeeded = succeeded;
  }

  -- The loop over the tool calls of a turn.
  unfoldable pub execute_all : List ModelToolCall → S → List ExecutedToolCall × S
  execute_all [] s = ([], s)
  execute_all (c ∷ cs) s =
      let (r, s1) = env.execute c s in
      let (rest, s2) = execute_all cs s1 in (executed c r ∷ rest, s2)

  abbrev pub output_of : ExecutedToolCall → ModelToolOutput
  output_of e = record { call_id = e.call_id; output = env.dumps e.output }

  -- Either the turn answers, or its tool calls are run and there is another round.
  abbrev after_turn :
      Outcome → (List ExecutedToolCall → S → Outcome × S) → List ModelToolCall → S → Outcome × S
  after_turn done again [] s = (done, s)
  after_turn done again (c ∷ cs) s = let (calls, s') = execute_all (c ∷ cs) s in again calls s'

  -- `for _ in range(self._max_tool_rounds + 1)`
  unfoldable pub loop :
      ℕ → List ModelToolOutput → List ExecutedToolCall → List (String × ℤ) → S → Outcome × S
  loop zero outputs executions usage s = (raises too_many_rounds, s)
  loop (suc n) outputs executions usage s =
      let (turn, s') = env.next outputs s in
      let total = merge_token_usage usage turn.token_usage in
      after_turn (answer executions total turn.response_id turn.text)
        (λ calls. loop n (map output_of calls) (executions ++ calls) total) turn.tool_calls s'

  -- `AgentRunner.run`
  unfoldable pub run : ℕ → S → Outcome × S
  unfolding loop
  run max_tool_rounds s = loop (suc max_tool_rounds) [] [] [] s
