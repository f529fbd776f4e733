-- ===== src/Agents/Runner/Rounds.antt =====
-- How often a run of src/benji_api/agents/runner.py asks the model, and what it tells it.
use dot_backend.Prelude.{
  ℕ, zero, suc, ◌+◌, ◌≤◌, ◌≡◌, refl, ap, String, Option, none, some, List, [], ◌∷◌, ◌++◌, map, All,
  arith,
}
use dot_backend.Prelude.Json.{ℤ, Fields}
use dot_backend.Agents.Output.{
  Checked, valid, invalid, ConversationOutput, parse_conversation_output,
}
use dot_backend.Agents.Output.Bubbles.{IsShort, IsReadable, parse_conversation_output-sendable}
use dot_backend.Agents.Runner.{
  ModelToolCall, ModelToolOutput, ExecutedToolCall, Environment, Outcome, returns, raises, answered,
  answer, output_of, merge_token_usage, after_turn, execute_all, loop, run,
}

module _ {S : Type 0} (env : Environment S) where
  -- The same environment, which also counts how often the model is asked.
  abbrev pub counted : Environment (S × ℕ)
  counted = record {
    next = λ outputs s. let (turn, s') = env.next outputs s.0 in (turn, (s', suc s.1));
    execute = λ c s. let (r, s') = env.execute c s.0 in (r, (s', s.1));
    dumps = env.dumps;
    loads = env.loads;
  }

  execute_all-counted : (cs : List ModelToolCall) (s : S × ℕ) → (execute_all counted cs s).1.1 ≡ s.1
  unfolding execute_all
  execute_all-counted [] s = refl
  execute_all-counted (c ∷ cs) s = execute_all-counted cs ((env.execute c s.0).1, s.1)

  after_turn-counted :
      (done : Outcome) (again : List ExecutedToolCall → S × ℕ → Outcome × (S × ℕ))
      (cs : List ModelToolCall) (s : S × ℕ) (limit : ℕ)
      → s.1 ≤ limit
      → ((calls : List ExecutedToolCall) (s' : S × ℕ) → s'.1 ≡ s.1 → (again calls s').1.1 ≤ limit)
      → (after_turn counted done again cs s).1.1 ≤ limit
  after_turn-counted done again [] s limit h k = h
  after_turn-counted done again (c ∷ cs) s limit h k =
      k (execute_all counted (c ∷ cs) s).0 (execute_all counted (c ∷ cs) s).1
        (execute_all-counted (c ∷ cs) s)

  loop-counted :
      (n : ℕ) (outputs : List ModelToolOutput) (executions : List ExecutedToolCall)
      (usage : List (String × ℤ)) (s : S × ℕ)
      → (loop counted n outputs executions usage s).1.1 ≤ s.1 + n
  unfolding loop
  loop-counted zero outputs executions usage s = omega arith
  loop-counted (suc n) outputs executions usage s =
      let turn = (env.next outputs s.0).0 in
      let total = merge_token_usage usage turn.token_usage in
      after_turn-counted (answer counted executions total turn.response_id turn.text)
        (λ calls. loop counted n (map (output_of counted) calls) (executions ++ calls) total)
        turn.tool_calls ((env.next outputs s.0).1, suc s.1) (s.1 + suc n) (omega arith)
        λ calls s' e.
          let rest =
            loop-counted n (map (output_of counted) calls) (executions ++ calls) total s' in
          omega arith

  -- A run asks the model at most once more than the rounds of tool calls that it may take, whatever
  -- the model and the tools do: the run ends.
  pub run-rounds :
      (max_tool_rounds : ℕ) (s : S) → (run counted max_tool_rounds (s, 0)).1.1 ≤ suc max_tool_rounds
  unfolding run
  run-rounds max_tool_rounds s =
      let h = loop-counted (suc max_tool_rounds) [] [] [] (s, 0) in omega arith

  -- What the model is told after a turn answers each of its tool calls once and in order.
  pub execute_all-answers :
      (cs : List ModelToolCall) (s : S)
      → map (λ (o : ModelToolOutput). o.call_id) (map (output_of env) (execute_all env cs s).0)
        ≡ map (λ (c : ModelToolCall). c.call_id) cs
  unfolding execute_all
  execute_all-answers [] s = refl
  execute_all-answers (c ∷ cs) s =
      ap (λ rest. c.call_id ∷ rest) (execute_all-answers cs (env.execute c s).1)

  -- The messages of a result can be read and are stripped, and the goal of its follow-up is short.
  abbrev pub IsSendable : Outcome → Type 0
  IsSendable (returns r) = All IsReadable r.messages × IsShort r.follow_up
  IsSendable (raises e) = Unit

  answered-IsSendable :
      (executions : List ExecutedToolCall) (usage : List (String × ℤ)) (id : String) (raw : Fields)
      (c : Checked ConversationOutput)
      → ((o : ConversationOutput) → c ≡ valid o → All IsReadable o.messages × IsShort o.follow_up)
      → IsSendable (answered executions usage id raw c)
  answered-IsSendable executions usage id raw (invalid e) h = tt
  answered-IsSendable executions usage id raw (valid o) h = h o refl

  answer-IsSendable :
      (executions : List ExecutedToolCall) (usage : List (String × ℤ)) (id : String)
      (t : Option String)
      → IsSendable (answer env executions usage id t)
  answer-IsSendable executions usage id none = tt
  answer-IsSendable executions usage id (some t) =
      answered-IsSendable executions usage id _ (parse_conversation_output env.loads t)
        (parse_conversation_output-sendable env.loads t)

  after_turn-IsSendable :
      (done : Outcome) (again : List ExecutedToolCall → S → Outcome × S) (cs : List ModelToolCall)
      (s : S)
      → IsSendable done
      → ((calls : List ExecutedToolCall) (s' : S) → IsSendable (again calls s').0)
      → IsSendable (after_turn env done again cs s).0
  after_turn-IsSendable done again [] s h k = h
  after_turn-IsSendable done again (c ∷ cs) s h k =
      k (execute_all env (c ∷ cs) s).0 (execute_all env (c ∷ cs) s).1

  loop-IsSendable :
      (n : ℕ) (outputs : List ModelToolOutput) (executions : List ExecutedToolCall)
      (usage : List (String × ℤ)) (s : S)
      → IsSendable (loop env n outputs executions usage s).0
  unfolding loop
  loop-IsSendable zero outputs executions usage s = tt
  loop-IsSendable (suc n) outputs executions usage s =
      let turn = (env.next outputs s).0 in
      let total = merge_token_usage usage turn.token_usage in
      after_turn-IsSendable (answer env executions total turn.response_id turn.text)
        (λ calls. loop env n (map (output_of env) calls) (executions ++ calls) total)
        turn.tool_calls (env.next outputs s).1
        (answer-IsSendable executions total turn.response_id turn.text)
        λ calls s'. loop-IsSendable n (map (output_of env) calls) (executions ++ calls) total s'

  -- Each message of a result that a run returns has a code point that is not white space, and none
  -- at its ends that is, and a follow-up that it proposes has a goal of at most 500 code points.
  pub run-IsSendable : (max_tool_rounds : ℕ) (s : S) → IsSendable (run env max_tool_rounds s).0
  unfolding run
  run-IsSendable max_tool_rounds s = loop-IsSendable (suc max_tool_rounds) [] [] [] s
