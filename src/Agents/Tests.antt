-- ===== src/Agents/Tests.antt =====
-- A model that calls a tool in its first turn and answers in the second one.
use dot_backend.Prelude.{ℕ, zero, suc, true, none, some, [], ◌∷◌}
use dot_backend.Prelude.Json.{end, array, object, field, text, nil, cons}
use dot_backend.Agents.Runner.{ModelToolCall, ModelTurn, Environment, run}
use dot_backend.Agents.Runner.Rounds.{IsSendable, run-IsSendable}

abbrev look_up : ModelToolCall
look_up = record { call_id = "call_1"; name = "get_calendar"; arguments = end }

abbrev turn : ℕ → ModelTurn
turn zero = record {
  response_id = "resp_1";
  text = none;
  tool_calls = look_up ∷ [];
  token_usage = none;
}
turn (suc n) = record {
  response_id = "resp_2";
  text = some "you are free at noon";
  tool_calls = [];
  token_usage = none;
}

-- The state is the number of the turn.
abbrev environment : Environment ℕ
environment = record {
  next = λ outputs n. (turn n, suc n);
  execute = λ call n. ((field "result" (text "free at noon") end, true), n);
  dumps = λ output. "result";
  loads = λ answer. some (object (field "messages" (array (cons (text answer) nil)) end));
}

run-IsSendable_example : IsSendable environment (run environment 5 0).0
run-IsSendable_example = run-IsSendable environment 5 0
