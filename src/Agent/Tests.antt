-- ===== src/Agent/Tests.antt =====
-- A prompt that has room for the latest of two turns.
use yurt_playground.Base.{
  ℕ, ◌+◌, ◌≤◌, ◌≡◌, refl, false, List, [], ◌∷◌, Text, chars, arith, length, decimal, All, Option,
  some, none, ok, err, ltb, ◌==◌, if◌then◌else◌,
}
use yurt_playground.Agent.Loop.{Action, exec_action, answer_action, Round, Limits, run_agent}
use yurt_playground.Agent.Loop.Ends.{Ends, run_agent-Ends}
use yurt_playground.Agent.{
  Turn, build_prompt, rendered, render, note, clip, fit, latest_first, prompt_of, join_rest,
  task_head,
}
use yurt_playground.Agent.Prompt.{length-build_prompt, IsShort}

abbrev turns : List Turn
turns =
    record { reply = chars "a"; result = chars "exit 0" }
    ∷ record { reply = chars "b"; result = chars "exit 1" }
    ∷ []

latest_test :
    build_prompt (chars "t") turns 90
    ≡ chars
        "Task: t\n\n(Steps 1-1 are omitted to fit the context.)\n\nStep 2: you replied b\nResult:\nexit 1"
unfolding build_prompt rendered render note clip fit latest_first prompt_of join_rest decimal
latest_test = refl

turns-IsShort : All IsShort (rendered 1 turns)
unfolding rendered render decimal
turns-IsShort = (omega arith, (omega arith, tt))

room_test : length (task_head (chars "t")) + (length (note 2) + 2) ≤ 99
unfolding note decimal
room_test = omega arith

length-build_prompt_example : length (build_prompt (chars "t") turns 99) ≤ 99
length-build_prompt_example = length-build_prompt (chars "t") turns 99 turns-IsShort room_test

-- A model that runs `ls`, then replies with no action, then answers.
abbrev one_round : Text → Round
one_round reply = record {
  aborted_before = false;
  reply = ok reply;
  aborted_after_reply = false;
  exec = λ cmd. ok (record { code = some 0; stdout = cmd; stderr = [] });
  read_file = λ path. err (chars "no file");
  aborted_after_tool = false;
  cancel_aborted = false;
}

abbrev three_rounds : ℕ → Round
three_rounds step =
    one_round (if ltb step 2 then chars "x" else if ltb step 3 then [] else chars "a")

abbrev one_action : Text → Option Action
one_action [] = none
one_action (c ∷ s) =
    some (if c == 120 then exec_action (chars "ls") else answer_action (chars "done"))

abbrev default_limits : Limits
default_limits = record {
  max_steps = 8;
  max_invalid = 2;
  max_task = 2000;
  max_prompt = 9000;
  max_observation = 1500;
}

run_agent-Ends_example :
    Ends 1 8 (run_agent one_action (λ s. s) (λ a. []) default_limits three_rounds (chars "list"))
run_agent-Ends_example =
    run_agent-Ends one_action (λ s. s) (λ a. []) default_limits three_rounds (chars "list")
