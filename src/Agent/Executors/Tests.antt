-- ===== src/Agent/Executors/Tests.antt =====
-- A command whose two streams interleave, and the choice of an executor, for
-- src/gptlink/agent/executors.
use gptlink.Agent.Executors.Output.{Event, answered, ending, exits, received, run, started, step}
use gptlink.Agent.Executors.Ordered.{AreNumbered, is_refusal, pieces, run_lem, texts}
use gptlink.Agent.Executors.{Processes, Shell, cmd_argv, run_selected}
use gptlink.Common.Types.{Capability_eq, StreamKind, cmd, stderr, stdout, wsl}
use gptlink.Common.Action.{err, ok, pure, raise, ◌>>=◌}
use gptlink.Common.Errors.{os_error, value_error}
use gptlink.Prelude.{
  Chars_eq, List, String, String_eq, [], any, codes, false, if◌then◌else◌, map, pos, refl, some,
  true, ℕ, ℕ_eq, ◌==◌, ◌∷◌, ◌≡◌,
}

-- a byte is shown as a letter
abbrev shown : List ℕ → String
shown [] = ""
shown (n ∷ ns) = if n == 1 then "a" else "b"

-- both streams are read before the first callback answers, and the last chunk is refused
abbrev interleaved : List Event
interleaved =
    received stdout (1 ∷ []) 5
    ∷ received stderr (2 ∷ []) 6
    ∷ answered stderr true
    ∷ answered stdout true
    ∷ received stderr [] 7
    ∷ received stdout (2 ∷ 2 ∷ []) 8
    ∷ answered stdout false
    ∷ exits (pos 0)
    ∷ received stdout [] 9
    ∷ []

ends_truncated : ending (run shown (λ t. 1) interleaved started) ≡ some (some (pos 0), true)
unfolding ending run step
ends_truncated = refl

run_lem_example :
    let r = run shown (λ t. 1) interleaved started in
    AreNumbered 0 r.delivered
    × ((k : StreamKind) → texts k r.delivered ≡ map shown (pieces k interleaved))
    × (r.truncated ≡ any is_refusal interleaved)
run_lem_example = run_lem shown (λ t. 1) interleaved

out_texts : texts stdout (run shown (λ t. 1) interleaved started).delivered ≡ "a" ∷ "b" ∷ []
unfolding run step
out_texts = refl

-- a log of what the operating system did
abbrev logged : Processes (List String)
logged = record {
  spawn = λ argv cwd s. (ok 7, "spawn" ∷ s);
  kill = λ p s. "kill" ∷ s;
  wait = λ p s. "wait" ∷ s;
  on_process = λ p s. "started" ∷ s;
  gather = λ p s. (ok (some (pos 0), false), "gather" ∷ s);
}

abbrev cmd_shell : Shell (List String)
cmd_shell = record {
  kind = cmd;
  build_argv = λ command cwd. pure (cmd_argv (codes "cmd.exe") command);
  subprocess_cwd = λ cwd. some cwd;
}

abbrev closing : ℕ → List String → List String
closing p s = "close" ∷ s

runs_and_closes :
    run_selected logged (λ p. pure tt) closing (cmd_shell ∷ []) (codes "dir") cmd (codes "C:") []
    ≡ (ok (some (pos 0), false), "close" ∷ "gather" ∷ "started" ∷ "spawn" ∷ [])
unfolding run_selected ◌>>=◌
runs_and_closes = refl

unassigned_killed :
    run_selected logged
      (λ p. raise os_error)
      closing
      (cmd_shell ∷ [])
      (codes "dir")
      cmd
      (codes "C:")
      []
    ≡ (err os_error, "wait" ∷ "kill" ∷ "spawn" ∷ [])
unfolding run_selected ◌>>=◌
unassigned_killed = refl

unavailable_shell :
    run_selected logged (λ p. pure tt) closing (cmd_shell ∷ []) (codes "ls") wsl (codes "C:") []
    ≡ (err (value_error "shell is unavailable"), [])
unfolding run_selected ◌>>=◌
unavailable_shell = refl
