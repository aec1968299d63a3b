-- ===== src/Agent/Windows/Tests.antt =====
-- A small kernel32 and two commands, for src/gptlink/agent/executors/windows_process.py.
use gptlink.Agent.Windows.JobObjects.{
  Event, IsDocumented, Kernel, Manager, assign, assigns, close, closes, remove_one, run, step,
  terminate, terminates,
}
use gptlink.Agent.Windows.Handles.{Accounted, run-Accounted}
use gptlink.Agent.Windows.Processes.{list_processes, process_of}
use gptlink.Agent.Windows.Listed.{IsShowable, list_processes_lem, listed}
use gptlink.Common.Types.{Capability_eq, process_read}
use gptlink.Common.Action.{ok, ◌>>=◌}
use gptlink.Prelude.{
  All, Bool, Chars, Chars_eq, List, Option, String_eq, [], arith, codes, false, if◌then◌else◌,
  is_digit, length, map, none, not, pos, refl, some, suc, take, true, ℕ, ℕ_eq, ℤ, ◌-◌, ◌==◌, ◌∷◌,
  ◌≡◌, ◌≤◌,
}

-- handles are counted up, and the process 13 cannot be assigned
record System : Type 0 where
  open_handles : List ℕ
  next : ℕ
  doomed : Bool

abbrev opening : System → ℕ × System
opening k = (suc k.next, record k { open_handles = suc k.next ∷ k.open_handles; next = suc k.next })

abbrev small : Kernel System
small = record {
  create_job = opening;
  set_information = λ h k. (true, k);
  open_process = λ p k. let (h, k') = opening k in (h, record k' { doomed = p == 13 });
  assign_process = λ j p k. (not k.doomed, k);
  terminate_job = λ h k. (true, k);
  close_handle = λ h k. record k { open_handles = remove_one h k.open_handles };
  handles = λ k. k.open_handles;
}

small-IsDocumented : IsDocumented small
small-IsDocumented = record {
  created = λ k. ground arith;
  informed = λ h k. refl;
  opened = λ p k. ground arith;
  assigned = λ j p k. refl;
  terminated = λ h k. refl;
  closed = λ h k. refl;
}

abbrev idle : Manager System
idle = record { system = record { open_handles = 99 ∷ []; next = 10; doomed = false }; jobs = [] }

-- one process runs and is terminated, one cannot be assigned, one ends by itself
abbrev calls : List Event
calls = assigns 7 ∷ assigns 13 ∷ assigns 8 ∷ terminates 7 ∷ closes 8 ∷ closes 7 ∷ []

calls_close : (run small calls idle).system.open_handles ≡ 99 ∷ []
unfolding run step assign terminate close ◌>>=◌
calls_close = refl

run-Accounted_example : Accounted small (99 ∷ []) (run small calls idle)
unfolding run step assign terminate close ◌>>=◌
run-Accounted_example =
    run-Accounted small small-IsDocumented (99 ∷ []) calls idle
      (refl, (refl, (refl, (tt, (tt, (tt, tt)))))) (λ x. omega arith)

-- int of decimal digits
abbrev int_of : Chars → Option ℤ
int_of (c ∷ []) = if is_digit c then some (pos (c - 48)) else none
int_of _ = none

abbrev printed : List (List Chars)
printed =
    (codes "System Idle Process" ∷ codes "0" ∷ [])
    ∷ (codes "smss.exe" ∷ codes "4" ∷ [])
    ∷ (codes "INFO: none" ∷ [])
    ∷ (codes "a.exe" ∷ codes "N" ∷ [])
    ∷ (codes "b.exe" ∷ codes "5" ∷ [])
    ∷ (codes "c.exe" ∷ codes "6" ∷ [])
    ∷ []

listed_two : map (λ p. p.pid) (take 2 (listed int_of printed)) ≡ 4 ∷ 5 ∷ []
unfolding process_of
listed_two = refl

list_processes_lem_example :
    let shown = take 2 (listed int_of printed) in
    (list_processes int_of (process_read ∷ []) 2 (ok printed) tt ≡ (ok shown, tt))
    × (length shown ≤ 2)
    × All IsShowable shown
list_processes_lem_example = list_processes_lem int_of (process_read ∷ []) 2 printed tt refl
