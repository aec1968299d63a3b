-- ===== src/Agent/Jobs/Tests.antt =====
-- Two jobs and a small limit, for src/gptlink/agent/jobs.py.
use gptlink.Agent.Jobs.{
  Event, Job, JobResult, Limits, OutputChunk, active, admit, admits, cancel, exits, finishes,
  is_pending, new_job, on_chunk, run, start, starts, status, step, writes,
}
use gptlink.Agent.Jobs.Output.{IsBounded, active_count, limits_kept}
use gptlink.Agent.Jobs.Results.{queued_cancel_pending}
use gptlink.Common.Types.{stdout}
use gptlink.Common.Action.{ok}
use gptlink.Prelude.{All, List, [], false, pos, refl, some, true, ℕ, ◌∷◌, ◌≡◌, ◌≤◌}

abbrev limits : Limits
limits = record { max_output_bytes = 5; max_concurrent_jobs = 1 }

abbrev chunk : ℕ → OutputChunk
chunk n = record { sequence_number = n; stream = stdout; timestamp = 9; text = "abc"; size = 3 }

-- one job runs, the other waits
abbrev two_started : List Event
two_started =
    starts 1 "ls" (pos 1000)
    ∷ starts 2 "ps" (pos 1000)
    ∷ admits 1
    ∷ admits 2
    ∷ writes 1 (chunk 0)
    ∷ []

abbrev running_job : Job
running_job = record (new_job 1) { phase = active; chunks = chunk 0 ∷ []; output_bytes = 3 }

abbrev two_jobs : List Job
two_jobs = running_job ∷ new_job 2 ∷ []

two_started_jobs : run limits two_started [] ≡ two_jobs
unfolding run step start admit on_chunk
two_started_jobs = refl

limits_kept_example :
    All (IsBounded limits) (run limits two_started [])
    × (active_count (run limits two_started []) ≤ 1)
limits_kept_example = limits_kept limits two_started

queued_cancel_pending_example :
    ((cancel 2 two_jobs).0 ≡ ok true)
    × ((r : JobResult) × ((status 2 (
            run limits
              (finishes 1 (exits (some (pos 0)) false) ∷ admits 2 ∷ [])
              (cancel 2 two_jobs).1)).0
          ≡ ok r)
        × (is_pending r.status ≡ true))
queued_cancel_pending_example =
    queued_cancel_pending limits (finishes 1 (exits (some (pos 0)) false) ∷ admits 2 ∷ []) two_jobs
      2 (new_job 2) refl refl refl
