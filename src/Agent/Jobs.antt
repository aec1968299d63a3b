-- ===== src/Agent/Jobs.antt =====
-- src/gptlink/agent/jobs.py: the jobs of an Agent, their output, their results and cancellation. What
-- the executor does is an event; an awaiting task goes on when an event says so.
pub mod Output
pub mod Results
mod Tests
use gptlink.Common.Types.{
  Capability_eq, JobStatus, StreamKind, cancelled, failed, pending, succeeded, timed_out,
}
use gptlink.Common.Action.{Action, err, ok, pure, raise}
use gptlink.Common.Errors.{key_error, value_error}
use gptlink.Prelude.{
  Bool, Chars_eq, List, Option, String, String_eq, [], count, false, find, if◌then◌else◌, ltb,
  ltb_ℤ, none, not, over, pos, select, some, true, zero, ℕ, ℕ_eq, ℤ, ◌++◌, ◌+◌, ◌==◌, ◌||◌, ◌∷◌,
}

-- OutputChunk: `size` is the length of its data in UTF-8
pub record OutputChunk : Type 0 where
  pub sequence_number : ℕ
  pub stream : StreamKind
  pub timestamp : ℕ
  pub text : String
  pub size : ℕ

pub record JobResult : Type 0 where
  pub job_id : ℕ
  pub status : JobStatus
  pub exit_code : Option ℤ
  pub output_truncated : Bool

-- the task of a job: before it has a place in the semaphore, with one, ended by its result, and
-- cancelled without one
pub data Phase : Type 0 where
  queued active ended abandoned : Phase

pub record Job : Type 0 where
  pub result : JobResult
  pub phase : Phase
  pub chunks : List OutputChunk
  pub process : Option ℕ
  pub cancel_requested : Bool
  pub output_bytes : ℕ

pub record Limits : Type 0 where
  pub max_output_bytes : ℕ
  pub max_concurrent_jobs : ℕ

abbrev pub is_active : Phase → Bool
is_active active = true
is_active _ = false

abbrev pub is_queued : Phase → Bool
is_queued queued = true
is_queued _ = false

abbrev pub is_ended : Phase → Bool
is_ended ended = true
is_ended _ = false

abbrev pub is_pending : JobStatus → Bool
is_pending pending = true
is_pending _ = false

-- job.task.done()
abbrev pub is_done : Phase → Bool
is_done ended = true
is_done abandoned = true
is_done _ = false

abbrev pub named : ℕ → Job → Bool
named i j = j.result.job_id == i

-- placeholder
abbrev pub new_job : ℕ → Job
new_job i = record {
  result = record { job_id = i; status = pending; exit_code = none; output_truncated = false };
  phase = queued;
  chunks = [];
  process = none;
  cancel_requested = false;
  output_bytes = 0;
}

-- the job of an id is changed in place
abbrev pub change : ℕ → (Job → Job) → List Job → List Job
change i f [] = []
change i f (j ∷ js) = if named i j then f j ∷ js else j ∷ change i f js

-- with a fresh id
unfoldable pub start : ℕ → String → ℤ → Action (List Job) ℕ
start i command timeout jobs =
    if (command == "") || not (ltb_ℤ (pos 0) timeout)
    then (err (value_error "command and positive timeout are required"), jobs)
    else (ok i, jobs ++ new_job i ∷ [])

-- on_chunk
unfoldable pub on_chunk : Limits → OutputChunk → Job → Job
on_chunk l c j =
    if ltb l.max_output_bytes (j.output_bytes + c.size)
    then record j { result = record j.result { output_truncated = true } }
    else record j { output_bytes = j.output_bytes + c.size; chunks = j.chunks ++ c ∷ [] }

-- how the awaited process task ends: with the exit code and whether the executor cut the output, by the
-- timeout, by a cancellation, and by another exception
pub data Ending : Type 0 where
  exits : Option ℤ → Bool → Ending
  times_out is_cancelled breaks : Ending

abbrev exit_status : Option ℤ → JobStatus
exit_status (some (pos zero)) = succeeded
exit_status _ = failed

abbrev pub ending_result : JobResult → Ending → JobResult
ending_result r (exits code truncated) = record {
  job_id = r.job_id;
  status = exit_status code;
  exit_code = code;
  output_truncated = truncated || r.output_truncated;
}
ending_result r times_out = record {
  job_id = r.job_id;
  status = timed_out;
  exit_code = none;
  output_truncated = r.output_truncated;
}
ending_result r is_cancelled = record {
  job_id = r.job_id;
  status = cancelled;
  exit_code = none;
  output_truncated = r.output_truncated;
}
ending_result r breaks = record {
  job_id = r.job_id;
  status = failed;
  exit_code = none;
  output_truncated = r.output_truncated;
}

unfoldable pub finish : Ending → Job → Job
finish e j = record j { result = ending_result j.result e; phase = ended }

abbrev pub activate : Job → Job
activate j = if is_queued j.phase then record j { phase = active } else j

-- The semaphore of `_run` lets a queued task through while fewer than the limit are active.
unfoldable pub admit : Limits → ℕ → List Job → List Job
admit l i jobs =
    if ltb (count (λ j. is_active j.phase) jobs) l.max_concurrent_jobs
    then change i activate jobs
    else jobs

-- cancel: a task that is done is left; a task that waits for the semaphore ends there
unfoldable pub cancelled_job : Job → Job
cancelled_job j = record j {
  cancel_requested = true;
  phase = if is_queued j.phase then abandoned else j.phase;
}

unfoldable pub cancel_found : ℕ → Option Job → Action (List Job) Bool
cancel_found i none jobs = (err key_error, jobs)
cancel_found i (some j) jobs =
    if is_done j.phase then (ok false, jobs) else (ok true, change i cancelled_job jobs)

unfoldable pub cancel : ℕ → Action (List Job) Bool
unfolding cancelled_job cancel_found
cancel i jobs = cancel_found i (find (named i) jobs) jobs

abbrev or_key_error : {A : Type 0} → Option A → Action (List Job) A
or_key_error none = raise key_error
or_key_error (some a) = pure a

unfoldable pub status : ℕ → Action (List Job) JobResult
status i jobs = or_key_error (over (λ j. j.result) (find (named i) jobs)) jobs

-- chunk.sequence_number > after_sequence
abbrev pub is_after : ℤ → OutputChunk → Bool
is_after after c = ltb_ℤ after (pos c.sequence_number)

unfoldable pub output : ℕ → ℤ → Action (List Job) (List OutputChunk)
output i after jobs =
    or_key_error (over (λ j. select (is_after after) j.chunks) (find (named i) jobs)) jobs

-- What happens in the manager: calls of its users, and what the executor and the clock bring.
pub data Event : Type 0 where
  starts : (job_id : ℕ) → String → (timeout : ℤ) → Event
  admits : (job_id : ℕ) → Event
  spawns : (job_id pid : ℕ) → Event
  writes : (job_id : ℕ) → OutputChunk → Event
  finishes : (job_id : ℕ) → Ending → Event
  cancels : (job_id : ℕ) → Event

abbrev pub spawned : ℕ → Job → Job
spawned pid j = record j { process = some pid }

-- an event of the process of an active job
abbrev pub on_active : ℕ → (Job → Job) → List Job → List Job
on_active i f jobs = change i (λ j. if is_active j.phase then f j else j) jobs

unfoldable pub step : Limits → Event → List Job → List Job
unfolding start admit on_chunk finish cancel
step l (starts i command timeout) jobs = (start i command timeout jobs).1
step l (admits i) jobs = admit l i jobs
step l (spawns i pid) jobs = on_active i (spawned pid) jobs
step l (writes i c) jobs = on_active i (on_chunk l c) jobs
step l (finishes i e) jobs = on_active i (finish e) jobs
step l (cancels i) jobs = (cancel i jobs).1

unfoldable pub run : Limits → List Event → List Job → List Job
unfolding step
run l [] jobs = jobs
run l (e ∷ es) jobs = run l es (step l e jobs)
