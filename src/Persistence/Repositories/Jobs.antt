-- ===== src/Persistence/Repositories/Jobs.antt =====
-- `JobRepository` of src/gptlink/persistence/repositories.py.
mod Tests
use gptlink.Prelude.{
  Bool, Chars_eq, List, Option, String_eq, [], any, find, if◌then◌else◌, leb, ltb, ltb_ℤ, not, pos,
  pos_part, select, sort, take, ℕ, ℕ_eq, ℤ, ◌&&◌, ◌++◌, ◌==◌, ◌||◌, ◌∷◌,
}
use gptlink.Persistence.Models.{Job, JobOutput, Tables, device_exists, job_check}
use gptlink.Common.Action.{Action, err, ok}
use gptlink.Common.Errors.{integrity_error, value_error}

unfoldable pub add : Job → Action Tables Job
add j t =
    if any (λ x. x.job_id == j.job_id) t.jobs
      || any (λ x. x.request_id == j.request_id) t.jobs
      || not (job_check j)
      || not (device_exists t j.device_id)
    then (err integrity_error, t)
    else (ok j, record t { jobs = t.jobs ++ j ∷ [] })

unfoldable get_by_request_id : ℕ → Action Tables (Option Job)
get_by_request_id r t = (ok (find (λ j. j.request_id == r) t.jobs), t)

abbrev earlier : Job → Job → Bool
earlier a b =
    ltb a.created_at b.created_at || ((a.created_at == b.created_at) && leb a.job_id b.job_id)

unfoldable pub list_for_device : ℕ → Action Tables (List Job)
list_for_device d t = (ok (sort earlier (select (λ j. j.device_id == d) t.jobs)), t)

-- primary key (job_id, sequence_number) and the foreign key to the job
unfoldable add_output : JobOutput → Action Tables JobOutput
add_output o t =
    if any (λ x. (x.job_id == o.job_id) && (x.sequence_number == o.sequence_number)) t.job_outputs
      || not (any (λ j. j.job_id == o.job_id) t.jobs)
    then (err integrity_error, t)
    else (ok o, record t { job_outputs = t.job_outputs ++ o ∷ [] })

abbrev pub wanted : ℕ → ℤ → JobOutput → Bool
wanted job_id after o = (o.job_id == job_id) && ltb_ℤ after (pos o.sequence_number)

abbrev pub in_sequence : JobOutput → JobOutput → Bool
in_sequence a b = leb a.sequence_number b.sequence_number

unfoldable pub get_output : ℕ → ℤ → ℤ → Action Tables (List JobOutput)
get_output job_id after limit t =
    if ltb_ℤ limit (pos 1) then (err (value_error "limit must be positive"), t) else (
      ok (take (pos_part limit) (sort in_sequence (select (wanted job_id after) t.job_outputs))),
      t,
    )
