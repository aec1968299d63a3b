-- ===== src/Persistence/Repositories/Jobs/Tests.antt =====
-- Pages of the output of a job.
use gptlink.Persistence.Repositories.Jobs.{get_output}
use gptlink.Persistence.Samples.{tables}
use gptlink.Common.Types.{stdout}
use gptlink.Prelude.{[], negsuc, pos, refl, ℕ, ◌∷◌, ◌≡◌}
use gptlink.Persistence.Models.{JobOutput, Tables}
use gptlink.Common.Action.{err, ok}
use gptlink.Common.Errors.{value_error}

abbrev chunk : ℕ → JobOutput
chunk n = record {
  job_id = 3;
  sequence_number = n;
  stream = stdout;
  timestamp = 50;
  text = "x";
  bytes_count = 1;
}

abbrev logged : Tables
logged = record tables { job_outputs = chunk 2 ∷ chunk 0 ∷ chunk 1 ∷ [] }

first_page : get_output 3 (negsuc 0) (pos 2) logged ≡ (ok (chunk 0 ∷ chunk 1 ∷ []), logged)
unfolding get_output
first_page = refl

no_page :
    get_output 3 (negsuc 0) (pos 0) logged ≡ (err (value_error "limit must be positive"), logged)
unfolding get_output
no_page = refl
