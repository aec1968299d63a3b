-- ===== src/Agent/Jobs/Results.antt =====
-- About the results of jobs, in src/gptlink/agent/jobs.py.
use gptlink.Agent.Jobs.{
  Ending, Event, Job, JobResult, Limits, OutputChunk, activate, admit, admits, cancel, cancel_found,
  cancelled_job, cancels, change, finish, finishes, is_active, is_done, is_pending, is_queued,
  named, new_job, on_active, on_chunk, run, spawned, spawns, start, starts, status, step, writes,
}
use gptlink.Prelude.{
  Bool-cases, Chars_eq, List, Option, String, String_eq, [], any-is_some-find, ap, arith, count,
  false, find, find-append, if◌then◌else◌, inl, inr, ltb, ltb_ℤ, none, not, over, pos, refl, some,
  sym, true, ℕ, ℕ_eq, ℤ, ◌+◌, ◌<◌, ◌==◌, ◌||◌, ◌∙◌, ◌∷◌, ◌≡◌,
}
use gptlink.Common.Action.{ok, pure}

abbrev pub job_at : ℕ → List Job → Option Job
job_at i jobs = find (named i) jobs

-- a change that keeps the id, at that id and at another
find-change :
    (i : ℕ) (f : Job → Job) (js : List Job)
    → ((j : Job) → (f j).result.job_id ≡ j.result.job_id)
    → job_at i (change i f js) ≡ over f (job_at i js)
find-change i f [] h = refl
find-change i f (j ∷ js) h = ground (arith, h j, find-change i f js h)

find-change_other :
    (k i : ℕ) (f : Job → Job) (js : List Job)
    → ((j : Job) → (f j).result.job_id ≡ j.result.job_id)
    → (i == k) ≡ false
    → job_at k (change i f js) ≡ job_at k js
find-change_other k i f [] h e = refl
find-change_other k i f (j ∷ js) h e = ground (arith, h j, find-change_other k i f js h e)

-- how an event may take a job on
pub data Moves (l : Limits) (j : Job) : Job → Type 0 where
  stays : Moves l j j
  goes_active : is_queued j.phase ≡ true → Moves l j (activate j)
  gets : (pid : ℕ) → is_active j.phase ≡ true → Moves l j (spawned pid j)
  stores : (c : OutputChunk) → is_active j.phase ≡ true → Moves l j (on_chunk l c j)
  ends : (e : Ending) → is_active j.phase ≡ true → Moves l j (finish e j)
  is_let_go : is_done j.phase ≡ false → Moves l j (cancelled_job j)

Moves-done : {l : Limits} {j j' : Job} → Moves l j j' → is_done j.phase ≡ true → j' ≡ j
Moves-done stays d = refl
Moves-done (goes_active q) d = ground arith
Moves-done (gets pid q) d = ground arith
Moves-done (stores c q) d = ground arith
Moves-done (ends e q) d = ground arith
Moves-done (is_let_go q) d = ground arith

Moves-truncated :
    {l : Limits} {j j' : Job}
    → Moves l j j'
    → j.result.output_truncated ≡ true
    → j'.result.output_truncated ≡ true
unfolding on_chunk finish cancelled_job
Moves-truncated stays h = h
Moves-truncated (goes_active q) h = ground arith
Moves-truncated (gets pid q) h = h
Moves-truncated (stores c q) h = ground arith
Moves-truncated (ends e q) h = ground arith
Moves-truncated (is_let_go q) h = h

abbrev Reached : Limits → Job → Option Job → Type 0
Reached l j o = (j' : Job) × (o ≡ some j') × Moves l j j'

-- a change of the job at one id
change-Reached :
    (l : Limits) (k i : ℕ) (f : Job → Job) (jobs : List Job) (j : Job)
    → ((x : Job) → (f x).result.job_id ≡ x.result.job_id)
    → ((i == k) ≡ true → Moves l j (f j))
    → job_at k jobs ≡ some j
    → Reached l j (job_at k (change i f jobs))
change-Reached l k i f jobs j keep moves h = elim (Bool-cases (i == k)) [
  | inl e ↦
      let q : i ≡ k = ground (arith, e) in
      (f j, rw q (find-change k f jobs keep ∙ ap (over f) h), moves e)
  | inr e ↦ (j, find-change_other k i f jobs keep e ∙ h, stays)
]

active-Reached :
    (l : Limits) (k i : ℕ) (f : Job → Job) (jobs : List Job) (j : Job)
    → ((x : Job) → (f x).result.job_id ≡ x.result.job_id)
    → (is_active j.phase ≡ true → Moves l j (f j))
    → job_at k jobs ≡ some j
    → Reached l j (job_at k (on_active i f jobs))
active-Reached l k i f jobs j keep moves h =
    change-Reached l k i (λ x. if is_active x.phase then f x else x) jobs j
      (λ x. ground (arith, keep x))
      (λ e. elim (Bool-cases (is_active j.phase)) [ inl a ↦ rw a (moves a) | inr a ↦ rw a stays ]) h

same_done :
    (k i : ℕ) (x j : Job) (jobs : List Job)
    → is_done x.phase ≡ false
    → (i == k) ≡ true
    → job_at i jobs ≡ some x
    → job_at k jobs ≡ some j
    → is_done j.phase ≡ false
same_done k i x j jobs d q e h =
    let same : i ≡ k = ground (arith, q) in
    let one : some x ≡ some j = sym e ∙ ap (λ n. job_at n jobs) same ∙ h in ground (arith, d, one)

cancel-Reached :
    (l : Limits) (k i : ℕ) (o : Option Job) (jobs : List Job) (j : Job)
    → job_at i jobs ≡ o
    → job_at k jobs ≡ some j
    → Reached l j (job_at k (cancel_found i o jobs).1)
unfolding cancel_found
cancel-Reached l k i none jobs j e h = (j, h, stays)
cancel-Reached l k i (some x) jobs j e h = elim (Bool-cases (is_done x.phase)) [
  | inl d ↦ rw d (j, h, stays)
  | inr d ↦ rw d (
      change-Reached l k i cancelled_job jobs j (λ y. unfold cancelled_job in refl)
        (λ q. is_let_go (same_done k i x j jobs d q e h)) h)
]

activate-Moves : (l : Limits) (j : Job) → Moves l j (activate j)
activate-Moves l j = elim (Bool-cases (is_queued j.phase)) [
  | inl e ↦ goes_active e
  | inr e ↦ rw e stays
]

start-Reached :
    (l : Limits) (i : ℕ) (command : String) (timeout : ℤ) (jobs : List Job) (k : ℕ) (j : Job)
    → job_at k jobs ≡ some j
    → Reached l j (job_at k (start i command timeout jobs).1)
unfolding start
start-Reached l i command timeout jobs k j h =
    elim (Bool-cases ((command == "") || not (ltb_ℤ (pos 0) timeout))) [
      | inl e ↦ rw e (j, h, stays)
      | inr e ↦ rw e (
        j,
        ground (
          arith,
          h,
          find-append (named k) jobs (new_job i ∷ []),
          any-is_some-find (named k) jobs,
        ),
        stays,
      )
    ]

admit-Reached :
    (l : Limits) (i : ℕ) (jobs : List Job) (k : ℕ) (j : Job)
    → job_at k jobs ≡ some j
    → Reached l j (job_at k (admit l i jobs))
unfolding admit
admit-Reached l i jobs k j h =
    elim (Bool-cases (ltb (count (λ j. is_active j.phase) jobs) l.max_concurrent_jobs)) [
      | inl e ↦
          rw e
            (change-Reached l k i activate jobs j (λ x. ground arith) (λ q. activate-Moves l j) h)
      | inr e ↦ rw e (j, h, stays)
    ]

step-Reached :
    (l : Limits) (e : Event) (jobs : List Job) (k : ℕ) (j : Job)
    → job_at k jobs ≡ some j
    → Reached l j (job_at k (step l e jobs))
unfolding step cancel
step-Reached l (starts i command timeout) jobs k j h = start-Reached l i command timeout jobs k j h
step-Reached l (admits i) jobs k j h = admit-Reached l i jobs k j h
step-Reached l (spawns i pid) jobs k j h =
    active-Reached l k i (spawned pid) jobs j (λ x. refl) (gets pid) h
step-Reached l (writes i c) jobs k j h =
    active-Reached l k i (on_chunk l c) jobs j (λ x. unfold on_chunk in ground arith) (stores c) h
step-Reached l (finishes i e) jobs k j h =
    active-Reached l k i (finish e) jobs j (λ x. unfold finish in ground arith) (ends e) h
step-Reached l (cancels i) jobs k j h = cancel-Reached l k i (job_at i jobs) jobs j refl h

-- a property of a job that its moves keep
run-kept :
    (P : Job → Type 0) (l : Limits)
    → ((j j' : Job) → Moves l j j' → P j → P j')
    → (es : List Event) (jobs : List Job) (k : ℕ) (j : Job) → job_at k jobs ≡ some j
    → P j
    → (j' : Job) × (job_at k (run l es jobs) ≡ some j') × P j'
unfolding run
run-kept P l kept [] jobs k j h p = (j, h, p)
run-kept P l kept (e ∷ es) jobs k j h p =
    let (j', h', moved) = step-Reached l e jobs k j h in
    run-kept P l kept es (step l e jobs) k j' h' (kept j j' moved p)

-- A job whose task is done keeps its result, its output and everything else under any events: no
-- late output, exit, timeout or cancellation changes it.
done_job_stays :
    (l : Limits) (es : List Event) (jobs : List Job) (k : ℕ) (j : Job)
    → job_at k jobs ≡ some j
    → is_done j.phase ≡ true
    → job_at k (run l es jobs) ≡ some j
done_job_stays l es jobs k j h d =
    let (j', h', same) =
      run-kept (λ x. x ≡ j) l (λ x x' m q. Moves-done m (rw q d) ∙ q) es jobs k j h refl in
    h' ∙ ap some same

status_of :
    (k : ℕ) (j : Job) (jobs : List Job) → job_at k jobs ≡ some j → (status k jobs).0 ≡ ok j.result
unfolding status pure
status_of k j jobs h = rw h refl

on_chunk_over :
    (l : Limits) (c : OutputChunk) (j : Job)
    → l.max_output_bytes < j.output_bytes + c.size
    → (on_chunk l c j).result.output_truncated ≡ true
unfolding on_chunk
on_chunk_over l c j big = ground arith

not_done : (j : Job) → is_queued j.phase ≡ true → is_done j.phase ≡ false
not_done j q = ground arith

-- Output of an active job that does not fit the limit is not stored, and from then on, through any
-- events, the job's result says that its output was truncated.
truncation_shown :
    (l : Limits) (es : List Event) (jobs : List Job) (k : ℕ) (j : Job) (c : OutputChunk)
    → job_at k jobs ≡ some j
    → is_active j.phase ≡ true
    → l.max_output_bytes < j.output_bytes + c.size
    → (r : JobResult) × ((status k (run l (writes k c ∷ es) jobs)).0 ≡ ok r)
      × (r.output_truncated ≡ true)
unfolding run step
truncation_shown l es jobs k j c h a big =
    let fits = on_chunk_over l c j big in
    let there : job_at k (on_active k (on_chunk l c) jobs) ≡ some (on_chunk l c j) =
      find-change k (λ x. if is_active x.phase then on_chunk l c x else x) jobs
        (λ x. unfold on_chunk in ground arith)
      ∙ ap (over (λ (x : Job). if is_active x.phase then on_chunk l c x else x)) h
      ∙ rw a refl in
    let (j', h', cut) =
      run-kept (λ x. x.result.output_truncated ≡ true) l (λ x x' m. Moves-truncated m) es _ k
        (on_chunk l c j) there fits in
    (j'.result, status_of k j' _ h', cut)

-- A job that shows PENDING, and is cancelled while it waits for its place in the semaphore, shows
-- PENDING for ever: the cancellation says that it cancelled, and no event brings another status.
pub queued_cancel_pending :
    (l : Limits) (es : List Event) (jobs : List Job) (k : ℕ) (j : Job)
    → job_at k jobs ≡ some j
    → is_queued j.phase ≡ true
    → is_pending j.result.status ≡ true
    → ((cancel k jobs).0 ≡ ok true)
      × ((r : JobResult) × ((status k (run l es (cancel k jobs).1)).0 ≡ ok r)
          × (is_pending r.status ≡ true))
unfolding cancel cancel_found
queued_cancel_pending l es jobs k j h q s =
    let found : job_at k (change k cancelled_job jobs) ≡ some (cancelled_job j) =
      find-change k cancelled_job jobs (λ x. unfold cancelled_job in refl)
      ∙ ap (over cancelled_job) h in
    let kept =
      done_job_stays l es (change k cancelled_job jobs) k (cancelled_job j) found
        (unfold cancelled_job in rw q refl) in
    (
      rw (h, not_done j q) refl,
      rw (h, not_done j q)
          (j.result, unfold cancelled_job in status_of k (cancelled_job j) _ kept, s),
    )
