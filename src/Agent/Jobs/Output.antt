-- ===== src/Agent/Jobs/Output.antt =====
-- About the output of jobs and the places of the semaphore, in src/gptlink/agent/jobs.py.
use gptlink.Agent.Jobs.{
  Event, Job, Limits, OutputChunk, activate, admit, admits, cancel, cancel_found, cancelled_job,
  cancels, change, finish, finishes, is_active, is_done, is_queued, named, new_job, on_active,
  on_chunk, run, spawned, spawns, start, starts, step, writes,
}
use gptlink.Common.Types.{Capability_eq}
use gptlink.Prelude.{
  All, Bool-cases, Chars_eq, List, Option, String, String_eq, [], arith, count, count-append, find,
  if◌then◌else◌, inl, inr, ltb, ltb_ℤ, none, not, pos, refl, some, suc, true, ℕ, ℕ_eq, ℤ, ◌++◌, ◌+◌,
  ◌==◌, ◌||◌, ◌∷◌, ◌≡◌, ◌≤◌,
}

abbrev pub total : List OutputChunk → ℕ
total [] = 0
total (c ∷ cs) = c.size + total cs

-- the active jobs fit the semaphore
abbrev pub active_count : List Job → ℕ
active_count jobs = count (λ j. is_active j.phase) jobs

-- the count of bytes is that of the stored chunks, and within the limit
pub record IsBounded (l : Limits) (j : Job) : Type 0 where
  pub counted : j.output_bytes ≡ total j.chunks
  pub limited : j.output_bytes ≤ l.max_output_bytes

total-append : (cs ds : List OutputChunk) → total (cs ++ ds) ≡ total cs + total ds
total-append [] ds = omega arith
total-append (c ∷ cs) ds = omega (arith, total-append cs ds)

on_chunk-IsBounded :
    (l : Limits) (c : OutputChunk) (j : Job) → IsBounded l j → IsBounded l (on_chunk l c j)
unfolding on_chunk
on_chunk-IsBounded l c j k = elim (Bool-cases (ltb l.max_output_bytes (j.output_bytes + c.size))) [
  | inl h ↦ rw h record { counted = k.counted; limited = k.limited }
  | inr h ↦ rw h record {
    counted = omega (arith, k.counted, total-append j.chunks (c ∷ []));
    limited = ground (arith, h);
  }
]

module _ (P : Job → Type 0) where
  All-change :
      (i : ℕ) (f : Job → Job) (js : List Job)
      → ((j : Job) → P j → P (f j))
      → All P js
      → All P (change i f js)
  All-change i f [] kept h = tt
  All-change i f (j ∷ js) kept h = elim (Bool-cases (named i j)) [
    | inl e ↦ rw e (kept j h.0, h.1)
    | inr e ↦ rw e (h.0, All-change i f js kept h.1)
  ]

  All-append : (js ks : List Job) → All P js → All P ks → All P (js ++ ks)
  All-append [] ks h k = k
  All-append (j ∷ js) ks h k = (h.0, All-append js ks h.1 k)

same-IsBounded :
    (l : Limits) (j j' : Job)
    → j'.chunks ≡ j.chunks
    → j'.output_bytes ≡ j.output_bytes
    → IsBounded l j
    → IsBounded l j'
same-IsBounded l j j' c b k = record { counted = rw (c, b) k.counted; limited = rw b k.limited }

cancel-Bounded :
    (l : Limits) (i : ℕ) (o : Option Job) (jobs : List Job)
    → All (IsBounded l) jobs
    → All (IsBounded l) (cancel_found i o jobs).1
unfolding cancel_found cancelled_job
cancel-Bounded l i none jobs h = h
cancel-Bounded l i (some j) jobs h = elim (Bool-cases (is_done j.phase)) [
  | inl e ↦ rw e h
  | inr e ↦
      rw e (All-change (IsBounded l) i cancelled_job jobs (λ x. same-IsBounded l x _ refl refl) h)
]

start-Bounded :
    (l : Limits) (i : ℕ) (command : String) (timeout : ℤ) (jobs : List Job)
    → All (IsBounded l) jobs
    → All (IsBounded l) (start i command timeout jobs).1
unfolding start
start-Bounded l i command timeout jobs h =
    elim (Bool-cases ((command == "") || not (ltb_ℤ (pos 0) timeout))) [
      | inl e ↦ rw e h
      | inr e ↦ rw e (
          All-append (IsBounded l) jobs (new_job i ∷ []) h
            (record { counted = refl; limited = omega arith }, tt))
    ]

active-Bounded :
    (l : Limits) (i : ℕ) (f : Job → Job) (jobs : List Job)
    → ((j : Job) → IsBounded l j → IsBounded l (f j))
    → All (IsBounded l) jobs
    → All (IsBounded l) (on_active i f jobs)
active-Bounded l i f jobs kept h =
    All-change (IsBounded l) i (λ j. if is_active j.phase then f j else j) jobs
      (λ j k. elim (Bool-cases (is_active j.phase)) [ inl e ↦ rw e (kept j k) | inr e ↦ rw e k ]) h

activate-IsBounded : (l : Limits) (j : Job) → IsBounded l j → IsBounded l (activate j)
activate-IsBounded l j k = elim (Bool-cases (is_queued j.phase)) [
  | inl e ↦ rw e record { counted = k.counted; limited = k.limited }
  | inr e ↦ rw e k
]

step-Bounded :
    (l : Limits) (e : Event) (jobs : List Job)
    → All (IsBounded l) jobs
    → All (IsBounded l) (step l e jobs)
unfolding step admit finish cancel
step-Bounded l (starts i command timeout) jobs h = start-Bounded l i command timeout jobs h
step-Bounded l (admits i) jobs h =
    elim (Bool-cases (ltb (active_count jobs) l.max_concurrent_jobs)) [
      | inl e ↦ rw e (All-change (IsBounded l) i activate jobs (activate-IsBounded l) h)
      | inr e ↦ rw e h
    ]
step-Bounded l (spawns i pid) jobs h =
    active-Bounded l i (spawned pid) jobs (λ j. same-IsBounded l j _ refl refl) h
step-Bounded l (writes i c) jobs h =
    active-Bounded l i (on_chunk l c) jobs (on_chunk-IsBounded l c) h
step-Bounded l (finishes i e) jobs h =
    active-Bounded l i (finish e) jobs (λ j. same-IsBounded l j _ refl refl) h
step-Bounded l (cancels i) jobs h = cancel-Bounded l i (find (named i) jobs) jobs h

run-Bounded :
    (l : Limits) (es : List Event) (jobs : List Job)
    → All (IsBounded l) jobs
    → All (IsBounded l) (run l es jobs)
unfolding run
run-Bounded l [] jobs h = h
run-Bounded l (e ∷ es) jobs h = run-Bounded l es (step l e jobs) (step-Bounded l e jobs h)

-- a change of one job that makes none active
count-change :
    (i : ℕ) (f : Job → Job) (js : List Job)
    → ((j : Job) → is_active (f j).phase ≡ true → is_active j.phase ≡ true)
    → active_count (change i f js) ≤ active_count js
count-change i f [] h = omega arith
count-change i f (j ∷ js) h = ground (arith, h j, count-change i f js h)

count-activate :
    (i : ℕ) (js : List Job) → active_count (change i activate js) ≤ suc (active_count js)
count-activate i [] = omega arith
count-activate i (j ∷ js) = ground (arith, count-activate i js)

cancel-active :
    (l : Limits) (i : ℕ) (o : Option Job) (jobs : List Job)
    → active_count jobs ≤ l.max_concurrent_jobs
    → active_count (cancel_found i o jobs).1 ≤ l.max_concurrent_jobs
unfolding cancel_found cancelled_job
cancel-active l i none jobs h = h
cancel-active l i (some j) jobs h = elim (Bool-cases (is_done j.phase)) [
  | inl d ↦ rw d h
  | inr d ↦ rw d (omega (arith, h, count-change i cancelled_job jobs (λ x e. ground arith)))
]

step-active :
    (l : Limits) (e : Event) (jobs : List Job)
    → active_count jobs ≤ l.max_concurrent_jobs
    → active_count (step l e jobs) ≤ l.max_concurrent_jobs
unfolding step start admit finish cancel on_chunk cancel_found cancelled_job
step-active l (starts i command timeout) jobs h =
    ground (arith, h, count-append (λ (j : Job). is_active j.phase) jobs (new_job i ∷ []))
step-active l (admits i) jobs h = ground (arith, h, count-activate i jobs)
step-active l (spawns i pid) jobs h = omega (
  arith,
  h,
  count-change i (λ j. if is_active j.phase then spawned pid j else j) jobs (λ j e. ground arith),
)
step-active l (writes i c) jobs h = omega (
  arith,
  h,
  count-change i (λ j. if is_active j.phase then on_chunk l c j else j) jobs (λ j e. ground arith),
)
step-active l (finishes i e) jobs h = omega (
  arith,
  h,
  count-change i (λ j. if is_active j.phase then finish e j else j) jobs (λ j k. ground arith),
)
step-active l (cancels i) jobs h = cancel-active l i (find (named i) jobs) jobs h

run-active :
    (l : Limits) (es : List Event) (jobs : List Job)
    → active_count jobs ≤ l.max_concurrent_jobs
    → active_count (run l es jobs) ≤ l.max_concurrent_jobs
unfolding run
run-active l [] jobs h = h
run-active l (e ∷ es) jobs h = run-active l es (step l e jobs) (step-active l e jobs h)

-- From no jobs, after any events: every job stores at most the limit of output bytes, and its counter
-- is the size of the chunks it stores; and at most the limit of jobs run at once.
pub limits_kept :
    (l : Limits) (es : List Event)
    → All (IsBounded l) (run l es []) × (active_count (run l es []) ≤ l.max_concurrent_jobs)
limits_kept l es = (run-Bounded l es [] tt, run-active l es [] (omega arith))
