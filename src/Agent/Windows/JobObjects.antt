-- ===== src/Agent/Windows/JobObjects.antt =====
-- `_NativeJobs` and `WindowsJobObjectManager` of src/gptlink/agent/executors/windows_process.py.
use gptlink.Common.Action.{Action, Outcome, err, gets, guarded, ok, pure, ◌>>=◌, ◌>>◌}
use gptlink.Common.Errors.{os_error}
use gptlink.Prelude.{
  Bool, Chars_eq, List, Option, String_eq, [], if◌then◌else◌, none, not, some, ℕ, ℕ_eq, ◌==◌, ◌∷◌,
  ◌≡◌,
}

-- the first of the equal handles goes
abbrev pub remove_one : ℕ → List ℕ → List ℕ
remove_one h [] = []
remove_one h (x ∷ xs) = if x == h then xs else x ∷ remove_one h xs

-- kernel32, over the state of the system: a handle that is 0 and an answer that is `false` are
-- failures, and `handles` are the handles of the Agent that are open
pub record Kernel (K : Type 0) : Type 0 where
  pub create_job : K → ℕ × K
  pub set_information : ℕ → K → Bool × K
  pub open_process : ℕ → K → ℕ × K
  pub assign_process : ℕ → ℕ → K → Bool × K
  pub terminate_job : ℕ → K → Bool × K
  pub close_handle : ℕ → K → K
  pub handles : K → List ℕ

-- What is documented of these calls: which of them open a handle, and which close one.
pub record IsDocumented {K : Type 0} (kernel : Kernel K) : Type 0 where
  pub created :
      (k : K)
      → let (h, k') = kernel.create_job k in
        kernel.handles k' ≡ (if h == 0 then kernel.handles k else h ∷ kernel.handles k)
  pub informed : (h : ℕ) (k : K) → kernel.handles (kernel.set_information h k).1 ≡ kernel.handles k
  pub opened :
      (p : ℕ) (k : K)
      → let (h, k') = kernel.open_process p k in
        kernel.handles k' ≡ (if h == 0 then kernel.handles k else h ∷ kernel.handles k)
  pub assigned :
      (j p : ℕ) (k : K) → kernel.handles (kernel.assign_process j p k).1 ≡ kernel.handles k
  pub terminated : (h : ℕ) (k : K) → kernel.handles (kernel.terminate_job h k).1 ≡ kernel.handles k
  pub closed :
      (h : ℕ) (k : K) → kernel.handles (kernel.close_handle h k) ≡ remove_one h (kernel.handles k)

abbrev pub answer : {K A : Type 0} → (K → A × K) → Action K A
answer f k = let (a, k') = f k in (ok a, k')

-- try: m  finally: cleanup
unfoldable pub finally : {S A : Type 0} → (S → S) → Action S A → Action S A
finally cleanup m s = let (o, s') = m s in (o, cleanup s')

-- try: m  except Exception: cleanup; raise
abbrev undone : {S A : Type 0} → (S → S) → Outcome A → S → Outcome A × S
undone cleanup (ok a) s = (ok a, s)
undone cleanup (err e) s = (err e, cleanup s)

unfoldable pub on_error : {S A : Type 0} → (S → S) → Action S A → Action S A
on_error cleanup m s = let (o, s') = m s in undone cleanup o s'

module _ {K : Type 0} (kernel : Kernel K) where
  -- AssignProcessToJobObject, and the handle of the process is closed
  unfoldable pub place : ℕ → ℕ → Action K Unit
  unfolding finally
  place job process =
      finally (kernel.close_handle process)
        (answer (kernel.assign_process job process) >>= λ done. guarded done os_error (pure tt))

  unfoldable pub fill : ℕ → ℕ → Action K ℕ
  unfolding place
  fill pid job = do
    limited ← answer (kernel.set_information job)
    guarded limited os_error (pure tt)
    process ← answer (kernel.open_process pid)
    guarded (not (process == 0)) os_error (place job process)
    pure job

  unfoldable pub create_and_assign : ℕ → Action K ℕ
  unfolding fill on_error
  create_and_assign pid = do
    job ← answer kernel.create_job
    guarded (not (job == 0)) os_error (on_error (kernel.close_handle job) (fill pid job))

  -- _NativeJobs.terminate
  unfoldable pub kill : ℕ → Action K Unit
  kill handle = answer (kernel.terminate_job handle) >>= λ done. guarded done os_error (pure tt)

-- WindowsJobObjectManager: `_jobs` is the list of pids with their handles
pub record Manager (K : Type 0) : Type 0 where
  pub system : K
  pub jobs : List (ℕ × ℕ)

abbrev pub get : ℕ → List (ℕ × ℕ) → Option ℕ
get pid [] = none
get pid ((p, h) ∷ jobs) = if p == pid then some h else get pid jobs

-- self._jobs.pop(pid, None): a pid is in the dictionary once at most
abbrev pub without : ℕ → List (ℕ × ℕ) → List (ℕ × ℕ)
without pid [] = []
without pid ((p, h) ∷ jobs) = if p == pid then jobs else (p, h) ∷ without pid jobs

-- a call of the manager
pub data Event : Type 0 where
  assigns : ℕ → Event
  terminates : ℕ → Event
  closes : ℕ → Event

abbrev pub on_system : {K A : Type 0} → Action K A → Action (Manager K) A
on_system m s = let (o, k) = m s.system in (o, record s { system = k })

module _ {K : Type 0} (kernel : Kernel K) where
  -- self._jobs[pid] = handle
  abbrev pub put : ℕ → ℕ → Action (Manager K) Unit
  put pid h s = (ok tt, record s { jobs = (pid, h) ∷ without pid s.jobs })

  abbrev pub drop_job : ℕ → Action (Manager K) Unit
  drop_job pid s = (ok tt, record s { jobs = without pid s.jobs })

  unfoldable pub assign : ℕ → Action (Manager K) Unit
  unfolding create_and_assign
  assign pid = on_system (create_and_assign kernel pid) >>= put pid

  abbrev pub ended : Option ℕ → Action (Manager K) Unit
  ended none = pure tt
  ended (some h) = on_system (finally (kernel.close_handle h) (kill kernel h))

  unfoldable pub terminate : ℕ → Action (Manager K) Unit
  unfolding finally kill
  terminate pid = gets (λ s. get pid s.jobs) >>= λ handle. drop_job pid >> ended handle

  abbrev pub let_go : Option ℕ → Action (Manager K) Unit
  let_go none = pure tt
  let_go (some h) = on_system (λ k. (ok tt, kernel.close_handle h k))

  unfoldable pub close : ℕ → Action (Manager K) Unit
  close pid = gets (λ s. get pid s.jobs) >>= λ handle. drop_job pid >> let_go handle

  unfoldable pub step : Event → Manager K → Manager K
  step (assigns pid) s = (assign pid s).1
  step (terminates pid) s = (terminate pid s).1
  step (closes pid) s = (close pid s).1

  unfoldable pub run : List Event → Manager K → Manager K
  run [] s = s
  run (e ∷ es) s = run es (step e s)
