-- ===== src/Agent/Windows/Handles.antt =====
-- About the handles of `WindowsJobObjectManager` in
-- src/gptlink/agent/executors/windows_process.py: which of them are open.
use gptlink.Agent.Windows.JobObjects.{
  Event, IsDocumented, Kernel, Manager, assign, assigns, close, closes, create_and_assign, fill,
  finally, get, kill, on_error, place, remove_one, run, step, terminate, terminates, without,
}
use gptlink.Common.Action.{Outcome, Outcome-cases, err, guarded, ok, pure, ◌>>=◌}
use gptlink.Prelude.{
  Bool-cases, Chars_eq, List, Option-cases, String_eq, [], arith, before, count, if◌then◌else◌, inl,
  inr, none, refl, some, ℕ, ℕ_eq, ◌+◌, ◌<◌, ◌==◌, ◌∷◌, ◌≡◌,
}

-- the handles after an outcome: a job that is returned is the one more
abbrev Kept : Outcome ℕ → List ℕ → List ℕ → Type 0
Kept (ok h) after before = after ≡ h ∷ before
Kept (err e) after before = after ≡ before

module _ {K : Type 0} (kernel : Kernel K) (documented : IsDocumented kernel) where
  open documented use {created, informed, opened, assigned, terminated, closed}

  place_lem :
      (job process : ℕ) (k : K) (hs : List ℕ)
      → kernel.handles k ≡ process ∷ hs
      → kernel.handles (place kernel job process k).1 ≡ hs
  unfolding place ◌>>=◌ pure guarded
  place_lem job process k hs h = elim (Bool-cases (kernel.assign_process job process k).0) [
    | inl e ↦ rw e (
        ground
          (arith, closed process (kernel.assign_process job process k).1, assigned job process k))
    | inr e ↦ rw e (
        ground
          (arith, closed process (kernel.assign_process job process k).1, assigned job process k))
  ]

  -- a job is filled without another handle left, and what it returns is the job
  fill_lem :
      (pid job : ℕ) (k : K)
      → (kernel.handles (fill kernel pid job k).1 ≡ kernel.handles k)
        × ((h : ℕ) → (fill kernel pid job k).0 ≡ ok h → h ≡ job)
  unfolding fill ◌>>=◌ pure guarded
  fill_lem pid job k =
      let k1 = (kernel.set_information job k).1 in
      let (p, k2) = kernel.open_process pid k1 in
      elim (Bool-cases (kernel.set_information job k).0) [
        | inr e ↦ rw e (informed job k, λ h q. cc q)
        | inl e ↦ elim (Bool-cases (p == 0)) [
          | inl z ↦ rw (e, z) (ground (arith, informed job k, opened pid k1), λ h q. cc q)
          | inr z ↦ elim (Outcome-cases (place kernel job p k2).0) [
            | inl (u, o) ↦
                rw (e, z, o)
                  (
                    ground (
                      arith,
                      informed job k,
                      opened pid k1,
                      place_lem job p k2 (kernel.handles k),
                    ),
                    λ h q. cc q,
                  )
            | inr (x, o) ↦
                rw (e, z, o)
                  (
                    ground (
                      arith,
                      informed job k,
                      opened pid k1,
                      place_lem job p k2 (kernel.handles k),
                    ),
                    λ h q. cc q,
                  )
          ]
        ]
      ]

  -- Whatever kernel32 answers, of the handles that `create_and_assign` opens none stays open but that of
  -- the job which it returns.
  pub create_and_assign_lem :
      (pid : ℕ) (k : K)
      → let (o, k') = create_and_assign kernel pid k in
        Kept o (kernel.handles k') (kernel.handles k)
  unfolding create_and_assign on_error ◌>>=◌ guarded
  create_and_assign_lem pid k =
      let (job, k1) = kernel.create_job k in
      elim (Bool-cases (job == 0)) [
        | inl z ↦ rw z (ground (arith, created k))
        | inr z ↦ elim (Outcome-cases (fill kernel pid job k1).0) [
          | inl (h, o) ↦
              rw (z, o)
                (ground (arith, created k, fill_lem pid job k1, (fill_lem pid job k1).1 h o))
          | inr (e, o) ↦
              rw (z, o)
                (ground
                  (arith, created k, fill_lem pid job k1, closed job (fill kernel pid job k1).1))
        ]
      ]

abbrev occurrences : ℕ → List ℕ → ℕ
occurrences x = count (λ h. h == x)

abbrev kept_for : ℕ → List (ℕ × ℕ) → ℕ
kept_for x = count (λ j. j.1 == x)

remove_one-occurrences :
    (h x : ℕ) (hs : List ℕ)
    → 0 < occurrences h hs
    → occurrences x hs ≡ (if h == x then 1 else 0) + occurrences x (remove_one h hs)
remove_one-occurrences h x [] c = absurd (omega arith)
remove_one-occurrences h x (y ∷ hs) c = ground (arith, remove_one-occurrences h x hs)

without-kept_for :
    (pid h x : ℕ) (jobs : List (ℕ × ℕ))
    → get pid jobs ≡ some h
    → kept_for x jobs ≡ (if h == x then 1 else 0) + kept_for x (without pid jobs)
without-kept_for pid h x [] g = cc
without-kept_for pid h x ((p, k) ∷ jobs) g = ground (arith, without-kept_for pid h x jobs)

without-none : (pid : ℕ) (jobs : List (ℕ × ℕ)) → get pid jobs ≡ none → without pid jobs ≡ jobs
without-none pid [] g = refl
without-none pid ((p, k) ∷ jobs) g = ground (arith, without-none pid jobs)

module _ {K : Type 0} (kernel : Kernel K) where
  -- both ways of ending take the job's entry and its handle
  abbrev Released : ℕ → Manager K → Manager K → Type 0
  Released pid s s' =
      (s'.jobs ≡ without pid s.jobs)
      × ((get pid s.jobs ≡ none) → kernel.handles s'.system ≡ kernel.handles s.system)
      × ((h : ℕ)
          → get pid s.jobs ≡ some h
          → kernel.handles s'.system ≡ remove_one h (kernel.handles s.system))

  -- every open handle is that of a job in the dictionary, or one of the others
  abbrev pub Accounted : List ℕ → Manager K → Type 0
  Accounted others s =
      (x : ℕ) → occurrences x (kernel.handles s.system) ≡ kept_for x s.jobs + occurrences x others

  -- a process is assigned when no job has its pid
  abbrev pub IsFresh : Event → Manager K → Type 0
  IsFresh (assigns pid) s = get pid s.jobs ≡ none
  IsFresh (terminates pid) s = Unit
  IsFresh (closes pid) s = Unit

  abbrev pub AreFresh : List Event → Manager K → Type 0
  AreFresh [] s = Unit
  AreFresh (e ∷ es) s = IsFresh e s × AreFresh es (step kernel e s)

module _ {K : Type 0} (kernel : Kernel K) (documented : IsDocumented kernel) where
  open documented use {terminated, closed}

  kill_lem : (h : ℕ) (k : K) → kernel.handles (kill kernel h k).1 ≡ kernel.handles k
  unfolding kill ◌>>=◌ pure guarded
  kill_lem h k = elim (Bool-cases (kernel.terminate_job h k).0) [
    | inl e ↦ rw e (terminated h k)
    | inr e ↦ rw e (terminated h k)
  ]

  terminate_lem : (pid : ℕ) (s : Manager K) → Released kernel pid s (terminate kernel pid s).1
  unfolding terminate finally ◌>>=◌ pure
  terminate_lem pid s = elim (Option-cases (get pid s.jobs)) [
    | inl e ↦ rw e (refl, λ q. refl, λ h q. cc q)
    | inr (g, e) ↦ rw e (
      refl,
      λ q. cc q,
      λ h q. ground (arith, q, closed g (kill kernel g s.system).1, kill_lem g s.system),
    )
  ]

  close_lem : (pid : ℕ) (s : Manager K) → Released kernel pid s (close kernel pid s).1
  unfolding close ◌>>=◌ pure
  close_lem pid s = elim (Option-cases (get pid s.jobs)) [
    | inl e ↦ rw e (refl, λ q. refl, λ h q. cc q)
    | inr (g, e) ↦ rw e (refl, λ q. cc q, λ h q. ground (arith, q, closed g s.system))
  ]

  Released-Accounted :
      (others : List ℕ) (pid : ℕ) (s s' : Manager K)
      → Released kernel pid s s'
      → Accounted kernel others s
      → Accounted kernel others s'
  Released-Accounted others pid s s' r a x = elim (Option-cases (get pid s.jobs)) [
    | inl e ↦ ground (arith, a x, r.1 e, without-none pid s.jobs e)
    | inr (h, e) ↦
        let w = without-kept_for pid h h s.jobs e in
        let c : 0 < occurrences h (kernel.handles s.system) = ground (arith, a h, w) in
        ground (
          arith,
          a x,
          r.2 h e,
          without-kept_for pid h x s.jobs e,
          remove_one-occurrences h x (kernel.handles s.system) c,
        )
  ]

  assign-Accounted :
      (others : List ℕ) (pid : ℕ) (s : Manager K)
      → get pid s.jobs ≡ none
      → Accounted kernel others s
      → Accounted kernel others (assign kernel pid s).1
  unfolding assign ◌>>=◌
  assign-Accounted others pid s n a x =
      let l = create_and_assign_lem kernel documented pid s.system in
      elim (Outcome-cases (create_and_assign kernel pid s.system).0) [
        | inl (h, o) ↦
            let l' = (rw o at l) in rw o (ground (arith, a x, l', without-none pid s.jobs n))
        | inr (e, o) ↦ let l' = (rw o at l) in rw o (ground (arith, a x, l'))
      ]

  step-Accounted :
      (others : List ℕ) (e : Event) (s : Manager K)
      → IsFresh kernel e s
      → Accounted kernel others s
      → Accounted kernel others (step kernel e s)
  unfolding step
  step-Accounted others (assigns pid) s n a = assign-Accounted others pid s n a
  step-Accounted others (terminates pid) s n a =
      Released-Accounted others pid s _ (terminate_lem pid s) a
  step-Accounted others (closes pid) s n a = Released-Accounted others pid s _ (close_lem pid s) a

  -- If every handle that is open is that of a job in the dictionary or one of some others, each as often
  -- as it is there, this holds after any calls of `assign`, `terminate` and `close`, whatever kernel32
  -- answers, where a process is assigned only if no job has its pid: no failure leaks a handle of a job
  -- or of a process, and the others stay open.
  pub run-Accounted :
      (others : List ℕ) (es : List Event) (s : Manager K)
      → AreFresh kernel es s
      → Accounted kernel others s
      → Accounted kernel others (run kernel es s)
  unfolding run
  run-Accounted others [] s f a = a
  run-Accounted others (e ∷ es) s f a =
      run-Accounted others es (step kernel e s) f.1 (step-Accounted others e s f.0 a)
