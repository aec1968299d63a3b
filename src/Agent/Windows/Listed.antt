-- ===== src/Agent/Windows/Listed.antt =====
-- About the list of processes in src/gptlink/agent/executors/windows_process.py.
use gptlink.Agent.Windows.Processes.{WindowsProcessInfo, collect, info, list_processes, process_of}
use gptlink.Agent.Files.{require}
use gptlink.Common.Types.{Capability, Capability_eq, process_read}
use gptlink.Common.Action.{guarded, ok, pure, ◌>>=◌}
use gptlink.Prelude.{
  All, All-take, Chars, Chars_eq, List, Option, String_eq, [], any, ap, append-nil, append_assoc,
  arith, false, inl, inr, leb, length, length-append, length-take, negsuc, none, pos, refl, some,
  suc, sym, take, true, zero, ℕ, ℕ_eq, ℤ, ◌++◌, ◌+◌, ◌<◌, ◌==◌, ◌∙◌, ◌∷◌, ◌≡◌, ◌≤◌, ◌⊎◌,
}

-- a process that may be reported
abbrev pub IsShowable : WindowsProcessInfo → Type 0
IsShowable p = (0 < p.pid) × (0 < length p.command) × (length p.command ≤ 4096)

info-cases :
    (command : Chars) (n : Option ℤ)
    → length command ≤ 4096
    → (info command n ≡ []) ⊎ ((p : WindowsProcessInfo) × (info command n ≡ p ∷ []) × IsShowable p)
info-cases command none l = inl refl
info-cases [] (some n) l = inl refl
info-cases (c ∷ s) (some (negsuc n)) l = inl refl
info-cases (c ∷ s) (some (pos zero)) l = inl refl
info-cases (c ∷ s) (some (pos (suc n))) l =
    inr (record { pid = suc n; command = c ∷ s }, ground arith, (omega arith, omega arith, l))

module _ (int_of : Chars → Option ℤ) where
  process_of-cases :
      (row : List Chars)
      → (process_of int_of row ≡ [])
        ⊎ ((p : WindowsProcessInfo) × (process_of int_of row ≡ p ∷ []) × IsShowable p)
  unfolding process_of
  process_of-cases [] = inl refl
  process_of-cases (name ∷ []) = inl refl
  process_of-cases (name ∷ number ∷ more) =
      info-cases (take 4096 name) (int_of number) (length-take 4096 name)

  -- the processes of all rows, without a bound
  abbrev pub listed : List (List Chars) → List WindowsProcessInfo
  listed [] = []
  listed (row ∷ rows) = process_of int_of row ++ listed rows

  listed-IsShowable : (rows : List (List Chars)) → All IsShowable (listed rows)
  listed-IsShowable [] = tt
  listed-IsShowable (row ∷ rows) = elim (process_of-cases row) [
    | inl e ↦ rw e (listed-IsShowable rows)
    | inr (p, e, v) ↦ rw e (v, listed-IsShowable rows)
  ]

  take_zero : (xs results : List WindowsProcessInfo) → results ≡ results ++ take 0 xs
  take_zero xs results = sym (append-nil results)

  collect_lem :
      (max_results : ℕ) (rows : List (List Chars)) (results : List WindowsProcessInfo) (room : ℕ)
      → length results + room ≡ max_results
      → collect int_of max_results rows results ≡ results ++ take room (listed rows)
  unfolding collect
  collect_lem m [] results zero h = take_zero [] results
  collect_lem m [] results (suc room) h = sym (append-nil results)
  collect_lem m (row ∷ rows) results zero h =
      let full : leb m (length results) ≡ true = ground (arith, h) in
      rw full (take_zero (listed (row ∷ rows)) results)
  collect_lem m (row ∷ rows) results (suc room) h =
      let more : leb m (length results) ≡ false = ground (arith, h) in
      elim (process_of-cases row) [
        | inl e ↦ rw (more, e, append-nil results) (collect_lem m rows results (suc room) h)
        | inr (p, e, v) ↦
            rw (more, e)
              (collect_lem m rows (results ++ p ∷ []) room
                  (omega (arith, h, length-append results (p ∷ [])))
                ∙ append_assoc results (p ∷ []) (take room (listed rows)))
      ]

  -- With its capability, the Windows process list is, of the processes in all the rows that tasklist
  -- printed, the first ones up to the limit: stopping early loses none and a row that is skipped does
  -- not count. There are at most the limit, each with a positive pid and a command of 1 to 4096
  -- characters.
  pub list_processes_lem :
      {S : Type 0} (held : List Capability) (max_results : ℕ) (rows : List (List Chars)) (s : S)
      → any (λ x. x == process_read) held ≡ true
      → let shown = take max_results (listed rows) in
        (list_processes int_of held max_results (ok rows) s ≡ (ok shown, s))
        × (length shown ≤ max_results)
        × All IsShowable shown
  unfolding list_processes require ◌>>=◌ guarded pure
  list_processes_lem held m rows s h = (
    rw h (ap (λ t. (ok t, s)) (collect_lem m rows [] m (omega arith))),
    length-take m (listed rows),
    All-take _ m (listed rows) (listed-IsShowable rows),
  )
