-- ===== src/Agent/Wsl/Confined.antt =====
-- About the directory of a command, in src/gptlink/agent/executors/wsl.py.
use gptlink.Agent.Wsl.{PosixPath, as_posix, checked_cwd, is_within, real_roots, realpath, run}
use gptlink.Common.Action.{Action, Outcome, Outcome-cases, guarded, ok, ◌>>=◌}
use gptlink.Prelude.{Bool-cases, Chars, List, Option, any, inl, inr, refl, true, ◌≡◌}

module _ (allowed_roots : List PosixPath) (readlink : Chars → Option (Outcome Chars))
    {S A : Type 0} where
  -- A command starts only in a directory whose real path lies in the real path of an allowed root: with
  -- two ways to start that agree on all such directories, the executor does the same, whatever they do
  -- elsewhere.
  pub run_confined :
      (start start' : Chars → Action S A) (cwd : Chars) (s : S)
      → ((p : PosixPath) (roots : List PosixPath) (t u : S)
          → (real_roots allowed_roots readlink allowed_roots t).0 ≡ ok roots
          → any (λ root. is_within root p) roots ≡ true
          → start (as_posix p) u ≡ start' (as_posix p) u)
      → run allowed_roots readlink start cwd s ≡ run allowed_roots readlink start' cwd s
  unfolding run ◌>>=◌ guarded
  run_confined start start' cwd s agree =
      elim (Outcome-cases (checked_cwd allowed_roots cwd s).0)
        as (λ _. run allowed_roots readlink start cwd s ≡ run allowed_roots readlink start' cwd s) [
          | inr (e, h) ↦ rw h refl
          | inl (checked, h) ↦
              let s1 = (checked_cwd allowed_roots cwd s).1 in
              elim (Outcome-cases (realpath allowed_roots readlink checked s1).0) [
                | inr (e, k) ↦ rw (h, k) refl
                | inl (p, k) ↦
                    let s2 = (realpath allowed_roots readlink checked s1).1 in
                    elim (Outcome-cases (real_roots allowed_roots readlink allowed_roots s2).0) [
                      | inr (e, m) ↦ rw (h, k, m) refl
                      | inl (roots, m) ↦ elim (Bool-cases (any (λ root. is_within root p) roots)) [
                        | inr out ↦ rw (h, k, m, out) refl
                        | inl inside ↦ rw (h, k, m, inside) (agree p roots s2 _ m inside)
                      ]
                    ]
              ]
        ]
