-- ===== src/Agent/Paths/Containment.antt =====
-- About `SandboxPaths.resolve` of src/gptlink/agent/filesystem/paths.py.
use gptlink.Agent.Paths.{Disk, FilePath, is_relative_to, resolve}
use gptlink.Prelude.{Bool, Bool-cases, List, any, inl, inr, refl, true, ◌≡◌}
use gptlink.Common.Action.{Outcome, err, ok, ◌>>=◌}

-- the path lies in a root of the list
abbrev pub is_inside : List FilePath → FilePath → Bool
is_inside roots p = any (λ root. is_relative_to root p) roots

module _ (disk : Disk) {S : Type 0} (roots : List FilePath) (path p : FilePath) (s s' : S) where
  resolved_sound :
      (c : FilePath) (d : Outcome FilePath)
      → disk.expanduser path ≡ ok c
      → disk.resolve c ≡ d
      → resolve disk roots path s ≡ (ok p, s')
      → (is_inside roots p ≡ true) × (s' ≡ s)
  unfolding resolve ◌>>=◌
  resolved_sound c (err e) h k r =
      elim (Bool-cases c.absolute) as (λ _. (is_inside roots p ≡ true) × (s' ≡ s)) [
        | inl rooted ↦ cc (rw (h, k, rooted) at r)
        | inr loose ↦ cc (rw (h, loose) at r)
      ]
  resolved_sound c (ok q) h k r =
      elim (Bool-cases c.absolute) as (λ _. (is_inside roots p ≡ true) × (s' ≡ s)) [
        | inl rooted ↦
            elim (Bool-cases (is_inside roots q)) as (λ _. (is_inside roots p ≡ true) × (s' ≡ s)) [
              | inl in_root ↦ (let e = rw (h, k, rooted, in_root) at r in (cc (e, in_root), cc e))
              | inr out ↦ cc (rw (h, k, rooted, out) at r)
            ]
        | inr loose ↦ cc (rw (h, loose) at r)
      ]

  expanded_sound :
      (c : Outcome FilePath)
      → disk.expanduser path ≡ c
      → resolve disk roots path s ≡ (ok p, s')
      → (is_inside roots p ≡ true) × (s' ≡ s)
  unfolding resolve ◌>>=◌
  expanded_sound (err e) h r = cc (rw h at r)
  expanded_sound (ok c) h r = resolved_sound c _ h refl r

  -- A path that the sandbox resolves lies in one of its roots, whatever the file system answers.
  pub resolve_lem : resolve disk roots path s ≡ (ok p, s') → (is_inside roots p ≡ true) × (s' ≡ s)
  resolve_lem r = expanded_sound _ refl r
