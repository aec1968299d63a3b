-- ===== src/Agent/Paths/Existing.antt =====
-- The outcomes of `resolve` and `resolve_existing` of src/gptlink/agent/filesystem/paths.py.
use gptlink.Agent.Paths.{Disk, FilePath, resolve, resolve_existing}
use gptlink.Agent.Paths.Containment.{is_inside, resolve_lem}
use gptlink.Common.Action.{Outcome-cases, err, guarded, ok, pure, raise, ◌>>=◌}
use gptlink.Common.Errors.{Exception, sandbox_error}
use gptlink.Prelude.{Bool-cases, List, inl, inr, refl, true, ◌≡◌, ◌⊎◌}

module _ (disk : Disk) (roots : List FilePath) {S : Type 0} (path : FilePath) (s : S) where
  resolve_state : (resolve disk roots path s).1 ≡ s
  unfolding resolve ◌>>=◌ guarded pure raise
  resolve_state = elim (Outcome-cases (disk.expanduser path)) [
    | inl (p, h) ↦ elim (Bool-cases p.absolute) [
      | inl k ↦ elim (Outcome-cases (disk.resolve p)) [
        | inl (q, r) ↦ elim (Bool-cases (is_inside roots q)) [
          | inl i ↦ rw (h, r, k, i) refl
          | inr i ↦ rw (h, r, k, i) refl
        ]
        | inr (e, r) ↦ rw (h, r, k) refl
      ]
      | inr k ↦ rw (h, k) refl
    ]
    | inr (e, h) ↦ rw h refl
  ]

  -- resolving keeps the state, and gives a path inside a root or raises
  pub resolve-cases :
      ((p : FilePath) × (resolve disk roots path s ≡ (ok p, s)) × (is_inside roots p ≡ true))
      ⊎ ((e : Exception) × (resolve disk roots path s ≡ (err e, s)))
  resolve-cases = elim (Outcome-cases (resolve disk roots path s).0) [
    | inl (p, h) ↦
        let whole : resolve disk roots path s ≡ (ok p, s) = pair h resolve_state in
        inl (p, whole, (resolve_lem disk roots path p s s whole).0)
    | inr (e, h) ↦ inr (e, pair h resolve_state)
  ]
    where
      pair : {A B : Type 0} {r : A × B} {a : A} {b : B} → r.0 ≡ a → r.1 ≡ b → r ≡ (a, b)
      pair h k = cc (h, k)

  pub existing-cases :
      ((p : FilePath) × (resolve_existing disk roots path s ≡ (ok p, s))
        × (is_inside roots p ≡ true))
      ⊎ ((e : Exception) × (resolve_existing disk roots path s ≡ (err e, s)))
  unfolding resolve_existing ◌>>=◌ guarded pure
  existing-cases = elim resolve-cases [
    | inl (p, r, i) ↦ elim (Bool-cases (disk.exists p)) [
      | inl x ↦ inl (p, rw (r, x) refl, i)
      | inr x ↦ inr (sandbox_error "path does not exist", rw (r, x) refl)
    ]
    | inr (e, r) ↦ inr (e, rw r refl)
  ]
