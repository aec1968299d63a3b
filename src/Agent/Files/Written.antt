-- ===== src/Agent/Files/Written.antt =====
-- About `FilesystemOperations.write` of src/gptlink/agent/filesystem/operations.py.
use gptlink.Agent.Paths.{Disk, FilePath}
use gptlink.Agent.Paths.Containment.{is_inside}
use gptlink.Agent.Files.{Settings, denied, parent, require}
use gptlink.Agent.Paths.Existing.{resolve-cases}
use gptlink.Agent.Files.Write.{
  Answers, Contents, place, replace_with, same_path, set, store, then_unlink, write,
}
use gptlink.Common.Types.{Capability_eq, filesystem_write, is_read_only}
use gptlink.Common.Action.{Outcome, Outcome-cases, err, guarded, ok, pure, raise, ◌>>=◌}
use gptlink.Common.Errors.{Exception}
use gptlink.Prelude.{
  Bool-cases, Chars, Chars_eq, List, Option, String_eq, any, arith, false, if◌then◌else◌, inl, inr,
  length, ltb, none, refl, some, true, ℕ, ℕ_eq, ◌==◌, ◌≡◌, ◌≤◌, ◌⊎◌,
}

-- no file has the temporary name, and it is not the target's
pub record IsFresh (temporary target : FilePath) (files : Contents) : Type 0 where
  pub unused : (q : FilePath) → same_path q temporary ≡ true → files q ≡ none
  pub apart : (q : FilePath) → same_path q temporary ≡ true → same_path q target ≡ false

-- the target holds the bytes, and every other file is as before
abbrev pub IsWritten : FilePath → List ℕ → Contents → Contents → Type 0
IsWritten target bytes files files' =
    (q : FilePath) → files' q ≡ (if same_path q target then some bytes else files q)

abbrev pub IsUntouched : Contents → Contents → Type 0
IsUntouched files files' = (q : FilePath) → files' q ≡ files q

abbrev Placed : FilePath → List ℕ → Contents → Outcome {0} Unit × Contents → Type 0
Placed target bytes files r =
    ((r.0 ≡ ok tt) × IsWritten target bytes files r.1)
    ⊎ ((e : Exception) × (r.0 ≡ err e) × IsUntouched files r.1)

module _ (temporary target : FilePath) (bytes : List ℕ) (files : Contents)
    (f : IsFresh temporary target files) where
  unlinked :
      (left : Option (List ℕ)) (q : FilePath)
      → set temporary none (set temporary left files) q ≡ files q
  unlinked left q = ground (arith, f.unused q)

  place_lem :
      (a : Answers) (o : Outcome {0} Unit)
      → Placed target bytes files (place temporary target bytes a o files)
  unfolding place store then_unlink replace_with raise
  place_lem a (err e) = inr (e, refl, λ q. refl)
  place_lem a (ok u) = elim (Outcome-cases a.stored) [
    | inl (u, h) ↦ elim (Outcome-cases a.replaced) [
      | inl (u, k) ↦ rw (h, k) (inl (refl, λ q. ground (arith, f.unused q, f.apart q)))
      | inr (e, k) ↦ rw (h, k) (inr (e, refl, unlinked (some bytes)))
    ]
    | inr (e, h) ↦ rw h (inr (e, refl, unlinked (some a.left)))
  ]

module _ (disk : Disk) (c : Settings) (encode : Chars → List ℕ) where
  -- what a write that succeeds was allowed
  abbrev pub IsAllowed : FilePath → Chars → Type 0
  IsAllowed target text =
      (any (λ x. x == filesystem_write) c.capabilities ≡ true)
      × (is_read_only c.permission ≡ false)
      × (length (encode text) ≤ c.max_write_bytes)
      × (is_inside c.roots target ≡ true)

  abbrev Ended : Chars → Contents → Outcome {0} Unit × Contents → Type 0
  Ended text files r =
      ((target : FilePath) × (r.0 ≡ ok tt)
        × IsWritten target (encode text) files r.1
        × IsAllowed target text)
      ⊎ ((e : Exception) × (r.0 ≡ err e) × IsUntouched files r.1)

  -- Where the temporary name is not the target's and is no file's, a write either succeeds or leaves
  -- every file as it was, wherever the file system fails: while the temporary file is created, written
  -- or moved. When it succeeds, one file inside a root holds the encoded text, every other is as
  -- before, the capability is held, the policy is not READ_ONLY and the text is within the limit.
  pub write_lem :
      (path : FilePath) (text : Chars) (temporary : FilePath → FilePath) (a : Answers)
      → (files : Contents) → ((target : FilePath) → IsFresh (temporary target) target files)
      → let (o, files') = write disk c encode path text temporary a files in
        ((target : FilePath) × (o ≡ ok tt)
          × IsWritten target (encode text) files files'
          × IsAllowed target text)
        ⊎ ((e : Exception) × (o ≡ err e) × IsUntouched files files')
  unfolding write require ◌>>=◌ guarded pure
  write_lem path text temporary a files fresh =
      elim (Bool-cases (any (λ x. x == filesystem_write) c.capabilities))
        as (λ _. Ended text files (write disk c encode path text temporary a files)) [
          | inr h ↦ rw h (inr (denied filesystem_write, refl, λ q. refl))
          | inl h ↦ elim (Bool-cases (is_read_only c.permission)) [
            | inl k ↦ rw (h, k) (inr (_, refl, λ q. refl))
            | inr k ↦ elim (Bool-cases (ltb c.max_write_bytes (length (encode text)))) [
              | inl m ↦ rw (h, k, m) (inr (_, refl, λ q. refl))
              | inr m ↦ elim (resolve-cases disk c.roots path files) [
                | inr (e, r) ↦ rw (h, k, m, r) (inr (e, refl, λ q. refl))
                | inl (t, r, inside) ↦
                    rw (h, k, m, r)
                      (elim (resolve-cases disk c.roots (parent t) files) [
                        | inr (e, v) ↦ rw v (inr (e, refl, λ q. refl))
                        | inl (d, v, _) ↦ elim (Bool-cases (disk.is_dir d)) [
                          | inr n ↦ rw (v, n) (inr (_, refl, λ q. refl))
                          | inl n ↦
                              rw (v, n)
                                (elim (place_lem (temporary t) t (encode text) files (fresh t) a
                                  a.created) [
                                    | inl (o, w) ↦
                                        inl (t, o, w, (refl, refl, ground (arith, m), inside))
                                    | inr bad ↦ inr bad
                                  ])
                        ]
                      ])
              ]
            ]
          ]
        ]
