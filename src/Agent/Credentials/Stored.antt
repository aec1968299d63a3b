-- ===== src/Agent/Credentials/Stored.antt =====
-- About the credential file of src/gptlink/agent/client.py.
use gptlink.Agent.Credentials.{
  Credential, Format, Saving, as_json, credential_of, is_whole, load, parsed, save,
}
use gptlink.Agent.Paths.{FilePath}
use gptlink.Agent.Files.Write.{
  Contents, replace_with, same_parts, same_path, set, store, then_unlink,
}
use gptlink.Agent.Files.Written.{IsFresh, IsUntouched, IsWritten}
use gptlink.Common.Json.{text}
use gptlink.Common.Action.{Outcome, Outcome-cases, err, guarded, is_ok, ok, pure, ◌>>=◌}
use gptlink.Prelude.{
  Bool, Bool-cases, List, Option, String, [], arith, eq_iff, false, inl, inr, none, refl, some,
  true, ℕ, ◌&&◌, ◌∙◌, ◌∷◌, ◌≡◌,
}
use gptlink.Common.Errors.{Exception}

-- What is relied on of JSON text: the text of the credential is read as it was written, and a text is
-- its own `str`.
pub record IsReadable (format : Format) (c : Credential) : Type 0 where
  pub loads-dumps : format.loads (format.dumps (as_json c)) ≡ some (as_json c)
  pub str_text : (t : String) → format.str (text t) ≡ t

same_parts_refl : (ps : List String) → same_parts ps ps ≡ true
same_parts_refl [] = refl
same_parts_refl (p ∷ ps) = ground (arith, eq_iff p p, same_parts_refl ps)

same_path_refl : (p : FilePath) → same_path p p ≡ true
same_path_refl p = elim (Bool-cases p.absolute) [
  | inl h ↦ rw (h, same_parts_refl p.parts) refl
  | inr h ↦ rw (h, same_parts_refl p.parts) refl
]

-- every step of the saving succeeds
abbrev pub all_well : Saving → Bool
all_well a =
    is_ok a.prepared && is_ok a.created && is_ok a.stored && is_ok a.replaced && is_ok a.restricted

is_ok-eq : (o : Outcome {0} Unit) → is_ok o ≡ true → o ≡ ok tt
is_ok-eq (ok u) h = refl
is_ok-eq (err e) h = ground (arith, h)

module _ (format : Format) (c : Credential) (readable : IsReadable format c)
    (temporary path : FilePath) (files : Contents) (f : IsFresh temporary path files) where
  open readable use {loads-dumps, str_text}

  parsed_back :
      (after : Contents)
      → is_whole format c ≡ true
      → credential_of format (as_json c) after ≡ (ok c, after)
  unfolding credential_of as_json ◌>>=◌ guarded pure
  parsed_back after whole =
      rw
        (str_text c.gateway, str_text c.device_id, str_text c.token, str_text c.display_name, whole)
        refl

  written_back :
      (after : Contents)
      → is_whole format c ≡ true
      → after path ≡ some (format.dumps (as_json c))
      → load format path after ≡ (ok c, after)
  unfolding load parsed
  written_back after whole h = rw (h, loads-dumps, parsed) (parsed_back after whole)

  saved :
      (a : Saving)
      → all_well a ≡ true
      → (save format temporary path a c files).0 ≡ ok tt
        × IsWritten path (format.dumps (as_json c)) files (save format temporary path a c files).1
  unfolding save store replace_with then_unlink ◌>>=◌
  saved a h =
      rw
        (
          is_ok-eq a.prepared (ground (arith, h)),
          is_ok-eq a.created (ground (arith, h)),
          is_ok-eq a.stored (ground (arith, h)),
          is_ok-eq a.replaced (ground (arith, h)),
          is_ok-eq a.restricted (ground (arith, h)),
        )
        (refl, λ q. ground (arith, f.unused q, f.apart q))

  removed :
      (left : Option (List ℕ)) (q : FilePath)
      → set temporary none (set temporary left files) q ≡ files q
  removed left q = ground (arith, f.unused q)

  unsaved :
      (a : Saving)
      → all_well a ≡ false
      → ((e : Exception) × ((save format temporary path a c files).0 ≡ err e))
        × (a.restricted ≡ ok tt → IsUntouched files (save format temporary path a c files).1)
  unfolding save store replace_with then_unlink ◌>>=◌
  unsaved a h = elim (Outcome-cases a.prepared) [
    | inr (e, p) ↦ rw p ((e, refl), λ r q. refl)
    | inl (u, p) ↦ elim (Outcome-cases a.created) [
      | inr (e, m) ↦ rw (p, m) ((e, refl), λ r q. refl)
      | inl (u, m) ↦ elim (Outcome-cases a.stored) [
        | inr (e, t) ↦ rw (p, m, t) ((e, refl), λ r. removed (some a.left))
        | inl (u, t) ↦ elim (Outcome-cases a.replaced) [
          | inr (e, w) ↦ rw (p, m, t, w) ((e, refl), λ r. removed (some (format.dumps (as_json c))))
          | inl (u, w) ↦ elim (Outcome-cases a.restricted) [
            | inr (e, x) ↦ rw (p, m, t, w, x) ((e, refl), λ r. cc r)
            | inl (u, x) ↦ cc (rw (p, m, t, w, x) at h)
          ]
        ]
      ]
    ]
  ]

  -- Where the temporary name is not the credential file's and is no file's, and JSON text is read as it
  -- was written: if every step of a saving succeeds, loading gives the very credential, whose four
  -- fields are not empty, and no other file has changed; if a step fails, saving raises, and unless that
  -- step is the last chmod every file is as before, so the former credential is still there.
  pub save_lem :
      (a : Saving)
      → is_whole format c ≡ true
      → let (o, files') = save format temporary path a c files in
        ((all_well a ≡ true)
          → (o ≡ ok tt)
            × (load format path files' ≡ (ok c, files'))
            × ((q : FilePath) → same_path q path ≡ false → files' q ≡ files q))
        × ((all_well a ≡ false)
            → ((e : Exception) × (o ≡ err e)) × (a.restricted ≡ ok tt → IsUntouched files files'))
  save_lem a whole = (
    λ h.
        let (done, there) = saved a h in
        (
          done,
          written_back (save format temporary path a c files).1 whole
              (there path ∙ (rw (same_path_refl path) refl)),
          λ q n. there q ∙ (rw n refl),
        ),
    unsaved a,
  )
