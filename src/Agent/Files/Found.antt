-- ===== src/Agent/Files/Found.antt =====
-- About `FilesystemOperations.search` of src/gptlink/agent/filesystem/operations.py.
use gptlink.Agent.Paths.{Disk, FilePath, resolve_existing}
use gptlink.Agent.Paths.Containment.{is_inside}
use gptlink.Agent.Paths.Existing.{existing-cases}
use gptlink.Common.Types.{Capability_eq, filesystem_search}
use gptlink.Agent.Files.{
  FilesystemEntry, Reader, Settings, examine, is_bad_path, is_os_error, is_unicode_error, matched,
  quietly, readable, require, round, scan, search,
}
use gptlink.Common.Action.{Outcome, Outcome-cases, guarded, ok, pure, ◌>>=◌}
use gptlink.Prelude.{
  All, All-take, Bool-cases, Chars, Chars_eq, List, Option, Option-cases, String_eq, [], any, ap,
  append-nil, append_assoc, arith, false, inl, inr, leb, length, length-append, length-take, ltb,
  occurs, refl, some, suc, sym, take, true, zero, ℕ, ℕ_eq, ◌++◌, ◌+◌, ◌==◌, ◌||◌, ◌∙◌, ◌∷◌, ◌≡◌,
  ◌≤◌,
}

-- the entry of a round that found one
abbrev pub hit : Outcome (Option FilesystemEntry) → List FilesystemEntry
hit (ok (some e)) = e ∷ []
hit _ = []

take_nil : (n : ℕ) → take {A = FilesystemEntry} n [] ≡ []
take_nil zero = refl
take_nil (suc n) = refl

found_entry : {a b : FilesystemEntry} → ok (some a) ≡ ok (some b) → a ≡ b
found_entry h = ground arith

module _ (disk : Disk) (reader : Reader) (c : Settings) {S : Type 0} (query : Chars) (s : S) where
  -- the entries of all candidates that match, without a bound
  abbrev pub hits : List FilePath → List FilesystemEntry
  hits [] = []
  hits (x ∷ xs) = hit (round disk reader c query x s).0 ++ hits xs

  -- no candidate raises an exception that ends the search
  abbrev pub IsQuiet : List FilePath → Type 0
  IsQuiet xs =
      All (λ x. (o : Option FilesystemEntry) × (round disk reader c query x s ≡ (ok o, s))) xs

  scan_lem :
      (xs : List FilePath) (found : List FilesystemEntry) (room : ℕ)
      → length found + room ≡ c.max_search_results
      → IsQuiet xs
      → scan disk reader c query xs found s ≡ (ok (found ++ take room (hits xs)), s)
  unfolding scan ◌>>=◌ pure
  scan_lem [] found room h k =
      ap (λ t. (ok t, s)) (sym (append-nil found) ∙ ap (λ t. found ++ t) (sym (take_nil room)))
  scan_lem (x ∷ xs) found zero h k =
      let full : leb c.max_search_results (length found) ≡ true = ground (arith, h) in
      rw full (ap (λ t. (ok t, s)) (sym (append-nil found)))
  scan_lem (x ∷ xs) found (suc room) h k =
      let open_still : leb c.max_search_results (length found) ≡ false = ground (arith, h) in
      let (o, r) = k.0 in
      elim (Option-cases o) [
        | inl n ↦ rw (open_still, r, n) (scan_lem xs found (suc room) h k.1)
        | inr (e, n) ↦
            rw (open_still, r, n)
              (scan_lem xs (found ++ e ∷ []) room (omega (arith, h, length-append found (e ∷ [])))
                  k.1
                ∙ ap (λ t. (ok t, s)) (append_assoc found (e ∷ []) (take room (hits xs))))
      ]

  round_inside :
      (x : FilePath) (e : FilesystemEntry)
      → (round disk reader c query x s).0 ≡ ok (some e)
      → is_inside c.roots e.path ≡ true
  unfolding round quietly examine readable matched ◌>>=◌ pure
  round_inside x e h = elim (existing-cases disk c.roots x s) [
    | inl (p, r, i) ↦ elim (Bool-cases (reader.is_file p)) [
      | inr f ↦ cc (rw (r, f) at h)
      | inl f ↦ elim (Outcome-cases (reader.st_size p)) [
        | inr (x', z) ↦ cc (rw (r, f, z) at h)
        | inl (n, z) ↦ elim (Bool-cases (ltb c.max_read_bytes n)) [
          | inl big ↦ cc (rw (r, f, z, big) at h)
          | inr fits ↦ elim (Outcome-cases (reader.read_text p)) [
            | inr (x', t) ↦ elim (Bool-cases (is_os_error x' || is_unicode_error x')) [
              | inl b ↦ cc (rw (r, f, z, fits, t, b) at h)
              | inr b ↦ cc (rw (r, f, z, fits, t, b) at h)
            ]
            | inl (content, t) ↦ elim (Bool-cases (occurs query content)) [
              | inl o ↦
                  rw
                    (sym (
                      ap (λ (a : FilesystemEntry). a.path)
                        (found_entry (rw (r, f, z, fits, t, o, z) at h))))
                    i
              | inr o ↦ cc (rw (r, f, z, fits, t, o) at h)
            ]
          ]
        ]
      ]
    ]
    | inr (x', r) ↦ elim (Bool-cases (is_bad_path x')) [
      | inl b ↦ cc (rw (r, b) at h)
      | inr b ↦ cc (rw (r, b) at h)
    ]
  ]

  hits_inside : (xs : List FilePath) → All (λ e. is_inside c.roots e.path ≡ true) (hits xs)
  hits_inside [] = tt
  hits_inside (x ∷ xs) = elim (Outcome-cases (round disk reader c query x s).0) [
    | inr (e, h) ↦ rw h (hits_inside xs)
    | inl (o, h) ↦ elim (Option-cases o) [
      | inl n ↦ rw (h, n) (hits_inside xs)
      | inr (e, n) ↦ rw (h, n) (round_inside x e (rw n at h), hits_inside xs)
    ]
  ]

  -- A search with its capability, in a directory that the sandbox resolves, where no candidate raises
  -- an unexpected exception, returns the first matches of all candidates up to its limit: stopping
  -- early loses none and adds none. Each is in a root, and there are at most the limit.
  pub search_lem :
      (path root : FilePath)
      → any (λ x. x == filesystem_search) c.capabilities ≡ true
      → resolve_existing disk c.roots path s ≡ (ok root, s)
      → disk.is_dir root ≡ true
      → IsQuiet (reader.rglob root)
      → let found = take c.max_search_results (hits (reader.rglob root)) in
        (search disk reader c path query s ≡ (ok found, s))
        × (length found ≤ c.max_search_results)
        × All (λ e. is_inside c.roots e.path ≡ true) found
  unfolding search require ◌>>=◌ guarded pure
  search_lem path root held r d k = (
    rw (held, r, d) (scan_lem (reader.rglob root) [] c.max_search_results (omega arith) k),
    length-take c.max_search_results (hits (reader.rglob root)),
    All-take _ c.max_search_results (hits (reader.rglob root)) (hits_inside (reader.rglob root)),
  )
