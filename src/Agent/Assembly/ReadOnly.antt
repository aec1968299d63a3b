-- ===== src/Agent/Assembly/ReadOnly.antt =====
-- About an Agent that src/gptlink/agent/runtime.py assembles, with the writing of
-- src/gptlink/agent/filesystem/operations.py.
use gptlink.Agent.Files.Write.{Answers, Contents, write}
use gptlink.Agent.Files.Written.{IsFresh, IsUntouched, write_lem}
use gptlink.Agent.Assembly.{
  Built, Services, assembled, bare, build_agent, build_linux_agent, build_windows_agent,
  linux_capabilities, services_of, shells_of, windows_capabilities,
}
use gptlink.Common.Config.{Settings}
use gptlink.Agent.Paths.{Disk, FilePath, sandbox}
use gptlink.Common.Types.{
  Capability, Capability_eq, PermissionLevel, ShellKind, bash, cmd, filesystem_write, full_access,
  is_read_only, may_mutate, powershell, read_only, read_write, wsl,
}
use gptlink.Common.Action.{Outcome-cases, err, ok, pure, ◌>>=◌}
use gptlink.Prelude.{
  Bool, Chars, Chars_eq, List, String_eq, [], any, arith, false, if◌then◌else◌, inl, inr, refl,
  some, true, ℕ, ℕ_eq, ◌==◌, ◌∷◌, ◌≡◌, ◌⊎◌,
}
use gptlink.Common.Errors.{Exception}

abbrev pub is_writing : List Capability → Bool
is_writing = any (λ x. x == filesystem_write)

shells_quiet : (shells : List ShellKind) → is_writing (shells_of shells) ≡ false
shells_quiet [] = refl
shells_quiet (bash ∷ shells) = shells_quiet shells
shells_quiet (powershell ∷ shells) = shells_quiet shells
shells_quiet (cmd ∷ shells) = shells_quiet shells
shells_quiet (wsl ∷ shells) = shells_quiet shells

-- what is built: services with the level and the roots of the sandbox
abbrev IsBuilt : Settings → List Capability → Built → Type 0
IsBuilt s held b =
    (b ≡ bare)
    ⊎ ((roots : List FilePath) × (b ≡ record {
      capabilities = held;
      services = some (services_of roots s.agent_permission_level held s);
    }))

module _ (disk : Disk) {S : Type 0} where
  assembled_lem :
      (held : List Capability) (s : Settings) (roots : List FilePath) (t : S) (b : Built)
      → (assembled disk held s roots t).0 ≡ ok b
      → IsBuilt s held b
  unfolding ◌>>=◌ pure
  assembled_lem held s [] t b h = inl (ground (arith, h))
  assembled_lem held s (r ∷ rs) t b h = elim (Outcome-cases (sandbox disk (r ∷ rs) t).0) [
    | inl (roots, e) ↦ inr (roots, ground (arith, (rw e at h)))
    | inr (x, e) ↦ cc (rw e at h)
  ]

  built_lem :
      (nt : Bool) (shells : List ShellKind) (s : Settings) (t : S) (b : Built)
      → (build_agent disk nt shells s t).0 ≡ ok b
      → IsBuilt s (if nt then windows_capabilities shells s else linux_capabilities s) b
  unfolding build_agent build_linux_agent build_windows_agent
  built_lem true shells s t b h =
      assembled_lem (windows_capabilities shells s) s s.agent_roots t b h
  built_lem false shells s t b h = assembled_lem (linux_capabilities s) s s.agent_roots t b h

may_write_quiet : (level : PermissionLevel) → is_read_only level ≡ true → may_mutate level ≡ false
may_write_quiet read_only h = refl
may_write_quiet read_write h = cc h
may_write_quiet full_access h = cc h

linux_quiet :
    (s : Settings) (roots : List FilePath)
    → s.agent_roots ≡ roots
    → is_read_only s.agent_permission_level ≡ true
    → is_writing (linux_capabilities s) ≡ false
unfolding linux_capabilities
linux_quiet s [] e h = rw e refl
linux_quiet s (r ∷ rs) e h = rw (e, may_write_quiet s.agent_permission_level h) refl

windows_quiet :
    (shells : List ShellKind) (s : Settings)
    → is_read_only s.agent_permission_level ≡ true
    → is_writing (windows_capabilities shells s) ≡ false
unfolding windows_capabilities
windows_quiet shells s h = rw (may_write_quiet s.agent_permission_level h) (shells_quiet shells)

held_quiet :
    (nt : Bool) (shells : List ShellKind) (s : Settings)
    → is_read_only s.agent_permission_level ≡ true
    → is_writing (if nt then windows_capabilities shells s else linux_capabilities s) ≡ false
held_quiet true shells s h = windows_quiet shells s h
held_quiet false shells s h = linux_quiet s s.agent_roots refl h

some_eq : {a b : Services} → some a ≡ some b → a ≡ b
some_eq h = ground (arith, h)

-- a write of the services that an Agent has changes nothing
abbrev pub Refuses : Disk → Services → Type 0
Refuses disk v =
    (encode : Chars → List ℕ) (path : FilePath) (content : Chars) (temporary : FilePath → FilePath)
    (a : Answers) (files : Contents)
    → ((target : FilePath) → IsFresh (temporary target) target files)
    → let (o, files') = write disk v.files encode path content temporary a files in
      ((e : Exception) × (o ≡ err e)) × IsUntouched files files'

module _ (disk : Disk) where
  services_refuse :
      (roots : List FilePath) (level : PermissionLevel) (held : List Capability) (s : Settings)
      → is_writing held ≡ false
      → Refuses disk (services_of roots level held s)
  unfolding services_of
  services_refuse roots level held s quiet encode path content temporary a files fresh =
      elim (write_lem disk (services_of roots level held s).files encode path content temporary a
        files fresh) [
          | inl (t, o, w, allowed) ↦ absurd (cc (allowed.0, quiet))
          | inr (e, o, u) ↦ ((e, o), u)
        ]

  -- An Agent that is assembled with the level READ_ONLY, on Linux or Windows, does not announce the
  -- capability to write files, its services hold the capabilities that it announces, and every write
  -- that they are asked for raises and leaves all files as they were.
  pub read_only_agent :
      {S : Type 0} (nt : Bool) (shells : List ShellKind) (s : Settings) (t : S) (b : Built)
      (v : Services)
      → (build_agent disk nt shells s t).0 ≡ ok b
      → b.services ≡ some v
      → is_read_only s.agent_permission_level ≡ true
      → (is_writing b.capabilities ≡ false)
        × (v.files.capabilities ≡ b.capabilities)
        × Refuses disk v
  unfolding services_of
  read_only_agent nt shells s t b v h k r = elim (built_lem disk nt shells s t b h) [
    | inl e ↦ cc (rw e at k)
    | inr (roots, e) ↦
        let held = if nt then windows_capabilities shells s else linux_capabilities s in
        let same : services_of roots s.agent_permission_level held s ≡ v = some_eq (rw e at k) in
        let quiet = held_quiet nt shells s r in
        rw (e, ← same) (quiet, refl, services_refuse roots s.agent_permission_level held s quiet)
  ]
