-- ===== src/Agent/Tests.antt =====
-- A path in a sandbox on a disk that resolves each path to itself.
use gptlink.Agent.Paths.Containment.{is_inside, resolve_lem}
use gptlink.Agent.Paths.{Disk, FilePath, resolve}
use gptlink.Prelude.{[], refl, true, ℕ, ◌∷◌, ◌≡◌}
use gptlink.Common.Action.{ok, ◌>>=◌}

abbrev disk : Disk
disk = record {
  expanduser = λ p. ok p;
  resolve_strict = λ p. ok p;
  resolve = λ p. ok p;
  exists = λ p. true;
  is_dir = λ p. true;
}

abbrev home : FilePath
home = record { absolute = true; parts = "home" ∷ "me" ∷ [] }

abbrev notes : FilePath
notes = record { absolute = true; parts = "home" ∷ "me" ∷ "notes" ∷ [] }

abbrev start : ℕ
start = 5

notes_resolved : resolve disk (home ∷ []) notes start ≡ (ok notes, start)
unfolding resolve ◌>>=◌
notes_resolved = refl

resolve_lem_example : (is_inside (home ∷ []) notes ≡ true) × (start ≡ start)
resolve_lem_example = resolve_lem disk (home ∷ []) notes notes start start notes_resolved
