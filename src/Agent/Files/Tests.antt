-- ===== src/Agent/Files/Tests.antt =====
-- A small tree of files for src/gptlink/agent/filesystem/operations.py.
use gptlink.Agent.Files.Written.{IsAllowed, IsFresh, IsUntouched, IsWritten, write_lem}
use gptlink.Common.Types.{filesystem_search, filesystem_write, read_write}
use gptlink.Agent.Paths.{Disk, FilePath, resolve, resolve_existing}
use gptlink.Agent.Paths.Containment.{is_inside}
use gptlink.Agent.Files.{FilesystemEntry, Reader, Settings, quietly, require, round, search}
use gptlink.Agent.Files.Write.{Answers, Contents, same_parts, same_path, write}
use gptlink.Agent.Files.Found.{IsQuiet, hits, search_lem}
use gptlink.Common.Action.{err, ok, ◌>>=◌}
use gptlink.Common.Errors.{Exception, os_error}
use gptlink.Prelude.{
  All, Bool, Bool-cases, List, String, [], arith, codes, false, if◌then◌else◌, inl, inr, length,
  none, not, refl, some, take, true, ℕ, ◌∷◌, ◌≡◌, ◌≤◌, ◌⊎◌,
}

abbrev at_home : List String → FilePath
at_home ps = record { absolute = true; parts = "home" ∷ ps }

abbrev home : FilePath
home = at_home []

abbrev is_home : FilePath → Bool
is_home p = same_path p home

abbrev disk : Disk
disk = record {
  expanduser = λ p. ok p;
  resolve_strict = λ p. ok p;
  resolve = λ p. ok p;
  exists = λ p. true;
  is_dir = is_home;
}

-- a file outside the root, a file with the word, one without it, and one more with it
abbrev reader : Reader
reader = record {
  is_file = λ p. not (is_home p);
  st_size = λ p. ok 3;
  read_text = λ p. if same_path p (at_home ("b" ∷ [])) then err os_error else ok (codes "abc");
  iterdir = λ p. ok [];
  rglob = λ p.
      record { absolute = true; parts = "etc" ∷ [] }
      ∷ at_home ("a" ∷ [])
      ∷ at_home ("b" ∷ [])
      ∷ at_home ("c" ∷ [])
      ∷ at_home ("d" ∷ [])
      ∷ [];
  no_later = λ p q. true;
}

abbrev settings : Settings
settings = record {
  roots = home ∷ [];
  permission = read_write;
  capabilities = filesystem_write ∷ filesystem_search ∷ [];
  max_read_bytes = 10;
  max_write_bytes = 5;
  max_search_results = 2;
}

abbrev start : ℕ
start = 7

home_exists : resolve_existing disk settings.roots home start ≡ (ok home, start)
unfolding resolve_existing ◌>>=◌
home_exists = refl

abbrev entry : String → FilesystemEntry
entry n = record { name = n; path = at_home (n ∷ []); kind = "file"; size = 3 }

no_surprise : IsQuiet disk reader settings (codes "bc") start (reader.rglob home)
unfolding round ◌>>=◌ resolve_existing quietly
no_surprise = (
  (none, refl),
  (
    (some (entry "a"), refl),
    ((none, refl), ((some (entry "c"), refl), ((some (entry "d"), refl), tt))),
  ),
)

search_lem_example :
    let found = take 2 (hits disk reader settings (codes "bc") start (reader.rglob home)) in
    (search disk reader settings home (codes "bc") start ≡ (ok found, start))
    × (length found ≤ 2)
    × All (λ e. is_inside settings.roots e.path ≡ true) found
search_lem_example =
    search_lem disk reader settings (codes "bc") start home home refl home_exists refl no_surprise

abbrev empty : Contents
empty q = none

abbrev temporary_of : FilePath → FilePath
temporary_of t = record t { parts = "temporary" ∷ t.parts }

abbrev full_disk : Answers
full_disk = record { created = ok tt; stored = err os_error; left = 1 ∷ []; replaced = ok tt }

same_length : (ps qs : List String) → same_parts ps qs ≡ true → length ps ≡ length qs
same_length [] [] h = refl
same_length [] (q ∷ qs) h = ground arith
same_length (p ∷ ps) [] h = ground arith
same_length (p ∷ ps) (q ∷ qs) h = ground (arith, same_length ps qs)

same_path-length : (p q : FilePath) → same_path p q ≡ true → length p.parts ≡ length q.parts
same_path-length p q h = same_length p.parts q.parts (ground arith)

longer_apart : (t q : FilePath) → same_path q (temporary_of t) ≡ true → same_path q t ≡ false
longer_apart t q h = elim (Bool-cases (same_path q t)) [
  | inl k ↦ absurd (omega (arith, same_path-length q (temporary_of t) h, same_path-length q t k))
  | inr k ↦ k
]

empty-IsFresh : (t : FilePath) → IsFresh (temporary_of t) t empty
empty-IsFresh t = record { unused = λ q h. refl; apart = longer_apart t }

write_lem_example :
    let (o, files) =
      write disk settings (λ t. t) (at_home ("a" ∷ [])) (1 ∷ 2 ∷ []) temporary_of full_disk empty in
    ((target : FilePath) × (o ≡ ok tt)
      × IsWritten target (1 ∷ 2 ∷ []) empty files
      × IsAllowed disk settings (λ t. t) target (1 ∷ 2 ∷ []))
    ⊎ ((e : Exception) × (o ≡ err e) × IsUntouched empty files)
write_lem_example =
    write_lem disk settings (λ t. t) (at_home ("a" ∷ [])) (1 ∷ 2 ∷ []) temporary_of full_disk empty
      empty-IsFresh

-- with a file system that does all, the file is there
abbrev good_disk : Answers
good_disk = record { created = ok tt; stored = ok tt; left = []; replaced = ok tt }

file_there :
    let (o, files) =
      write disk settings (λ t. t) (at_home ("a" ∷ [])) (1 ∷ 2 ∷ []) temporary_of good_disk empty in
    (o ≡ ok tt) × (files (at_home ("a" ∷ [])) ≡ some (1 ∷ 2 ∷ []))
unfolding write require ◌>>=◌ resolve
file_there = (refl, refl)
