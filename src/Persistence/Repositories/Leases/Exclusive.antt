-- ===== src/Persistence/Repositories/Leases/Exclusive.antt =====
-- An invariant of the lease table under `LeaseRepository` of
-- src/gptlink/persistence/repositories.py.
use gptlink.Prelude.{
  Chars_eq, String_eq, [], arith, count, count-append, count-eq-zero_of_any, count-update-le,
  eqb_iff, is_none, leb, some, ℕ, ℕ_eq, ◌&&◌, ◌==◌, ◌∷◌, ◌≤◌,
}
use gptlink.Common.Errors.{Exception, integrity_error}
use gptlink.Common.Action.Keeps.{Keeps, keeps_rules}
use gptlink.Persistence.Models.{Lease, Tables, is_unreleased}
use gptlink.Persistence.Repositories.Leases.{
  acquire, add, conflict_or, get, get_active, release, retire_expired,
}

abbrev pub Exclusive : Tables → Type 0
Exclusive t = (d : ℕ) → count (is_unreleased d) t.leases ≤ 1

-- Retiring and releasing make no lease unreleased.
retire_expired-Exclusive : (d now : ℕ) → Keeps Exclusive (retire_expired d now)
unfolding retire_expired
retire_expired-Exclusive d now = record {
  after = λ t h e.
      let le =
        count-update-le (is_unreleased e) (λ x. is_unreleased d x && leb x.expires_at now)
          (λ x. record x { released_at = some x.expires_at }) t.leases (λ x u. ground arith) in
      omega (arith, le, h e);
}

pub release-Exclusive : (i now : ℕ) → Keeps Exclusive (release i now)
unfolding release
release-Exclusive i now = record {
  after = λ t h d.
      let le =
        count-update-le (is_unreleased d) (λ x. (x.lease_id == i) && is_none x.released_at)
          (λ x. record x { released_at = some now }) t.leases (λ x u. ground arith) in
      omega (arith, le, h d);
}

add-Exclusive : (l : Lease) → Keeps Exclusive (add l)
unfolding add
add-Exclusive l = record {
  after = λ t h d. ground (
    arith,
    h d,
    count-append (is_unreleased d) t.leases (l ∷ []),
    count-eq-zero_of_any (is_unreleased d) t.leases,
    eqb_iff l.device_id d,
  );
}

get_active-Exclusive : (d now : ℕ) → Keeps Exclusive (get_active d now)
unfolding get_active
get_active-Exclusive d now = record { after = λ t h. h }

pub get-Exclusive : (i : ℕ) → Keeps Exclusive (get i)
unfolding get
get-Exclusive i = record { after = λ t h. h }

ruleset parts =
    (keeps_rules, retire_expired-Exclusive, add-Exclusive, get_active-Exclusive, get-Exclusive)

conflict_or-Exclusive : (d now : ℕ) (e : Exception) → Keeps Exclusive (conflict_or d now e)
unfolding conflict_or
conflict_or-Exclusive d now integrity_error = search parts
conflict_or-Exclusive d now e = search parts

pub acquire-Exclusive : (l : Lease) (now : ℕ) → Keeps Exclusive (acquire l now)
unfolding acquire
acquire-Exclusive l now = search (parts, conflict_or-Exclusive) depth 9

pub ruleset exclusive_rules = (keeps_rules, get-Exclusive, acquire-Exclusive, release-Exclusive)
