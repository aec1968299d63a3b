-- ===== src/Gateway/Leases/Exclusion.antt =====
-- About who holds a lease, under any sequence of calls of src/gptlink/gateway/leases.py.
use gptlink.Prelude.{
  Bool-cases, Chars_eq, List, Option, String, String_eq, [], ap, arith, count, count-two, eq_iff,
  eqb_iff, find, inl, inr, none, refl, some, sym, true, ℕ, ℕ_eq, ℤ, ◌<◌, ◌==◌, ◌∙◌, ◌∷◌, ◌≡◌, ◌≤◌,
}
use gptlink.Common.Action.{ok, ◌>>=◌}
use gptlink.Common.Action.Keeps.{Keeps, keeps_rules}
use gptlink.Persistence.Models.{Lease, Tables, is_unreleased}
use gptlink.Gateway.Leases.Calls.{Call, acquires, releases, run, step, validates}
use gptlink.Gateway.Leases.{accept, acquire, release, validate}
use gptlink.Persistence.Repositories.Leases as Repository
use gptlink.Persistence.Repositories.Leases.Exclusive.{Exclusive, exclusive_rules}

ruleset rules = (exclusive_rules, keeps_rules)

accept-Exclusive :
    (d : ℕ) (o : String) (now : ℕ) (l : Option Lease) → Keeps Exclusive (accept d o now l)
unfolding accept
accept-Exclusive d o now none = search rules
accept-Exclusive d o now (some l) = search rules

acquire-Exclusive :
    (i d : ℕ) (o : String) (ttl : ℤ) (now : ℕ) → Keeps Exclusive (acquire i d o ttl now)
unfolding acquire
acquire-Exclusive i d o ttl now = search rules depth 7

validate-Exclusive : (i d : ℕ) (o : String) (now : ℕ) → Keeps Exclusive (validate i d o now)
unfolding validate
validate-Exclusive i d o now = search (rules, accept-Exclusive)

release-Exclusive : (i : ℕ) (o : String) (now : ℕ) → Keeps Exclusive (release i o now)
unfolding release
release-Exclusive i o now = search rules depth 8

step-Exclusive : (t : Tables) (c : Call) → Exclusive t → Exclusive (step t c)
unfolding step
step-Exclusive t (acquires i d o ttl now) h = (acquire-Exclusive i d o ttl now).after t h
step-Exclusive t (validates i d o now) h = (validate-Exclusive i d o now).after t h
step-Exclusive t (releases i o now) h = (release-Exclusive i o now).after t h

run-Exclusive : (t : Tables) (cs : List Call) → Exclusive t → Exclusive (run t cs)
unfolding run
run-Exclusive t [] h = h
run-Exclusive t (c ∷ cs) h = run-Exclusive (step t c) cs (step-Exclusive t c h)

validate_cases :
    (i d : ℕ) (o : String) (now : ℕ) (t t' : Tables) (l : Lease) (found : Option Lease)
    → find (λ x. x.lease_id == i) t.leases ≡ found
    → validate i d o now t ≡ (ok l, t')
    → (found ≡ some l) × (is_unreleased d l ≡ true) × (l.owner ≡ o) × (now < l.expires_at)
unfolding validate Repository.get accept ◌>>=◌
validate_cases i d o now t t' l none e h = cc (rw (e, accept) at h)
validate_cases i d o now t t' l (some x) e h = ground (arith, eq_iff x.owner o)

-- What a validated lease is.
validate_inversion :
    (i d : ℕ) (o : String) (now : ℕ) (t t' : Tables) (l : Lease)
    → validate i d o now t ≡ (ok l, t')
    → (find (λ x. x.lease_id == i) t.leases ≡ some l)
      × (is_unreleased d l ≡ true)
      × (l.owner ≡ o)
      × (now < l.expires_at)
validate_inversion i d o now t t' l h = validate_cases i d o now t t' l _ refl h

same_lease :
    (t : Tables) (i j d : ℕ) (l m : Lease)
    → count (is_unreleased d) t.leases ≤ 1
    → find (λ x. x.lease_id == i) t.leases ≡ some l
    → find (λ x. x.lease_id == j) t.leases ≡ some m
    → is_unreleased d l ≡ true
    → is_unreleased d m ≡ true
    → i ≡ j
same_lease t i j d l m ex fl fm ul um = elim (Bool-cases (i == j)) [
  | inl e ↦ (eqb_iff i j).0 e
  | inr e ↦
      let two =
        count-two (is_unreleased d) (λ x. x.lease_id == i) (λ x. x.lease_id == j) t.leases l m fl fm
          (λ z a. ground arith) ul um in
      absurd (omega arith)
]

-- From a table in which no device has two unreleased leases, after any sequence of calls of the
-- service: if two validations for one device succeed, at any two times, then they are of one lease
-- and of one owner.
pub validated_alone :
    (t : Tables) (cs : List Call) (i j d now later : ℕ) (o p : String) (l m : Lease) (u v : Tables)
    → Exclusive t
    → validate i d o now (run t cs) ≡ (ok l, u)
    → validate j d p later (run t cs) ≡ (ok m, v)
    → (i ≡ j) × (o ≡ p)
validated_alone t cs i j d now later o p l m u v ex hl hm =
    let a = validate_inversion i d o now (run t cs) u l hl in
    let b = validate_inversion j d p later (run t cs) v m hm in
    let e = same_lease (run t cs) i j d l m (run-Exclusive t cs ex d) a.0 b.0 a.1 b.1 in
    let same : some l ≡ some m =
      sym a.0 ∙ ap (λ k. find (λ x. x.lease_id == k) (run t cs).leases) e ∙ b.0 in
    (e, cc (a.2, b.2, same))
