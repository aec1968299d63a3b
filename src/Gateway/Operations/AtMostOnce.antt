-- ===== src/Gateway/Operations/AtMostOnce.antt =====
-- About sequences of mutations, by `mutate` of src/gptlink/gateway/operations.py.
use gptlink.Gateway.Auth.Replay.{is_claimed}
use gptlink.Gateway.Operations.Admission.{
  admissible, claimed, is_admissible, mutate_admitted, mutate_refused,
}
use gptlink.Gateway.Operations.Trail.{logged}
use gptlink.Gateway.Operations.{Call, Readings, World, mutate}
use gptlink.Prelude.{
  All, Bool-cases, Chars_eq, List, Option, String_eq, [], any-append, arith, eqb_refl, false, inl,
  inr, none, refl, some, true, ℕ, ℕ_eq, ◌==◌, ◌∷◌, ◌≡◌,
}
use gptlink.Common.Types.{Capability_eq}
use gptlink.Persistence.Models.{AuditEvent, RequestClaim, Tables}
use gptlink.Common.Action.Keeps.{Keeps}
use gptlink.Common.Action.{Action, err}
use gptlink.Common.Errors.{Exception}

-- a mutation with its callback
pub record Request (E A : Type 0) : Type 0 where
  pub call : Call
  pub readings : Readings
  pub execute : Action (World E) A

abbrev pub Claims : {E : Type 0} → ℕ → World E → Type 0
Claims i w = is_claimed i w.db ≡ true

claimed_more :
    (i : ℕ) (o : Option ℕ) (now : ℕ) (t : Tables)
    → is_claimed i t ≡ true
    → is_claimed i (claimed o now t) ≡ true
unfolding claimed
claimed_more i none now t h = h
claimed_more i (some j) now t h = ground (
  arith,
  h,
  any-append (λ (x : RequestClaim). x.request_id == i) t.request_claims
      (record { request_id = j; claimed_at = now } ∷ []),
)

claimed_self :
    (i : ℕ) (o : Option ℕ) (now : ℕ) (t : Tables)
    → o ≡ some i
    → is_claimed i (claimed o now t) ≡ true
unfolding claimed
claimed_self i none now t h = cc
claimed_self i (some j) now t h = ground (
  arith,
  h,
  eqb_refl i,
  any-append (λ (x : RequestClaim). x.request_id == i) t.request_claims
      (record { request_id = j; claimed_at = now } ∷ []),
)

not_admissible :
    (i : ℕ) (o : Option ℕ) (c : Call) (r : Readings) (t : Tables)
    → o ≡ some i
    → is_claimed i t ≡ true
    → admissible o c r t ≡ false
unfolding admissible
not_admissible i none c r t named h = refl
not_admissible i (some j) c r t named h =
    let q : j ≡ i = ground (arith, named) in
    let e : is_claimed j t ≡ true = rw q h in ground (arith, e)

module _ {E A : Type 0} where
  pub handle : Request E A → Action (World E) A
  handle q = mutate q.call q.readings q.execute

  -- requests in turn; an exception ends only its own
  pub serve : World E → List (Request E A) → World E
  serve w [] = w
  serve w (q ∷ qs) = serve (handle q w).1 qs

  handle-Claims :
      (i : ℕ) (q : Request E A) → Keeps (Claims i) q.execute → Keeps (Claims i) (handle q)
  unfolding handle
  handle-Claims i q k = record {
    after = λ w h. elim (Bool-cases (is_admissible q.call q.readings w.db)) [
      | inl yes' ↦
          let (stored, is, _) = mutate_admitted q.call q.readings q.execute w yes' in
          rw is (
            k.after (record w { db = claimed q.call.request_id q.readings.at_claim w.db })
              (claimed_more i q.call.request_id q.readings.at_claim w.db h))
      | inr no' ↦
          let (e, stored, is, _) = mutate_refused q.call q.readings q.execute w no' in rw is h
    ];
  }

  serve-Claims :
      (i : ℕ) (qs : List (Request E A)) (w : World E)
      → All (λ q. Keeps (Claims i) q.execute) qs
      → Claims i w
      → Claims i (serve w qs)
  unfolding serve
  serve-Claims i [] w ks h = h
  serve-Claims i (q ∷ qs) w ks h =
      serve-Claims i qs (handle q w).1 ks.1 ((handle-Claims i q ks.0).after w h)

  -- If a mutation was admitted, and the callbacks take back no claim of its request id, then after any
  -- further mutations a second one with that request id is refused: its callback never runs, and only
  -- an audit event is added.
  pub at_most_once :
      (i : ℕ) (first second : Request E A) (between : List (Request E A)) (w : World E)
      → first.call.request_id ≡ some i
      → second.call.request_id ≡ some i
      → is_admissible first.call first.readings w.db ≡ true
      → Keeps (Claims i) first.execute
      → All (λ q. Keeps (Claims i) q.execute) between
      → let later = serve (handle first w).1 between in
        (e : Exception) × (stored : AuditEvent) × (handle second later
          ≡ (err e, logged later stored))
  at_most_once i first second between w one two started keep keeps =
      let (_, is, _) = mutate_admitted first.call first.readings first.execute w started in
      let ran =
        keep.after (record w { db = claimed first.call.request_id first.readings.at_claim w.db })
          (claimed_self i first.call.request_id first.readings.at_claim w.db one) in
      let after : Claims i (handle first w).1 = unfold handle in rw is ran in
      let later = serve-Claims i between (handle first w).1 keeps after in
      let shut = not_admissible i second.call.request_id second.call second.readings _ two later in
      let (e, stored, refused, _) =
        mutate_refused second.call second.readings second.execute (serve (handle first w).1 between)
          shut in
      (e, stored, unfold handle in refused)
