-- ===== src/Mcp/Auth/Guard.antt =====
-- About the middleware of src/gptlink/mcp/auth.py.
use gptlink.Common.Types.{Capability_eq}
use gptlink.Mcp.Auth.{
  Header, Scope, accepts, admit, authenticate, blank, casefold, forwarded, handle, is_authorization,
  partition, raw_authorization,
}
use gptlink.Prelude.{
  Bool, Bool-cases, Chars, Chars_eq, List, Option, Option-cases, String, String_eq, [], any, ap,
  arith, chars_beq_iff, codes, eqb_iff, false, inl, inr, none, not, over, refl, select, some, true,
  ℕ_eq, ◌&&◌, ◌++◌, ◌==◌, ◌∙◌, ◌∷◌, ◌≡◌,
}

partition_sound :
    (s : Chars) → (partition s).1.0 ≡ true → s ≡ (partition s).0 ++ blank ∷ (partition s).1.1
unfolding partition
partition_sound [] h = ground arith
partition_sound (c ∷ s) h = elim (Bool-cases (c == blank)) [
  | inl e ↦ rw e (ap (λ x. x ∷ s) ((eqb_iff c blank).0 e))
  | inr e ↦ rw e (ap (λ t. c ∷ t) (partition_sound s (rw e at h)))
]

-- a header value that is the scheme Bearer, in any case, a blank and the token
pub record IsBearer (token value : Chars) : Type 0 where
  pub scheme : Chars
  pub spelled : casefold scheme ≡ codes "bearer"
  pub value_is : value ≡ scheme ++ blank ∷ token

module _ (token : Chars) (caller : String) where
  abbrev granted : Chars → Bool
  granted v =
      (partition v).1.0
      && (casefold (partition v).0 == codes "bearer")
      && not ((partition v).1.1 == [])
      && ((partition v).1.1 == token)

  authenticate_sound :
      (o : Option Chars) (c : String)
      → authenticate (some token) caller o ≡ some c
      → (value : Chars) × (o ≡ some value) × IsBearer token value
  unfolding authenticate accepts
  authenticate_sound none c h = cc h
  authenticate_sound (some v) c h = elim (Bool-cases (granted v)) [
    | inl e ↦ (
      v,
      refl,
      record {
        scheme = (partition v).0;
        spelled = (chars_beq_iff _ (codes "bearer")).0 (ground (arith, e));
        value_is =
            partition_sound v (ground (arith, e))
            ∙ ap (λ t. (partition v).0 ++ blank ∷ t)
                ((chars_beq_iff (partition v).1.1 token).0 (ground (arith, e)));
      },
    )
    | inr e ↦ cc (rw e at h)
  ]

  none_left :
      (hs : List Header) → any is_authorization (select (λ h. not (is_authorization h)) hs) ≡ false
  none_left [] = refl
  none_left (h ∷ hs) = ground (arith, none_left hs)

  IsBearer-header :
      (hs : List Header) (value : Chars)
      → over (λ (x : Header). x.1) (raw_authorization hs) ≡ some value
      → IsBearer token value
      → (h : Header) × (raw_authorization hs ≡ some h) × IsBearer token h.1
  IsBearer-header hs value o b = elim (Option-cases (raw_authorization hs)) [
    | inl n ↦ cc (rw n at o)
    | inr (x, n) ↦
        let same : x.1 ≡ value = value_of (rw n at o) in
        (x, n, record { scheme = b.scheme; spelled = b.spelled; value_is = same ∙ b.value_is })
  ]
    where
      value_of : {a b : Chars} → some a ≡ some b → a ≡ b
      value_of h = ground arith

  forwarded_headers : {a b : Scope} → forwarded a ≡ forwarded b → b.headers ≡ a.headers
  forwarded_headers h = cc h

  -- With a token configured, an HTTP request reaches the server only if the last of its authorization
  -- headers is the scheme Bearer, in any case, a blank and the very token; and it arrives there
  -- without any authorization header, its other headers in their order.
  pub guard_lem :
      (s s' : Scope)
      → s.type == codes "http" ≡ true
      → handle (authenticate (some token) caller) s ≡ forwarded s'
      → ((h : Header) × (raw_authorization s.headers ≡ some h) × IsBearer token h.1)
        × (s'.headers ≡ select (λ h. not (is_authorization h)) s.headers)
        × (any is_authorization s'.headers ≡ false)
  unfolding handle admit
  guard_lem s s' http h =
      elim (Option-cases (
        authenticate (some token) caller
          (over (λ (x : Header). x.1) (raw_authorization s.headers)))) [
            | inl n ↦ cc (rw (http, n) at h)
            | inr (who, n) ↦
                let (value, o, bearer) = authenticate_sound _ who n in
                let left = forwarded_headers (rw (http, n) at h) in
                (IsBearer-header s.headers value o bearer, left, rw left (none_left s.headers))
          ]
