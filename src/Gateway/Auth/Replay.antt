-- ===== src/Gateway/Auth/Replay.antt =====
-- About `RequestReplayGuard` of src/gptlink/gateway/auth.py.
use gptlink.Prelude.{
  Bool, Chars_eq, String_eq, [], any, any-is_some-find, arith, if◌then◌else◌, ℕ, ℕ_eq, ◌++◌, ◌==◌,
  ◌∷◌, ◌≡◌,
}
use gptlink.Gateway.Auth.{claim}
use gptlink.Persistence.Repositories.Requests as Requests
use gptlink.Persistence.Models.{RequestClaim, Tables}
use gptlink.Common.Action.{err, ok, ◌>>=◌}
use gptlink.Common.Errors.{replay_error}

abbrev pub is_claimed : ℕ → Tables → Bool
is_claimed r t = any (λ x. x.request_id == r) t.request_claims

-- A claim succeeds exactly if the id was not claimed, and then it appends its row. Of a claimed id it
-- raises ReplayError and writes nothing.
pub claim_outcome :
    (r now : ℕ) (t : Tables)
    → claim r now t ≡ (
        if is_claimed r t then (err replay_error, t) else (
          ok tt,
          record t {
            request_claims = t.request_claims ++ record { request_id = r; claimed_at = now } ∷ [];
          },
        ))
unfolding claim Requests.add_claim Requests.get_claim ◌>>=◌
claim_outcome r now t =
    ground (arith, any-is_some-find (λ (x : RequestClaim). x.request_id == r) t.request_claims)
