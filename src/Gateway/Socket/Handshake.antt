-- ===== src/Gateway/Socket/Handshake.antt =====
-- About the handshake of src/gptlink/gateway/websocket.py.
use gptlink.Gateway.Registry.Requests.{run}
use gptlink.Gateway.Socket.{
  Ending, Frame, Opening, Received, Turn, agent_websocket, awaited, finish, got, greeted, is_hello,
  opened, raises, receive, stopped, welcomed,
}
use gptlink.Gateway.Registry.{Registry, on_db}
use gptlink.Common.Json.{Json}
use gptlink.Protocol.Messages.{Message}
use gptlink.Persistence.Models.{Device, Tables}
use gptlink.Common.Types.{Capability_eq}
use gptlink.Common.Action.{
  Outcome, Outcome-cases, err, guarded, ok, pure, raise, transaction, ◌>>=◌,
}
use gptlink.Common.Errors.{Exception, authentication_error, timeout_error}
use gptlink.Prelude.{
  Bool, Chars, Chars_eq, List, Option, String_eq, arith, false, find, if◌then◌else◌, inl, inr, none,
  refl, some, true, ℕ, ℕ_eq, ◌&&◌, ◌==◌, ◌≡◌,
}
use gptlink.Gateway.Auth as Auth
use gptlink.Persistence.Repositories.Devices as Devices

abbrev is_true : Outcome Bool → Bool
is_true (ok b) = b
is_true (err e) = false

module _ (sha256 : List ℕ → List ℕ) where
  -- the device is there, not revoked, and the token is that of its stored hash
  abbrev pub is_credential : Chars → Option Device → Bool
  is_credential token none = false
  is_credential token (some x) =
      Devices.is_active x && is_true (Auth.verify_device_token sha256 token x.device_token_hash)

  abbrev pub is_proven : ℕ → Chars → Tables → Bool
  is_proven d token t = is_credential token (find (λ x. x.device_id == d) t.devices)

  admit_refused :
      (token : Chars) (o : Option Device) (t : Tables)
      → is_credential token o ≡ false
      → (e : Exception) × (Auth.admit sha256 token o t ≡ (err e, t))
  unfolding Auth.admit ◌>>=◌ guarded raise pure
  admit_refused token none t h = (authentication_error, refl)
  admit_refused token (some x) t h =
      elim (Outcome-cases (Auth.verify_device_token sha256 token x.device_token_hash)) [
        | inl (b, k) ↦ (authentication_error, rw k (ground (arith, h, k)))
        | inr (e, k) ↦ (e, rw k refl)
      ]

  authenticate_refused :
      (d : ℕ) (token : Chars) (t : Tables)
      → is_proven d token t ≡ false
      → (e : Exception) × (Auth.authenticate sha256 d token t ≡ (err e, t))
  unfolding Auth.authenticate transaction ◌>>=◌ Devices.get
  authenticate_refused d token t h =
      let (e, k) = admit_refused token (find (λ x. x.device_id == d) t.devices) t h in
      (e, rw k refl)

module _ (loads : Chars → Option Json) (decode : Chars → Option Message)
    (sha256 : List ℕ → List ℕ) where
  abbrev pub gives : ℕ → Option Chars → Tables → Bool
  gives d none t = false
  gives d (some token) t = is_proven sha256 d token t

  abbrev pub shows : Received → Tables → Bool
  shows (stopped e) t = false
  shows (got m) t = gives m.device_id (is_hello m.body) t

  -- the first frame came in time, and is a hello with the credential of its device
  abbrev pub is_authenticated : Option Frame → Tables → Bool
  is_authenticated none t = false
  is_authenticated (some frame) t = shows (receive loads decode frame) t

  abbrev OnlyCloses : Opening → Registry → Registry → Type 0
  OnlyCloses o s s' = (e : Ending) × (s' ≡ finish loads decode o (e, s))

  refused_hello :
      (o : Opening) (ts : List Turn) (m : Message) (token : Option Chars) (s : Registry)
      → gives m.device_id token s.db ≡ false
      → OnlyCloses o s (greeted loads decode sha256 o ts m token s)
  unfolding greeted welcomed on_db
  refused_hello o ts m none s h = (Ending.closes 4400, refl)
  refused_hello o ts m (some token) s h =
      let (e, k) = authenticate_refused sha256 m.device_id token s.db h in (raises e, rw k refl)

  refused_frame :
      (o : Opening) (ts : List Turn) (r : Received) (s : Registry)
      → shows r s.db ≡ false
      → OnlyCloses o s (opened loads decode sha256 o ts r s)
  unfolding opened
  refused_frame o ts (stopped e) s h = (e, refl)
  refused_frame o ts (got m) s h = refused_hello o ts m (is_hello m.body) s h

  refused_opening :
      (o : Opening) (ts : List Turn) (f : Option Frame) (s : Registry)
      → is_authenticated f s.db ≡ false
      → OnlyCloses o s (awaited loads decode sha256 o ts f s)
  unfolding awaited
  refused_opening o ts none s h = (raises timeout_error, refl)
  refused_opening o ts (some frame) s h = refused_frame o ts (receive loads decode frame) s h

  by_ready :
      (o : Opening) (ts : List Turn) (s : Registry)
      → is_authenticated o.hello (run o.others s).db ≡ false
      → (ready : Bool)
      → (e : Ending) × ((if ready
            then awaited loads decode sha256 o ts o.hello (run o.others s)
            else finish loads decode o (Ending.closes 1013, s))
          ≡ finish loads decode o (e, (if ready then run o.others s else s)))
  by_ready o ts s h true = refused_opening o ts o.hello (run o.others s) h
  by_ready o ts s h false = (Ending.closes 1013, refl)

  -- A session whose first frame does not come in time, or is no hello with the token of the device that
  -- it names, a device that is there and not revoked, only closes its socket: whatever frames follow,
  -- the registry and the database are as other tasks left them, and no frame is resolved.
  pub unauthenticated_inert :
      (o : Opening) (ts : List Turn) (s : Registry)
      → is_authenticated o.hello (run o.others s).db ≡ false
      → (e : Ending) × (agent_websocket loads decode sha256 o ts s
          ≡ finish loads decode o (e, (if o.ready then run o.others s else s)))
  unfolding agent_websocket
  unauthenticated_inert o ts s h = by_ready o ts s h o.ready
