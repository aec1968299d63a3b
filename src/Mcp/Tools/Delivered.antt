-- ===== src/Mcp/Tools/Delivered.antt =====
-- About the mutating tools of src/gptlink/mcp: what a result says of the device.
use gptlink.Mcp.Tools.{
  command_cancel, command_start_tool, filesystem_write_tool, mutate_call, remotely,
  shell_capability, shell_value, size_of, two,
}
use gptlink.Common.Types.{Capability, ShellKind, command_start, filesystem_write}
use gptlink.Gateway.Operations.Admission.{
  admissible, claimed, is_admissible, is_valid_lease, mutate_admitted, mutate_refused,
}
use gptlink.Gateway.Operations.{Call, Readings, World, mutate}
use gptlink.Gateway.Registry.Answers.{IsBelow, request_replied}
use gptlink.Gateway.Registry.Replies.{SomeReplied}
use gptlink.Gateway.Registry.Requests.{Awaits}
use gptlink.Gateway.Registry.{Connection, Registry, connection_at, is}
use gptlink.Protocol.Messages.{Body, is_valid}
use gptlink.Common.Json.{Json, field, number, text}
use gptlink.Common.Action.{Action, guarded, ok}
use gptlink.Prelude.{
  Bool-cases, Chars, List, String, [], codes, inl, inr, length, none, pos, refl, some, true, ℕ, ℤ,
  ◌++◌, ◌∷◌, ◌≡◌,
}
use gptlink.Gateway.Remote as Remote

-- the device was connected, and its connection replied to that request with that result
abbrev pub IsReplied : ℕ → ℕ → Awaits → Registry → Json → Type 0
IsReplied device_id request_id w s v =
    (c : Connection) × (connection_at device_id s.connections ≡ some c)
    × SomeReplied device_id request_id c v (w.sending ++ w.waiting_for)

asked :
    (d i : ℕ) (w : Awaits) (b : Body) (s : Registry) (v : Json)
    → IsBelow s
    → (Remote.ask d w (Remote.envelope d i b) s).0 ≡ ok v
    → (is_valid (Remote.envelope d i b) ≡ true) × IsReplied d i w s v
unfolding Remote.ask guarded
asked d i w b s v k h = elim (Bool-cases (is_valid (Remote.envelope d i b))) [
  | inl e ↦
      let (c, at', _, replied) = request_replied d (Remote.envelope d i b) w s v k (rw e at h) in
      (e, (c, at', replied))
  | inr e ↦ cc (rw e at h)
]

module _ (c : Call) (r : Readings) (w : World Registry) (v : Json) where
  -- a mutation that returns ran its callback, after its admission
  mutate_ok :
      (m : Action Registry Json)
      → (mutate c r (remotely m) w).0 ≡ ok v
      → (is_admissible c r w.db ≡ true)
        × ((m (record w.env { db = claimed c.request_id r.at_claim w.db })).0 ≡ ok v)
  unfolding remotely
  mutate_ok m h = elim (Bool-cases (is_admissible c r w.db)) [
    | inl e ↦ let (stored, is, _) = mutate_admitted c r (remotely m) w e in (e, rw is at h)
    | inr e ↦ let (x, stored, is, _) = mutate_refused c r (remotely m) w e in cc (rw is at h)
  ]

-- the tools that change a device, with what their callers give
pub data Mutation : Type 0 where
  writes_file : (path : String) (text : Chars) → Mutation
  starts_command : (command : Chars) → ShellKind → (cwd : String) → (timeout : ℤ) → Mutation
  cancels_job : (job_id : ℕ) (reason : Chars) → Mutation

abbrev pub body_of : Mutation → Body
body_of (writes_file path t) = Body.filesystem_write (record { path = codes path; text = t })
body_of (starts_command command shell cwd timeout) =
    Body.command_start
      (record { command = command; shell = shell; cwd = codes cwd; timeout = timeout })
body_of (cancels_job job_id reason) = Body.command_cancel job_id reason

abbrev pub required_of : Mutation → List Capability
required_of (writes_file path t) = filesystem_write ∷ []
required_of (starts_command command shell cwd timeout) = command_start ∷ shell_capability shell ∷ []
required_of (cancels_job job_id reason) = command_start ∷ []

module _ (encode : Chars → List ℕ) (caller : String) (r : Readings) (w : Awaits)
    (d i lease : ℕ) where
  unfoldable pub call_tool : Mutation → Action (World Registry) Json
  call_tool (writes_file path t) = filesystem_write_tool caller r w d i lease encode path t
  call_tool (starts_command command shell cwd timeout) =
      command_start_tool caller r w d i lease command shell cwd timeout
  call_tool (cancels_job job_id reason) = command_cancel caller r w d i lease job_id reason

  -- what the policy reads of a call
  abbrev pub policy_call : List Capability → Call
  policy_call required = mutate_call caller d i lease required "" "" none

  carried :
      (c : Call) (b : Body) (world : World Registry) (v : Json)
      → c.request_id ≡ some i
      → IsBelow world.env
      → (mutate c r (remotely (Remote.ask d w (Remote.envelope d i b))) world).0 ≡ ok v
      → (is_admissible c r world.db ≡ true)
        × (is_valid (Remote.envelope d i b) ≡ true)
        × IsReplied d i w world.env v
  carried c b world v named k h =
      let (a, ran) = mutate_ok c r world v (Remote.ask d w (Remote.envelope d i b)) h in
      let (valid, replied) = asked d i w b _ v (record { below = k.below }) ran in
      (a, valid, replied)

  -- Where the futures of the registry's pending items are created: a tool that changes a device
  -- returns a result v only if its call was admissible (the device active,
  -- its capabilities held, its level allowing mutations, the lease the caller's and valid, and the
  -- request id not claimed), its message was valid, and the device was connected and its connection
  -- replied with v to that request id while the tool waited.
  pub delivered :
      (m : Mutation) (world : World Registry) (v : Json)
      → IsBelow world.env
      → (call_tool m world).0 ≡ ok v
      → (is_admissible (policy_call (required_of m)) r world.db ≡ true)
        × (is_valid (Remote.envelope d i (body_of m)) ≡ true)
        × IsReplied d i w world.env v
  unfolding call_tool filesystem_write_tool command_start_tool command_cancel
      Remote.filesystem_write Remote.command_start Remote.command_cancel admissible is_valid_lease
  delivered (writes_file path t) world v k h =
      carried
        (mutate_call caller d i lease (filesystem_write ∷ []) "filesystem.write" "MEDIUM"
          (some (two "path" (text path) "bytes" (number (pos (length (encode t)))))))
        (body_of (writes_file path t)) world v refl k h
  delivered (starts_command command shell cwd timeout) world v k h =
      carried
        (mutate_call caller d i lease (command_start ∷ shell_capability shell ∷ []) "command.start"
          "HIGH"
          (some (
            field "shell" (text (shell_value shell))
              (two "cwd" (text cwd) "command_length" (size_of command)))))
        (body_of (starts_command command shell cwd timeout)) world v refl k h
  delivered (cancels_job job_id reason) world v k h =
      carried (mutate_call caller d i lease (command_start ∷ []) "command.cancel" "HIGH" none)
        (body_of (cancels_job job_id reason)) world v refl k h
