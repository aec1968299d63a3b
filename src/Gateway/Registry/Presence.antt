-- ===== src/Gateway/Registry/Presence.antt =====
-- About the map of current connections, in src/gptlink/gateway/registry.py.
use gptlink.Gateway.Registry.Slots.{close_each-connections, shut_view}
use gptlink.Gateway.Registry.{Connection, Future, Registry, Slot, close, of_device}
use gptlink.Gateway.Registry.Requests.{deliver, enter, reply}
use gptlink.Prelude.{Bool, Option, any-is_some-find, arith, find, none, refl, some, ℕ, ◌∙◌, ◌≡◌}

-- who holds a device, and since when it was not seen
abbrev pub Presence : Type 0
Presence = ℕ → Option Slot

unfoldable pub view : Registry → Presence
view s d = find (of_device d) s.connections

pub reply-connections :
    (c : Connection) (r : ℕ) (o : Option Future) (s : Registry)
    → (reply c r o s).1.connections ≡ s.connections
unfolding reply deliver
reply-connections c r none s = refl
reply-connections c r (some a) s = ground arith

pub enter-connections :
    (c : Connection) (d r : ℕ) (s : Registry) → (enter c d r s).1.connections ≡ s.connections
unfolding enter
enter-connections c d r s = ground arith

pub closed_view : (fails : ℕ → Bool) (d : ℕ) (s : Registry) → view (close fails s).1 d ≡ none
unfolding view close
closed_view fails d s = rw close_each-connections (
    shut_view fails d s.connections s
    ∙ ground (arith, any-is_some-find (of_device d) s.connections))
