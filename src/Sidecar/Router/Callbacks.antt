-- ===== src/Sidecar/Router/Callbacks.antt =====
-- Where a tick of the health check waits for `onStatusChange`, internal/sidecar/router.go and
-- internal/model/device.go.
use devagent.Base.{
  false, Bool-cases, ◌≢◌, ◌⊎◌, Result, ok, err, ◌>>=◌, ℕ, String, ◌≡◌, refl, Bool, Option, none,
  some, List, [], ◌∷◌, inl, inr, arith, if◌then◌else◌, lookup, eq_iff, str_eq, Option-cases,
}
use devagent.Model.RouteTable.{
  GatewayMeta, RouteTable, StatusChange, gateway_online, gateway_maintenance, set_gateway_status,
  update_heartbeat,
}
use devagent.Sidecar.Router.{Hung, after_call, maintain_all, probe_one, probe_all}

-- The loops where every callback returns.
unfoldable pub maintained_all : List String → RouteTable → RouteTable
maintained_all [] rt = rt
maintained_all (k ∷ ids) rt = maintained_all ids (set_gateway_status k gateway_maintenance rt).0

unfoldable pub probed_one : (String → Bool) → (String → ℕ) → GatewayMeta → RouteTable → RouteTable
probed_one probe clock gw rt =
    if probe gw.url then (update_heartbeat gw.id (clock gw.id) rt).0 else rt

unfoldable pub probed_all :
    (String → Bool) → (String → ℕ) → List GatewayMeta → RouteTable → RouteTable
unfolding probed_one
probed_all probe clock [] rt = rt
probed_all probe clock (gw ∷ gws) rt = probed_all probe clock gws (probed_one probe clock gw rt)

-- A change of a gateway's status to another one, from which the callback does not return.
pub record Blocks (returns : StatusChange → Bool) (change : StatusChange) : Type 0 where
  pub differs : change.old_status ≢ change.new_status
  pub heard : (change.new_status ≡ gateway_maintenance) ⊎ (change.new_status ≡ gateway_online)
  pub stays : returns change ≡ false

-- A part of the tick goes on with the value, or hangs.
abbrev pub GoesOn {ℓ} : {A : Type ℓ} → (StatusChange → Bool) → Result Hung A → A → Type ℓ
GoesOn returns result value =
    (result ≡ ok value) ⊎ ((hung : Hung) × (Blocks returns hung.change × (result ≡ err hung)))

abbrev IsHeard : Option StatusChange → Type 0
IsHeard none = Unit
IsHeard (some change) =
    (change.old_status ≢ change.new_status)
    × ((change.new_status ≡ gateway_maintenance) ⊎ (change.new_status ≡ gateway_online))

set_gateway_status-IsHeard :
    (k : String) (rt : RouteTable) → IsHeard (set_gateway_status k gateway_maintenance rt).1
unfolding set_gateway_status
set_gateway_status-IsHeard k rt = elim (Option-cases (lookup k rt.gateways)) [
  | inl absent ↦ rw (set_gateway_status, absent) tt
  | inr (gw, found) ↦ elim (Bool-cases (str_eq gw.status gateway_maintenance)) [
    | inl same ↦ rw (set_gateway_status, found, same) tt
    | inr other ↦
        rw (set_gateway_status, found, other)
          ((λ e. absurd (ground (arith, eq_iff gw.status gateway_maintenance))), inl refl)
  ]
]

update_heartbeat-IsHeard :
    (k : String) (now : ℕ) (rt : RouteTable) → IsHeard (update_heartbeat k now rt).1
unfolding update_heartbeat
update_heartbeat-IsHeard k now rt = elim (Option-cases (lookup k rt.gateways)) [
  | inl absent ↦ rw (update_heartbeat, absent) tt
  | inr (gw, found) ↦ elim (Bool-cases (str_eq gw.status gateway_online)) [
    | inl same ↦ rw (update_heartbeat, found, same) tt
    | inr other ↦
        rw (update_heartbeat, found, other)
          ((λ e. absurd (ground (arith, eq_iff gw.status gateway_online))), inr refl)
  ]
]

after_call-GoesOn :
    (returns : StatusChange → Bool) (rt : RouteTable) (change : Option StatusChange)
    → IsHeard change
    → GoesOn returns (after_call returns rt change) rt
unfolding after_call
after_call-GoesOn returns rt none heard = inl refl
after_call-GoesOn returns rt (some change) (differs, heard) = elim (Bool-cases (returns change)) [
  | inl back ↦ inl (rw (after_call, back) refl)
  | inr stays ↦ inr (
    record { change = change; table = rt },
    (record { differs = differs; heard = heard; stays = stays }, rw (after_call, stays) refl),
  )
]

-- One part of the tick after another.
pub then-GoesOn {ℓ κ} :
    {A : Type ℓ} {B : Type κ} (returns : StatusChange → Bool) (first : Result Hung A) (a : A)
    (next : A → Result Hung B) (b : B)
    → GoesOn returns first a
    → GoesOn returns (next a) b
    → GoesOn returns (first >>= next) b
then-GoesOn returns first a next b (inl done) later = rw (done) later
then-GoesOn returns first a next b (inr (hung, (blocks, stuck))) later =
    inr (hung, (blocks, rw (stuck) refl))

pub maintain_all-GoesOn :
    (returns : StatusChange → Bool) (ids : List String) (rt : RouteTable)
    → GoesOn returns (maintain_all returns ids rt) (maintained_all ids rt)
unfolding maintain_all maintained_all
maintain_all-GoesOn returns [] rt = inl refl
maintain_all-GoesOn returns (k ∷ ids) rt =
    let made = set_gateway_status k gateway_maintenance rt in
    then-GoesOn returns (after_call returns made.0 made.1) made.0 (maintain_all returns ids) _
      (after_call-GoesOn returns made.0 made.1 (set_gateway_status-IsHeard k rt))
      (maintain_all-GoesOn returns ids made.0)

probe_one-GoesOn :
    (returns : StatusChange → Bool) (probe : String → Bool) (clock : String → ℕ) (gw : GatewayMeta)
    (rt : RouteTable)
    → GoesOn returns (probe_one returns probe clock gw rt) (probed_one probe clock gw rt)
unfolding probe_one probed_one
probe_one-GoesOn returns probe clock gw rt = elim (Bool-cases (probe gw.url)) [
  | inr silent ↦ rw (silent) (inl refl)
  | inl answers ↦
      let beat = update_heartbeat gw.id (clock gw.id) rt in
      rw (answers)
        (after_call-GoesOn returns beat.0 beat.1 (update_heartbeat-IsHeard gw.id (clock gw.id) rt))
]

pub probe_all-GoesOn :
    (returns : StatusChange → Bool) (probe : String → Bool) (clock : String → ℕ)
    (gws : List GatewayMeta) (rt : RouteTable)
    → GoesOn returns (probe_all returns probe clock gws rt) (probed_all probe clock gws rt)
unfolding probe_all probed_all
probe_all-GoesOn returns probe clock [] rt = inl refl
probe_all-GoesOn returns probe clock (gw ∷ gws) rt =
    let next = probed_one probe clock gw rt in
    then-GoesOn returns (probe_one returns probe clock gw rt) next
      (probe_all returns probe clock gws) (probed_all probe clock gws next)
      (probe_one-GoesOn returns probe clock gw rt) (probe_all-GoesOn returns probe clock gws next)
