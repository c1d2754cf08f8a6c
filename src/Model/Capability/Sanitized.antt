-- ===== src/Model/Capability/Sanitized.antt =====
-- What `Sanitized` removes and what it leaves.
use devagent.Base.{String, ◌≡◌, refl, ap, List, [], ◌∷◌, map, All}
use devagent.Model.Capability.{Capability, DeviceConfig, strip_secret, sanitized}

-- The secret can be read off no capability.
abbrev pub NoSecret : Capability → Type 0
NoSecret cap = cap.implementation.hmac_secret ≡ ""

-- Two capabilities that differ in the secret alone.
abbrev pub with_secret : String → Capability → Capability
with_secret s cap = record cap { implementation = record cap.implementation { hmac_secret = s } }

abbrev pub with_secrets : String → DeviceConfig → DeviceConfig
with_secrets s c = record {
  device = record c.device { capabilities = map (with_secret s) c.device.capabilities };
  capabilities = map (with_secret s) c.capabilities;
}

map-strip_secret-NoSecret : (caps : List Capability) → All NoSecret (map strip_secret caps)
unfolding strip_secret
map-strip_secret-NoSecret [] = tt
map-strip_secret-NoSecret (cap ∷ caps) = (refl, map-strip_secret-NoSecret caps)

map-strip_secret-with_secret :
    (s : String) (caps : List Capability)
    → map strip_secret (map (with_secret s) caps) ≡ map strip_secret caps
unfolding strip_secret
map-strip_secret-with_secret s [] = refl
map-strip_secret-with_secret s (cap ∷ caps) =
    ap (◌∷◌ (strip_secret cap)) (map-strip_secret-with_secret s caps)

-- No capability of a sanitized configuration, of either of its two lists, holds a secret; and the
-- result does not depend on the secrets at all: whatever one secret is put in their place, it is the
-- same.
pub sanitized_lem :
    (c : DeviceConfig) (s : String)
    → All NoSecret (sanitized c).capabilities
      × All NoSecret (sanitized c).device.capabilities
      × (sanitized (with_secrets s c) ≡ sanitized c)
unfolding sanitized
sanitized_lem c s = (
  map-strip_secret-NoSecret c.capabilities,
  map-strip_secret-NoSecret c.device.capabilities,
  rw
      (
        map-strip_secret-with_secret s c.capabilities,
        map-strip_secret-with_secret s c.device.capabilities,
      )
      refl,
)
