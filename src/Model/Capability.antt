-- ===== src/Model/Capability.antt =====
-- internal/model/capability.go and the `Device` of internal/model/device.go: the description of a
-- device and of what it can do. A float (`min`, `max`) is a number of thousandths; finer ones are not
-- modelled.
pub mod Sanitized
use devagent.Base.{ℕ, String, Bool, Option, List, [], ◌∷◌, map, contains, ℤ, Assoc}

pub record PropertySchema : Type 0 where
  pub type_name : String
  pub enum_values : List ℤ
  pub unit : String
  pub min_value : Option ℤ
  pub max_value : Option ℤ

pub record InputSchema : Type 0 where
  pub type_name : String
  pub properties : Assoc PropertySchema
  pub required : List String

pub record CmdMap : Type 0 where
  pub cmd : ℤ
  pub fmt : String

pub record Implementation : Type 0 where
  pub native : String
  pub proxy : String
  pub channel : String
  pub baudrate : ℤ
  pub protocol : String
  pub hmac_secret : String
  pub cmd_map : Assoc CmdMap
  pub timeout_ms : ℤ
  pub retry : ℤ
  pub allowed_commands : List String

pub record Capability : Type 0 where
  pub name : String
  pub description : String
  pub intent_id : ℕ
  pub input_schema : InputSchema
  pub implementation : Implementation

pub record Device : Type 0 where
  pub id : String
  pub name : String
  pub type_name : String
  pub capabilities : List Capability

pub record DeviceConfig : Type 0 where
  pub device : Device
  pub capabilities : List Capability

unfoldable pub is_required : String → List String → Bool
unfolding contains
is_required name required = contains required name

-- One round of the loops of `Sanitized`.
unfoldable pub strip_secret : Capability → Capability
strip_secret cap = record cap { implementation = record cap.implementation { hmac_secret = "" } }

-- The copies of the slices are the new lists; the argument is a value, so it stays as it was.
unfoldable pub sanitized : DeviceConfig → DeviceConfig
unfolding strip_secret
sanitized c = record {
  device = record c.device { capabilities = map strip_secret c.device.capabilities };
  capabilities = map strip_secret c.capabilities;
}
