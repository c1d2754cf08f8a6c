-- ===== src/Mcptool.antt =====
-- internal/mcptool/tool.go: the MCP tool that a capability is compiled to. A tool is what the code
-- hands to the MCP library: the name, the description, and for each parameter its kind and the options
-- in their order. A float is a number of thousandths, as in `PropertySchema`. The two loops over the
-- properties see them in the order of the list; Go leaves that order open.
pub mod Library
pub mod Values
pub mod Parameters
use Prim.Native.String.{◌++◌ as str_append}
use devagent.Base.{
  ℕ, ◌*◌, ◌/◌, ◌-◌, ℤ, pos, negsuc, pos_part, neg_part, sub_ℕ, String, Bool, Option, none, some,
  List, [], ◌∷◌, ◌++◌, map, str_eq, if◌then◌else◌, Assoc,
}
use devagent.Model.Capability.{PropertySchema, InputSchema, Capability, is_required}

pub data ParameterKind : Type 0 where
  integer string boolean number : ParameterKind

pub data PropertyOption : Type 0 where
  enum_option : List ℤ → PropertyOption
  minimum maximum : ℤ → PropertyOption
  required : PropertyOption

pub record Parameter : Type 0 where
  pub name : String
  pub kind : ParameterKind
  pub options : List PropertyOption

pub record Tool : Type 0 where
  pub name : String
  pub description : String
  pub parameters : List Parameter

-- `float64(v)` of an integer, in thousandths.
unfoldable pub of_int : ℤ → ℤ
of_int v = sub_ℕ (pos_part v * 1000) (neg_part v * 1000)

-- `int(x)` of a float, in thousandths again: the fraction is cut off, towards zero.
unfoldable pub truncated : ℤ → ℤ
truncated x = sub_ℕ (pos_part x / 1000 * 1000) (neg_part x / 1000 * 1000)

-- `fmt.Sprintf("%s.%s", deviceID, cap.Name)`
unfoldable pub tool_name : String → String → String
tool_name device_id name = str_append device_id (str_append "." name)

-- The loop over the units.
unfoldable pub unit_parts : Assoc PropertySchema → List String
unit_parts [] = []
unit_parts ((name, prop) ∷ props) =
    if str_eq prop.unit ""
    then unit_parts props
    else str_append name (str_append "(" (str_append prop.unit ")")) ∷ unit_parts props

-- `strings.Join(parts, ", ")`
unfoldable pub join_parts : String → List String → String
join_parts part [] = part
join_parts part (next ∷ parts) = str_append part (str_append ", " (join_parts next parts))

unfoldable pub with_units : String → List String → String
unfolding join_parts
with_units desc [] = desc
with_units desc (part ∷ parts) = str_append desc (str_append " " (join_parts part parts))

unfoldable pub describe : Capability → Bool → String
unfolding unit_parts with_units
describe cap maintenance =
    with_units (if maintenance then str_append "[维护中] " cap.description else cap.description)
      (unit_parts cap.input_schema.properties)

-- `if len(prop.Enum) > 0 { append(…, enumOption(prop.Enum)) }`
unfoldable pub enum_options : List ℤ → List PropertyOption
unfolding of_int
enum_options [] = []
enum_options (v ∷ vs) = enum_option (map of_int (v ∷ vs)) ∷ []

unfoldable pub minimum_options : (ℤ → ℤ) → Option ℤ → List PropertyOption
minimum_options convert none = []
minimum_options convert (some bound) = minimum (convert bound) ∷ []

unfoldable pub maximum_options : (ℤ → ℤ) → Option ℤ → List PropertyOption
maximum_options convert none = []
maximum_options convert (some bound) = maximum (convert bound) ∷ []

unfoldable pub required_options : String → List String → List PropertyOption
required_options name names = if is_required name names then required ∷ [] else []

-- The options of a number's property; an integer's bounds are converted.
unfoldable pub bounded_options :
    (ℤ → ℤ) → String → PropertySchema → List String → List PropertyOption
unfolding enum_options minimum_options maximum_options required_options
bounded_options convert name prop names =
    enum_options prop.enum_values
    ++ (minimum_options convert prop.min_value
        ++ (maximum_options convert prop.max_value ++ required_options name names))

-- One round of the loop over the properties: a type that no case names adds no parameter.
unfoldable pub compile_property : String → PropertySchema → List String → Option Parameter
unfolding truncated bounded_options required_options
compile_property name prop names =
    if str_eq prop.type_name "integer"
    then some (record {
      name = name;
      kind = integer;
      options = bounded_options truncated name prop names;
    })
    else if str_eq prop.type_name "string"
    then some (record { name = name; kind = string; options = required_options name names })
    else if str_eq prop.type_name "boolean"
    then some (record { name = name; kind = boolean; options = required_options name names })
    else if str_eq prop.type_name "number"
    then some
        (record { name = name; kind = number; options = bounded_options (λ x. x) name prop names })
    else none

unfoldable pub compile_properties : Assoc PropertySchema → List String → List Parameter
unfolding compile_property
compile_properties [] names = []
compile_properties ((name, prop) ∷ props) names = elim (compile_property name prop names) [
  | none ↦ compile_properties props names
  | some parameter ↦ parameter ∷ compile_properties props names
]

unfoldable pub compile_tool : String → Capability → Bool → Tool
unfolding tool_name describe compile_properties
compile_tool device_id cap maintenance = record {
  name = tool_name device_id cap.name;
  description = describe cap maintenance;
  parameters = compile_properties cap.input_schema.properties cap.input_schema.required;
}
