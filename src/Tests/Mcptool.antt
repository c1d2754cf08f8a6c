-- ===== src/Tests/Mcptool.antt =====
-- internal/mcptool's tests, and instances of the theorems on compiled tools.
use devagent.Base.{◌≡◌, refl, pos, true, false, none, some, [], ◌∷◌, All}
use devagent.Model.Capability.{PropertySchema, Capability}
use devagent.Mcptool.{describe, compile_tool}
use devagent.Mcptool.Parameters.{Offered, Declared, compile_tool-Offers}
use devagent.Tests.Daemon.{set_led}

-- 0 to 255.5 percent.
abbrev level : PropertySchema
level = record {
  type_name = "integer";
  enum_values = [];
  unit = "percent";
  min_value = some (pos 0);
  max_value = some (pos 255_500);
}

abbrev tags : PropertySchema
tags = record {
  type_name = "array";
  enum_values = [];
  unit = "";
  min_value = none;
  max_value = none;
}

abbrev dim : Capability
dim = record set_led {
  description = "dims";
  input_schema = record {
    type_name = "object";
    properties = ("level", level) ∷ ("tags", tags) ∷ [];
    required = "level" ∷ "tags" ∷ [];
  };
}

described : describe dim true ≡ "[维护中] dims level(percent)"
unfolding describe
described = refl

compile_tool-Offers_example :
    All (Declared dim.input_schema.properties) (compile_tool "shelf_01" dim false).parameters
    × All
        (Offered
          (compile_tool "shelf_01" dim false).parameters
          dim.input_schema.required
          (pos 255_500)
          (pos 255))
        dim.input_schema.properties
compile_tool-Offers_example = compile_tool-Offers "shelf_01" dim false (pos 255_500) (pos 255)
