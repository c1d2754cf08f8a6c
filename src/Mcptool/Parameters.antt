-- ===== src/Mcptool/Parameters.antt =====
-- Which parameters a compiled tool has, which of them it demands, and which numbers they take.
use devagent.Base.{
  ℤ, ◌≡◌, ◌↔◌, ◌≢◌, ◌⊎◌, Bool-cases, false, str_eq, In-All, inl, inr, refl, ap, ◌∙◌, String, Bool,
  true, Option, none, some, List, [], ◌∷◌, ◌++◌, arith, Option-cases, eq_iff, Assoc, In, All,
  contains, contains→In, In→contains,
}
use devagent.Model.Capability.{PropertySchema, Capability, is_required}
use devagent.Mcptool.{
  PropertyOption, ParameterKind, integer, string, boolean, number, Parameter, of_int, truncated,
  enum_options, minimum_options, maximum_options, required_options, bounded_options,
  compile_property, compile_properties, compile_tool,
}
use devagent.Mcptool.Values.{
  type_name_of, takes, demands, permitted, cut, Lossy, permitted-cut, takes-bounded, takes-required,
  same_bound,
}

demands-required :
    (name : String) (names : List String)
    → demands (required_options name names) ≡ contains names name
unfolding required_options is_required
demands-required name names = ground arith

demands-bounded :
    (convert : ℤ → ℤ) (name : String) (prop : PropertySchema) (names : List String)
    → demands (bounded_options convert name prop names) ≡ contains names name
unfolding bounded_options enum_options minimum_options maximum_options
demands-bounded convert name prop names =
    by_values prop.enum_values prop.min_value prop.max_value ∙ demands-required name names
  where
    by_values :
        (vs : List ℤ) (low high : Option ℤ)
        → demands (
            enum_options vs
            ++ (minimum_options convert low
                ++ (maximum_options convert high ++ required_options name names)))
          ≡ demands (required_options name names)
    by_values [] none none = refl
    by_values [] none (some b) = refl
    by_values [] (some a) none = refl
    by_values [] (some a) (some b) = refl
    by_values (v ∷ vs) none none = refl
    by_values (v ∷ vs) none (some b) = refl
    by_values (v ∷ vs) (some a) none = refl
    by_values (v ∷ vs) (some a) (some b) = refl

-- A property and the parameter that stands for it: `v` is any number, and `k` any integer.
pub record Offers (names : List String) (name : String) (prop : PropertySchema)
    (kind : ParameterKind) (v k : ℤ) (parameter : Parameter) : Type 0 where
  pub named : parameter.name ≡ name
  pub of_kind : parameter.kind ≡ kind
  pub demanded : (demands parameter.options ≡ true) ↔ In name names
  pub values : takes parameter.options v ≡ permitted kind (cut kind prop) v
  pub as_declared :
      (takes parameter.options (of_int k) ≡ permitted kind prop (of_int k)) ⊎ Lossy kind prop

contains_iff : (names : List String) (name : String) → (contains names name ≡ true) ↔ In name names
contains_iff names name = (contains→In names name, In→contains names name)

options_of : ParameterKind → String → PropertySchema → List String → List PropertyOption
options_of integer name prop names = bounded_options truncated name prop names
options_of string name prop names = required_options name names
options_of boolean name prop names = required_options name names
options_of number name prop names = bounded_options (λ x. x) name prop names

compile_property-options_of :
    (names : List String) (name : String) (prop : PropertySchema) (kind : ParameterKind)
    → prop.type_name ≡ type_name_of kind
    → compile_property name prop names
      ≡ some (record { name = name; kind = kind; options = options_of kind name prop names })
unfolding compile_property options_of
compile_property-options_of names name prop integer typed = rw (compile_property, typed) refl
compile_property-options_of names name prop string typed = rw (compile_property, typed) refl
compile_property-options_of names name prop boolean typed = rw (compile_property, typed) refl
compile_property-options_of names name prop number typed = rw (compile_property, typed) refl

demands-options_of :
    (kind : ParameterKind) (name : String) (prop : PropertySchema) (names : List String)
    → demands (options_of kind name prop names) ≡ contains names name
unfolding options_of
demands-options_of integer name prop names = demands-bounded truncated name prop names
demands-options_of string name prop names = demands-required name names
demands-options_of boolean name prop names = demands-required name names
demands-options_of number name prop names = demands-bounded (λ x. x) name prop names

takes-options_of :
    (kind : ParameterKind) (name : String) (prop : PropertySchema) (names : List String) (v : ℤ)
    → takes (options_of kind name prop names) v ≡ permitted kind (cut kind prop) v
unfolding options_of
takes-options_of integer name prop names v = takes-bounded truncated name prop names v
takes-options_of string name prop names v = takes-required name names v
takes-options_of boolean name prop names v = takes-required name names v
takes-options_of number name prop names v =
    takes-bounded (λ x. x) name prop names v
    ∙ rw (same_bound prop.min_value, same_bound prop.max_value) refl

compile_property-Offers :
    (names : List String) (name : String) (prop : PropertySchema) (kind : ParameterKind) (v k : ℤ)
    → Offers names name prop kind v k
        (record { name = name; kind = kind; options = options_of kind name prop names })
compile_property-Offers names name prop kind v k = record {
  named = refl;
  of_kind = refl;
  demanded = rw (demands-options_of kind name prop names) (contains_iff names name);
  values = takes-options_of kind name prop names v;
  as_declared = elim (permitted-cut kind prop k) [
    | inl same ↦ inl (takes-options_of kind name prop names (of_int k) ∙ same)
    | inr lossy ↦ inr lossy
  ];
}

-- The parameter stands for a property of its name and kind.
abbrev pub Declared : Assoc PropertySchema → Parameter → Type 0
Declared props parameter =
    (prop : PropertySchema) × In (parameter.name, prop) props
    × (prop.type_name ≡ type_name_of parameter.kind)

compile_property-declared :
    (names : List String) (name : String) (prop : PropertySchema) (parameter : Parameter)
    → compile_property name prop names ≡ some parameter
    → (parameter.name ≡ name) × (prop.type_name ≡ type_name_of parameter.kind)
unfolding compile_property
compile_property-declared names name prop parameter made = ground (
  arith,
  eq_iff prop.type_name "integer",
  eq_iff prop.type_name "string",
  eq_iff prop.type_name "boolean",
  eq_iff prop.type_name "number",
)

compile_properties-Declared :
    (names : List String) (whole props : Assoc PropertySchema)
    → ((e : String × PropertySchema) → In e props → In e whole)
    → All (Declared whole) (compile_properties props names)
unfolding compile_properties
compile_properties-Declared names whole [] within = tt
compile_properties-Declared names whole ((name, prop) ∷ props) within =
    let rest = compile_properties-Declared names whole props (λ e m. within e (inr m)) in
    elim (Option-cases (compile_property name prop names)) [
      | inl dropped ↦ rw (compile_properties, dropped) rest
      | inr (parameter, made) ↦
          let (named, typed) = compile_property-declared names name prop parameter made in
          rw (compile_properties, made)
            ((prop, rw named (within (name, prop) (inl refl)), typed), rest)
    ]

offered :
    (names : List String) (props : Assoc PropertySchema) (name : String) (prop : PropertySchema)
    (parameter : Parameter)
    → In (name, prop) props
    → compile_property name prop names ≡ some parameter
    → In parameter (compile_properties props names)
unfolding compile_properties
offered names [] name prop parameter listed made = absurd listed
offered names ((n, q) ∷ props) name prop parameter (inl same) made =
    let first : compile_property n q names ≡ some parameter =
      ap (λ (e : String × PropertySchema). compile_property e.0 e.1 names) same ∙ made in
    rw (compile_properties, first) (inl refl)
offered names ((n, q) ∷ props) name prop parameter (inr later) made =
    let rest = offered names props name prop parameter later made in
    elim (Option-cases (compile_property n q names)) [
      | inl dropped ↦ rw (compile_properties, dropped) rest
      | inr (first, kept) ↦ rw (compile_properties, kept) (inr rest)
    ]

-- A type that stands for no parameter.
abbrev pub Unknown : String → Type 0
Unknown type_name =
    (type_name ≢ "integer")
    × (type_name ≢ "string")
    × (type_name ≢ "boolean")
    × (type_name ≢ "number")

-- What becomes of a property: nothing if its type is none of the four, else a parameter.
abbrev pub Offered : List Parameter → List String → ℤ → ℤ → String × PropertySchema → Type 0
Offered parameters names v k (name, prop) =
    Unknown prop.type_name
    ⊎ ((kind : ParameterKind) × ((prop.type_name ≡ type_name_of kind)
          × ((parameter : Parameter) × (In parameter parameters
                × Offers names name prop kind v k parameter))))

differs : (s t : String) → str_eq s t ≡ false → s ≢ t
differs s t unequal same = absurd (ground (arith, eq_iff s t))

kind_of-cases :
    (type_name : String)
    → Unknown type_name ⊎ ((kind : ParameterKind) × (type_name ≡ type_name_of kind))
kind_of-cases type_name = elim (Bool-cases (str_eq type_name "integer")) [
  | inl is_integer ↦ inr (integer, (eq_iff type_name "integer").0 is_integer)
  | inr not_integer ↦ elim (Bool-cases (str_eq type_name "string")) [
    | inl is_string ↦ inr (string, (eq_iff type_name "string").0 is_string)
    | inr not_string ↦ elim (Bool-cases (str_eq type_name "boolean")) [
      | inl is_boolean ↦ inr (boolean, (eq_iff type_name "boolean").0 is_boolean)
      | inr not_boolean ↦ elim (Bool-cases (str_eq type_name "number")) [
        | inl is_number ↦ inr (number, (eq_iff type_name "number").0 is_number)
        | inr not_number ↦ inl (
          differs type_name "integer" not_integer,
          differs type_name "string" not_string,
          differs type_name "boolean" not_boolean,
          differs type_name "number" not_number,
        )
      ]
    ]
  ]
]

property-Offered :
    (names : List String) (props : Assoc PropertySchema) (v k : ℤ) (name : String)
    (prop : PropertySchema)
    → In (name, prop) props
    → Offered (compile_properties props names) names v k (name, prop)
property-Offered names props v k name prop listed = elim (kind_of-cases prop.type_name) [
  | inl unknown ↦ inl unknown
  | inr (kind, typed) ↦
      let parameter : Parameter = record {
        name = name;
        kind = kind;
        options = options_of kind name prop names;
      } in
      inr (
        kind,
        (
          typed,
          (
            parameter,
            (
              offered names props name prop parameter listed
                  (compile_property-options_of names name prop kind typed),
              compile_property-Offers names name prop kind v k,
            ),
          ),
        ),
      )
]

-- Every parameter of a compiled tool stands for a property of one of the four types, of its kind and
-- name. Every property of such a type has its parameter, and a property of another type has none of its
-- own. The parameter demands an argument exactly when the schema requires the property. It takes a
-- number exactly when the property's enumeration and bounds permit it, where the bounds of an integer's
-- property have lost their fraction towards zero; for an integer this is what the property itself
-- permits, unless the fraction that was lost is one of a lower bound above zero or of an upper bound
-- below zero. None of it depends on maintenance.
pub compile_tool-Offers :
    (device_id : String) (capability : Capability) (maintenance : Bool) (v k : ℤ)
    → let parameters = (compile_tool device_id capability maintenance).parameters in
      All (Declared capability.input_schema.properties) parameters
      × All
          (Offered parameters capability.input_schema.required v k)
          capability.input_schema.properties
unfolding compile_tool
compile_tool-Offers device_id capability maintenance v k =
    let props = capability.input_schema.properties in
    let names = capability.input_schema.required in
    (
      compile_properties-Declared names props props (λ e m. m),
      In-All props (λ (e : String × PropertySchema) m. property-Offered names props v k e.0 e.1 m),
    )
