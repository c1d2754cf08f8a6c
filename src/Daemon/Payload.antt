-- ===== src/Daemon/Payload.antt =====
-- internal/daemon/server.go, `formatURPCPayload` and `replacePlaceholder`: the template of a command
-- with its parameters put in. A text is a list of code points. The parameters are a list in the order
-- in which the map yields them on this call, which Go leaves open.
use devagent.Base.{
  ℕ, ℤ, String, Bool, List, [], ◌∷◌, ◌++◌, if◌then◌else◌, codes, decimal, replace_all, utf8,
}

-- A value that JSON gives, by the cases of the type switch: a whole number, a text, a Boolean. The
-- library's formatting (`%g` of a fraction, `%v` of anything else) is given with the value.
pub data ParamValue : Type 0 where
  whole : ℤ → ParamValue
  fraction : List ℕ → ParamValue
  boolean : Bool → ParamValue
  text : List ℕ → ParamValue
  other : List ℕ → ParamValue

abbrev pub Params : Type 0
Params = List (String × ParamValue)

unfoldable pub replacement : ParamValue → List ℕ
replacement (whole n) = decimal n
replacement (fraction formatted) = formatted
replacement (boolean b) = if b then b'1' ∷ [] else b'0' ∷ []
replacement (text s) = s
replacement (other formatted) = formatted

unfoldable pub replace_placeholder : List ℕ → String → ParamValue → List ℕ
unfolding replacement
replace_placeholder s key val = replace_all s (b'{' ∷ (codes key ++ b'}' ∷ [])) (replacement val)

unfoldable pub replace_each : List ℕ → Params → List ℕ
unfolding replace_placeholder
replace_each s [] = s
replace_each s ((key, val) ∷ params) = replace_each (replace_placeholder s key val) params

-- The template with its parameters, as a text, and its bytes.
unfoldable pub fill_template : String → Params → List ℕ
unfolding replace_each
fill_template fmt params = replace_each (codes fmt) params

unfoldable pub format_urpc_payload : String → Params → List ℕ
unfolding fill_template
format_urpc_payload fmt params = utf8 (fill_template fmt params)
