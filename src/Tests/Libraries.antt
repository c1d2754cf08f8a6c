-- ===== src/Tests/Libraries.antt =====
-- Concrete libraries for the tests: a codec, a hash and the libraries of the tokens.
use devagent.Base.{
  ℕ, zero, suc, ◌+◌, ◌-◌, ◌<◌, ◌≡◌, ◌≢◌, refl, ap, ◌∙◌, ℤ, pos, negsuc, Option, none, some, List,
  [], ◌∷◌, ◌++◌, arith, length, replicate, All, Assoc, String, lookup, insert, remove,
  lookup-insert, lookup-remove,
}
use devagent.Auth.{TokenClaims, TokenLib}
use devagent.Mcptool.{Tool}
use devagent.Mcptool.Library.{McpLib}
use devagent.Protocol.Dcp.{Codec, Mac}

-- A codec of texts of bytes, behind one byte that tells the two kinds of map apart.
abbrev unmark : List ℕ → Option (List ℕ)
unmark [] = none
unmark (x ∷ xs) = some xs

pub unmark-marked : (v bytes : List ℕ) → some (1 ∷ v) ≡ some bytes → unmark bytes ≡ some v
unmark-marked v [] h = cc
unmark-marked v (x ∷ xs) h = cc

pub marked-pos : (v bytes : List ℕ) → some (1 ∷ v) ≡ some bytes → 0 < length bytes
marked-pos v [] h = cc
marked-pos v (x ∷ xs) h = omega arith

abbrev pub codec : Codec
codec = record {
  Value = List ℕ;
  nil_map = [];
  status_result = λ status v. 2 ∷ v;
  marshal = λ v. some (1 ∷ v);
  unmarshal = unmark;
  decoded = λ v. v;
  unmarshal-marshal = unmark-marked;
  marshal-pos = marked-pos;
}

pub length-sum_lem : (secret message : List ℕ) → length (replicate 32 (length message)) ≡ 32
length-sum_lem secret message = refl

abbrev pub mac : Mac
mac = record {
  sum = λ secret message. replicate 32 (length message);
  digest = λ message. replicate 32 (length message);
  length-sum = length-sum_lem;
}

-- A toy library: each name one up and closed by a zero, and an alphabet from 47 on.
abbrev shut : List ℕ → List ℕ → List ℕ
shut [] rest = 0 ∷ rest
shut (c ∷ cs) rest = suc c ∷ shut cs rest

abbrev names_to : List (List ℕ) → List ℕ
names_to [] = []
names_to (name ∷ names) = shut name (names_to names)

abbrev prefix_first : ℕ → List (List ℕ) → List (List ℕ)
prefix_first c [] = []
prefix_first c (name ∷ names) = (c ∷ name) ∷ names

abbrev names_from : List ℕ → List (List ℕ)
names_from [] = []
names_from (zero ∷ rest) = [] ∷ names_from rest
names_from (suc c ∷ rest) = prefix_first c (names_from rest)

names_from-shut : (name rest : List ℕ) → names_from (shut name rest) ≡ name ∷ names_from rest
names_from-shut [] rest = refl
names_from-shut (c ∷ name) rest = ap (prefix_first c) (names_from-shut name rest)

names_from-to : (names : List (List ℕ)) → names_from (names_to names) ≡ names
names_from-to [] = refl
names_from-to (name ∷ names) =
    names_from-shut name (names_to names) ∙ ap (λ ns. name ∷ ns) (names_from-to names)

abbrev toy_to_json : TokenClaims → List ℕ
toy_to_json claims = elim claims.expires_at [
  | pos n ↦ 0 ∷ n ∷ names_to claims.caps
  | negsuc n ↦ 1 ∷ n ∷ names_to claims.caps
]

abbrev pub toy_from_json : List ℕ → Option TokenClaims
toy_from_json (zero ∷ n ∷ rest) = some (record { caps = names_from rest; expires_at = pos n })
toy_from_json (suc s ∷ n ∷ rest) = some (record { caps = names_from rest; expires_at = negsuc n })
toy_from_json _ = none

toy_from-to_at :
    (caps : List (List ℕ)) (e : ℤ)
    → toy_from_json (toy_to_json (record { caps = caps; expires_at = e }))
      ≡ some (record { caps = caps; expires_at = e })
toy_from-to_at caps (pos n) =
    ap (λ cs. some (record { caps = cs; expires_at = pos n })) (names_from-to caps)
toy_from-to_at caps (negsuc n) =
    ap (λ cs. some (record { caps = cs; expires_at = negsuc n })) (names_from-to caps)

pub toy_from-to : (claims : TokenClaims) → toy_from_json (toy_to_json claims) ≡ some claims
toy_from-to claims = toy_from-to_at claims.caps claims.expires_at

abbrev pub toy_encode : List ℕ → List ℕ
toy_encode [] = []
toy_encode (b ∷ bs) = (b + 47) ∷ toy_encode bs

abbrev pub toy_decode : List ℕ → List ℕ
toy_decode [] = []
toy_decode (b ∷ bs) = (b - 47) ∷ toy_decode bs

pub toy_decode-encode : (bytes : List ℕ) → toy_decode (toy_encode bytes) ≡ bytes
toy_decode-encode [] = refl
toy_decode-encode (b ∷ bs) = ground (arith, toy_decode-encode bs)

pub toy_dotless : (bytes : List ℕ) → All (λ c. c ≢ b'.') (toy_encode bytes)
toy_dotless [] = tt
toy_dotless (b ∷ bs) = (ground arith, toy_dotless bs)

abbrev pub toy : TokenLib
toy = record {
  to_json = toy_to_json;
  from_json = toy_from_json;
  encode64 = toy_encode;
  decode64 = λ bytes. some (toy_decode bytes);
  sum = λ key message. key ++ message;
  from-to_json = toy_from-to;
  decode-encode64 = λ bytes. ap some (toy_decode-encode bytes);
  dotless = toy_dotless;
}

-- The tools by their names.
module _ (Handler : Type 0) where
  pub lookup-empty : (name : String) → lookup {V = Tool × Handler} name [] ≡ none
  unfolding lookup
  lookup-empty name = refl

  abbrev pub mcp_lib : McpLib Handler
  mcp_lib = record {
    Server = Assoc (Tool × Handler);
    new_mcp_server = [];
    add_tool = λ tool handler s. insert tool.name (tool, handler) s;
    delete_tool = λ name s. remove name s;
    tool_at = λ name s. lookup name s;
    tool_at-new_mcp_server = lookup-empty;
    tool_at-add_tool = λ name tool handler s. lookup-insert tool.name name (tool, handler) s;
    tool_at-delete_tool = λ name deleted s. lookup-remove deleted name s;
  }
