-- ===== src/Daemon/Startup/Advertised.antt =====
-- internal/daemon/server.go and internal/sidecar/router.go: what a daemon advertises, and what a sidecar
-- makes of it.
use Prim.Native.Char.{code}
use Prim.Native.String.append
use Prim.Native.String.{◌++◌ as str_append}
use devagent.Base.{
  ℕ, ◌≡◌, ◌≢◌, ◌⊎◌, ◌↔◌, inl, inr, refl, ap, ◌∙◌, String, Bool, true, false, ◌||◌, some, List, ◌∷◌,
  ◌==◌, arith, str_eq, eq_iff, if◌then◌else◌, codes, contains, contains_text, has_prefix,
  Bool-cases,
}
use devagent.Config.{TlsConfig}
use devagent.Sidecar.Browse.{
  ServiceEntry, is_devagent, has_suffix, first_label, scheme_of, gateway_url, gateway_of,
}
use devagent.Daemon.Startup.{txt_records, serves_tls}

-- The name of the service, as the mDNS library makes it of the gateway's name.
abbrev pub service_name : String → String
service_name gateway_id = str_append gateway_id "._devagent._tcp.local."

abbrev pub DotFree : String → Type 0
DotFree String.[] = Unit
DotFree (String.◌∷◌ c s) = ((code c == b'.') ≡ false) × DotFree s

first_label-service_name :
    (gateway_id : String) → DotFree gateway_id → first_label (service_name gateway_id) ≡ gateway_id
unfolding first_label
first_label-service_name String.[] h = refl
first_label-service_name (String.◌∷◌ c s) (own, h) =
    ap first_label (append.cons c s "._devagent._tcp.local.")
    ∙ rw (first_label, own) (ap (String.◌∷◌ c) (first_label-service_name s h))

contains_text-cons :
    (c : ℕ) (cs sub : List ℕ) → contains_text cs sub ≡ true → contains_text (c ∷ cs) sub ≡ true
unfolding contains_text
contains_text-cons c cs sub h = elim (Bool-cases (has_prefix (c ∷ cs) sub)) [
  | inl here ↦ rw (contains_text, here) refl
  | inr later ↦ rw (contains_text, later) h
]

contains_text-service_name :
    (gateway_id : String)
    → contains_text (codes (service_name gateway_id)) (codes "._devagent._tcp.") ≡ true
unfolding contains_text
contains_text-service_name String.[] = refl
contains_text-service_name (String.◌∷◌ c s) =
    ap (λ t. contains_text (codes t) (codes "._devagent._tcp."))
      (append.cons c s "._devagent._tcp.local.")
    ∙ contains_text-cons (code c) (codes (service_name s)) (codes "._devagent._tcp.")
        (contains_text-service_name s)

-- The code of the first character.
abbrev head_code : String → ℕ
head_code String.[] = 0
head_code (String.◌∷◌ c s) = code c

gateway_record-differs : (gateway_id : String) → str_append "gateway=" gateway_id ≢ "tls=1"
gateway_record-differs gateway_id e =
    let same : head_code (str_append "gateway=" gateway_id) ≡ head_code "tls=1" = ap head_code e in
    let first : head_code (str_append "gateway=" gateway_id) ≡ b'g' =
      ap head_code (append.cons "g" "ateway=" gateway_id) in
    absurd (omega arith)

version_record-differs : (version : String) → str_append "version=" version ≢ "tls=1"
version_record-differs version e =
    let same : head_code (str_append "version=" version) ≡ head_code "tls=1" = ap head_code e in
    let first : head_code (str_append "version=" version) ≡ b'v' =
      ap head_code (append.cons "v" "ersion=" version) in
    absurd (omega arith)

protocols_record-differs : ◌≢◌ {A = String} "protocols=urpc,dcp" "tls=1"
protocols_record-differs = ground (arith, eq_iff "protocols=urpc,dcp" "tls=1")

abbrev pub served_scheme : TlsConfig → String
served_scheme tls = if serves_tls tls then "https" else "http"

scheme_of-txt_records :
    (gateway_id version : String) (tls : TlsConfig)
    → scheme_of (txt_records gateway_id version tls)
      ≡ (if str_eq tls.cert_path "" then "http" else "https")
unfolding scheme_of txt_records contains
scheme_of-txt_records gateway_id version tls =
    let gateway = gateway_record-differs gateway_id in
    let versioned = version_record-differs version in
    ground (
      arith,
      eq_iff (str_append "gateway=" gateway_id) "tls=1",
      eq_iff (str_append "version=" version) "tls=1",
      eq_iff "protocols=urpc,dcp" "tls=1",
      protocols_record-differs,
      eq_iff "tls=1" "tls=1",
    )

schemes_differ : ◌≢◌ {A = String} "https" "http"
schemes_differ = ground (arith, eq_iff "https" "http")

is_devagent-service_name : (gateway_id : String) → is_devagent (service_name gateway_id) ≡ true
unfolding is_devagent
is_devagent-service_name gateway_id =
    or_true (has_suffix (codes (service_name gateway_id)) (codes "._devagent._tcp."))
      (contains_text-service_name gateway_id)
  where
    or_true : (a : Bool) {b : Bool} → b ≡ true → (a || b) ≡ true
    or_true true h = refl
    or_true false h = h

scheme-served :
    (tls : TlsConfig)
    → ◌≡◌ {A = String} (if str_eq tls.cert_path "" then "http" else "https") (served_scheme tls)
      ↔ ((tls.cert_path ≡ "") ⊎ (tls.key_path ≢ ""))
unfolding serves_tls
scheme-served tls = elim (Bool-cases (str_eq tls.cert_path "")) [
  | inl plain ↦ (λ e. inl ((eq_iff tls.cert_path "").0 plain), λ h. rw (serves_tls, plain) refl)
  | inr cert ↦ elim (Bool-cases (str_eq tls.key_path "")) [
    | inr key ↦
        (λ e. inr (ground (arith, eq_iff tls.key_path "")), λ h. rw (serves_tls, cert, key) refl)
    | inl no_key ↦ (
      λ e. absurd (schemes_differ (rw (serves_tls, cert, no_key) at e)),
      λ h. absurd (elim h [
        | inl empty ↦ ground (arith, eq_iff tls.cert_path "")
        | inr named ↦ named ((eq_iff tls.key_path "").0 no_key)
      ]),
    )
  ]
]

-- The sidecar's reading of what a daemon advertises, where the entry has an IPv4 address and the gateway's
-- name has no dot: the name is the gateway's, the URL has that address and port, and its scheme is
-- the one that the daemon serves with exactly when no certificate is configured or a key is, too. With a
-- certificate and no key the sidecar calls a daemon by HTTPS that serves HTTP.
pub gateway_of-advertised :
    (show_port : ℕ → String) (gateway_id version addr : String) (tls : TlsConfig)
    (entry : ServiceEntry)
    → DotFree gateway_id
    → entry.name ≡ service_name gateway_id
    → entry.addr_v4 ≡ some addr
    → entry.info_fields ≡ txt_records gateway_id version tls
    → (scheme : String) × (gateway_of show_port entry
        ≡ some (gateway_id, gateway_url show_port scheme addr entry.port))
      × ((scheme ≡ served_scheme tls) ↔ ((tls.cert_path ≡ "") ⊎ (tls.key_path ≢ "")))
unfolding gateway_of
gateway_of-advertised show_port gateway_id version addr tls entry plain named at sent =
    let scheme : String = if str_eq tls.cert_path "" then "http" else "https" in
    let label : first_label entry.name ≡ gateway_id =
      ap first_label named ∙ first_label-service_name gateway_id plain in
    let schemed : scheme_of entry.info_fields ≡ scheme =
      ap scheme_of sent ∙ scheme_of-txt_records gateway_id version tls in
    let taken : is_devagent entry.name ≡ true =
      ap is_devagent named ∙ is_devagent-service_name gateway_id in
    (
      scheme,
      rw (gateway_of, taken, at)
          (ap (λ l. some (l, gateway_url show_port (scheme_of entry.info_fields) addr entry.port))
              label
            ∙ ap (λ c. some (gateway_id, gateway_url show_port c addr entry.port)) schemed),
      scheme-served tls,
    )
