-- ===== src/Sidecar/Browse.antt =====
-- internal/sidecar/router.go, `Discover`: what an mDNS entry is taken for. Browsing the network is input;
-- how a port is printed is a parameter, and so is the network, as in `Sidecar.Forward`.
use Prim.Native.Char.{code}
use Prim.Native.String.{◌++◌ as str_append}
use devagent.Base.{
  ℕ, String, Bool, ◌||◌, Option, none, some, List, [], ◌==◌, if◌then◌else◌, contains, contains_text,
  codes, length, drop, text_eq, ◌-◌, ◌&&◌, leb,
}
use devagent.Model.Capability.{DeviceConfig}
use devagent.Model.RouteTable.{RouteTable, register, gateway_online}
use devagent.Sidecar.Forward.{fetch_and_register_devices}

pub record ServiceEntry : Type 0 where
  pub name : String
  pub addr_v4 : Option String
  pub port : ℕ
  pub info_fields : List String

-- `strings.HasSuffix`
unfoldable pub has_suffix : List ℕ → List ℕ → Bool
has_suffix s suffix =
    leb (length suffix) (length s) && text_eq (drop (length s - length suffix) s) suffix

unfoldable pub is_devagent : String → Bool
unfolding has_suffix
is_devagent name =
    has_suffix (codes name) (codes "._devagent._tcp.")
    || contains_text (codes name) (codes "._devagent._tcp.")

-- `strings.SplitN(name, ".", 2)[0]`
unfoldable pub first_label : String → String
first_label String.[] = String.[]
first_label (String.◌∷◌ c s) = if code c == b'.' then String.[] else String.◌∷◌ c (first_label s)

-- The loop over the info fields.
unfoldable pub scheme_of : List String → String
unfolding contains
scheme_of info_fields = if contains info_fields "tls=1" then "https" else "http"

module _ (show_port : ℕ → String) where
  unfoldable pub gateway_url : String → String → ℕ → String
  gateway_url scheme addr port =
      str_append scheme (str_append "://" (str_append addr (str_append ":" (show_port port))))

  -- The gateway's name and URL, if the entry is one.
  unfoldable pub gateway_of : ServiceEntry → Option (String × String)
  unfolding is_devagent first_label scheme_of gateway_url
  gateway_of entry =
      if is_devagent entry.name
      then elim entry.addr_v4 [
        | none ↦ none
        | some addr ↦
            some (first_label entry.name, gateway_url (scheme_of entry.info_fields) addr entry.port)
      ]
      else none

  -- One round of the loop over the entries, at the second `now`.
  unfoldable pub discover_entry :
      (String → Option (List DeviceConfig))
      → (String → ℕ)
      → ℕ
      → ServiceEntry
      → RouteTable
      → RouteTable × List DeviceConfig
  unfolding gateway_of
  discover_entry fetch clock now entry rt = elim (gateway_of entry) [
    | none ↦ (rt, [])
    | some (gw_id, gw_url) ↦ fetch_and_register_devices fetch clock gw_id gw_url (
        register
          (record {
            id = gw_id;
            url = gw_url;
            devices = [];
            last_heartbeat = now;
            status = gateway_online;
          })
          now rt)
  ]
