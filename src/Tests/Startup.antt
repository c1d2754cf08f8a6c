-- ===== src/Tests/Startup.antt =====
-- Instances of the theorems on the daemon's start and on what the sidecar hears of it.
use devagent.Base.{
  ℕ, ◌≡◌, ◌≢◌, ◌⊎◌, ◌↔◌, refl, Option, none, some, String, [], ◌∷◌, err, text_eq, contains_text,
}
use devagent.Config.{GlobalConfig, TlsConfig, default_global_config}
use devagent.Model.Capability.{DeviceConfig}
use devagent.Daemon.SerialPort.{opened}
use devagent.Daemon.Startup.{InvokeHandler, read_failed, parse_failed, txt_records, serves_tls}
use devagent.Daemon.Startup.Restored.{started, Serves, start-Serves}
use devagent.Daemon.Startup.Advertised.{service_name, served_scheme, gateway_of-advertised}
use devagent.Sidecar.Browse.{ServiceEntry, gateway_url, gateway_of}
use devagent.Tests.Libraries.{mcp_lib}
use devagent.Tests.Daemon.{shelf, state_codec}

abbrev gcfg : GlobalConfig
gcfg = record default_global_config {
  daemon = record default_global_config.daemon { state_path = "state.json" };
}

-- The state file has the shelf under another name.
abbrev old_shelf : DeviceConfig
old_shelf = record shelf { device = record shelf.device { name = "old shelf" } }

abbrev content_of : String → Option ℕ
content_of path = some 1

abbrev parsed : ℕ → Option DeviceConfig
parsed bytes = some shelf

abbrev Start : Option DeviceConfig → Type 0
Start =
    Serves state_codec content_of parsed (mcp_lib InvokeHandler) gcfg (some (old_shelf ∷ []))
      "shelf.yaml" opened 100 101

start-Serves_example :
    (◌≡◌ {A = String} "shelf.yaml" "" × Start none)
    ⊎ (◌≢◌ {A = String} "shelf.yaml" ""
        × (content_of "shelf.yaml" ≡ none)
        × (started state_codec content_of parsed
              (mcp_lib InvokeHandler)
              gcfg
              (some (old_shelf ∷ []))
              "shelf.yaml"
              opened
              100
              101
            ≡ err read_failed))
    ⊎ (◌≢◌ {A = String} "shelf.yaml" ""
        × ((bytes : ℕ) × (content_of "shelf.yaml" ≡ some bytes)
            × (parsed bytes ≡ none)
            × (started state_codec content_of parsed
                  (mcp_lib InvokeHandler)
                  gcfg
                  (some (old_shelf ∷ []))
                  "shelf.yaml"
                  opened
                  100
                  101
                ≡ err parse_failed)))
    ⊎ (◌≢◌ {A = String} "shelf.yaml" ""
        × ((bytes : ℕ) × ((cfg : DeviceConfig) × (content_of "shelf.yaml" ≡ some bytes)
              × (parsed bytes ≡ some cfg)
              × Start (some cfg))))
start-Serves_example =
    start-Serves state_codec content_of parsed (mcp_lib InvokeHandler) gcfg (some (old_shelf ∷ []))
      "shelf.yaml" opened 100 101

abbrev only_cert : TlsConfig
only_cert = record { cert_path = "cert.pem"; key_path = "" }

abbrev port_text : ℕ → String
port_text port = "8443"

abbrev entry : ServiceEntry
entry = record {
  name = service_name "gw_1";
  addr_v4 = some "10.0.0.7";
  port = 8443;
  info_fields = txt_records "gw_1" "0.9.0" only_cert;
}

-- What is advertised is HTTPS, and what is served is not.
advertised :
    (gateway_of port_text entry ≡ some ("gw_1", "https://10.0.0.7:8443"))
    × (served_scheme only_cert ≡ "http")
unfolding gateway_of txt_records serves_tls text_eq contains_text
advertised = (refl, refl)

gateway_of-advertised_example :
    (scheme : String) × (gateway_of port_text entry
      ≡ some ("gw_1", gateway_url port_text scheme "10.0.0.7" 8443))
    × ((scheme ≡ served_scheme only_cert)
        ↔ (◌≡◌ {A = String} "cert.pem" "" ⊎ ◌≢◌ {A = String} "" ""))
gateway_of-advertised_example =
    gateway_of-advertised port_text "gw_1" "0.9.0" "10.0.0.7" only_cert entry
      (refl, (refl, (refl, (refl, tt)))) refl refl refl
