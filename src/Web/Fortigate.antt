-- ===== src/Web/Fortigate.antt =====
-- internal/collector/fortigate/fortigate.go. Decoding JSON and strings.ToLower are parameters.
use motzworks.Prelude.{ℕ, ◌&&◌, List, [], ◌++◌, Option, none, some, not, if◌then◌else◌}
use motzworks.Prelude.Int.{ℤ, pos}
use motzworks.Text.{Text, lit, is_empty, has_prefix}
use motzworks.Addr.{Addr}
use motzworks.Model.{Device, Hardware, no_device, firewall}
use motzworks.Collector.{Credential, Target, CollectError, no_credential, failure, Collected}
use motzworks.Collector
use motzworks.Web.{
  Request, authorization, Reply, Tried, ok, err, port_or, https_base, body_of, first_of_kind,
}

-- systemStatus, the fields of `results` with it.
pub record SystemStatus : Type 0 where
  pub serial : Text
  pub version : Text
  pub build : ℤ
  pub hostname : Text
  pub model : Text
  pub results_hostname : Text
  pub results_model : Text
  pub results_model_name : Text

-- pickCredential
unfoldable pub pick_credential : List Credential → Option Credential
unfolding lit
pick_credential = first_of_kind (lit "fortigate-token")

-- `x := a; if x == "" { x = b }`
abbrev pub or_else : Text → Text → Text
or_else a b = if is_empty a then b else a

unfoldable pub status_hardware : SystemStatus → Option Hardware
unfolding lit
status_hardware s =
    let model = or_else s.model s.results_model in
    if is_empty model && is_empty s.serial
    then none
    else some (record {
      vendor = lit "Fortinet";
      model = model;
      serial = s.serial;
      cpu = [];
      cpu_cores = pos 0;
      ram_bytes = pos 0;
    })

module _ (decode : Text → Tried SystemStatus) (to_lower : Text → Text) where
  abbrev pub identified : Tried SystemStatus → Tried Device
  identified (err e) = err e
  identified (ok s) =
      if is_empty s.serial && not (has_prefix (to_lower s.version) (lit "v"))
      then err (lit "not a FortiGate endpoint")
      else ok (record no_device {
        device_type = firewall;
        source = lit "fortigate";
        hostname = or_else s.hostname s.results_hostname;
        serial = s.serial;
        os = some (record {
          family = lit "fortios";
          name = lit "FortiOS";
          version = s.version;
          build = [];
          arch = [];
        });
        hardware = status_hardware s;
      })

  -- parseStatus
  unfoldable pub parse_status : Text → Tried Device
  unfolding lit
  parse_status raw = identified (decode raw)

  module _ (send : Request → Reply) (print_addr : Addr → Text) (port : ℕ) where
    abbrev pub parsed : Target → Tried Device → Collected
    parsed t (err e) = Collector.err (failure e)
    parsed t (ok dev) =
        Collector.ok
          (record { target = t; device = record dev { primary_ip = t.addr }; related = [] })

    abbrev pub fetched : Target → Tried Text → Collected
    fetched t (err e) = Collector.err (failure (lit "fortigate system status: " ++ e))
    fetched t (ok raw) = parsed t (parse_status raw)

    -- apiGetBearer
    unfoldable pub api_get_bearer : Text → Text → Tried Text
    unfolding lit
    api_get_bearer url token =
        body_of (send (record { url = url; login = authorization (lit "Bearer " ++ token) }))

    abbrev pub with_credential : Target → Option Credential → Collected
    with_credential t none = Collector.err no_credential
    with_credential t (some cred) = fetched t (
        api_get_bearer
          (https_base (print_addr t.addr) (port_or 443 port) ++ lit "/api/v2/monitor/system/status")
          cred.secret)

    -- Collect
    unfoldable pub collect : Target → Collected
    unfolding lit
    collect t = with_credential t (pick_credential t.credentials)
