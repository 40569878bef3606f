-- ===== src/Web/Opnsense.antt =====
-- internal/collector/opnsense/opnsense.go. Decoding JSON and strings.ToLower are parameters.
use motzworks.Prelude.{ℕ, List, [], ◌++◌, Option, none, some, not, if◌then◌else◌}
use motzworks.Text.{Text, lit, is_empty, has_infix}
use motzworks.Addr.{Addr}
use motzworks.Model.{Device, no_device, firewall}
use motzworks.Collector.{Credential, Target, CollectError, no_credential, failure, Collected}
use motzworks.Collector
use motzworks.Web.{
  Request, basic, Reply, Tried, ok, err, port_or, https_base, body_of, first_of_kind,
}

pub record FirmwareStatus : Type 0 where
  pub product_name : Text
  pub product_version : Text
  pub nested_name : Text
  pub nested_version : Text

-- pickCredential
unfoldable pub pick_credential : List Credential → Option Credential
unfolding lit
pick_credential = first_of_kind (lit "opnsense-api")

-- name and version
unfoldable pub name : FirmwareStatus → Text
name f = if is_empty f.nested_name then f.product_name else f.nested_name

unfoldable pub version : FirmwareStatus → Text
version f = if is_empty f.nested_version then f.product_version else f.nested_version

module _ (decode : Text → Tried FirmwareStatus) (to_lower : Text → Text) where
  abbrev pub identified : Tried FirmwareStatus → Tried Device
  identified (err e) = err e
  identified (ok fw) =
      if not (has_infix (to_lower (name fw)) (lit "opnsense"))
      then err (lit "not an OPNsense endpoint")
      else ok (record no_device {
        device_type = firewall;
        source = lit "opnsense";
        os = some (record {
          family = lit "opnsense";
          name = name fw;
          version = version fw;
          build = [];
          arch = [];
        });
      })

  -- parseFirmware
  unfoldable pub parse_firmware : Text → Tried Device
  unfolding lit
  parse_firmware raw = identified (decode raw)

  module _ (send : Request → Reply) (print_addr : Addr → Text) (port : ℕ) where
    abbrev pub parsed : Target → Tried Device → Collected
    parsed t (err e) = Collector.err (failure e)
    parsed t (ok dev) =
        Collector.ok
          (record { target = t; device = record dev { primary_ip = t.addr }; related = [] })

    abbrev pub fetched : Target → Tried Text → Collected
    fetched t (err e) = Collector.err (failure (lit "opnsense firmware status: " ++ e))
    fetched t (ok raw) = parsed t (parse_firmware raw)

    -- apiGetBasic
    unfoldable pub api_get_basic : Text → Text → Text → Tried Text
    api_get_basic url user pass = body_of (send (record { url = url; login = basic user pass }))

    abbrev pub with_credential : Target → Option Credential → Collected
    with_credential t none = Collector.err no_credential
    with_credential t (some cred) = fetched t (
        api_get_basic
          (https_base (print_addr t.addr) (port_or 443 port) ++ lit "/api/core/firmware/status")
          cred.username cred.secret)

    -- Collect
    unfoldable pub collect : Target → Collected
    unfolding lit
    collect t = with_credential t (pick_credential t.credentials)
