-- ===== src/Api/Site.antt =====
-- internal/api/server.go: the server, requests and responses, and what the handlers share. JSON
-- decoding, password checks, the splitting of host and port, the reads that only query the
-- database, and which calls of the store fail are parameters, the record World.
use motzworks.Prelude.{ℕ, Bool, List, ◌++◌, Option, none, some, if◌then◌else◌}
use motzworks.Prelude.Int.{ℤ, pos_part}
use motzworks.Text.{Text, lit, is_empty, trim_space, before_byte}
use motzworks.Text.Number.{atoi}
use motzworks.Auth.{Claims, Crypto, Bytes}
use motzworks.Vault
use motzworks.Vault.{Box}
use motzworks.Scheduler.{ScanOptions, positive_or}
use motzworks.Store.Targets.{Orders, Tables, ScanTarget, StoredCredential, Schedule}
use motzworks.Store.Queries.{DeviceListItem, Query}
use motzworks.Store.Queries.Devices.{DeviceDetail, Database}
use motzworks.Store.Accounts.{User, AuditEntry, Value, insert_audit}

-- The patterns of Handler.
pub data Route : Type 0 where
  login logout health metrics me stats devices device devices_csv software software_devices changes
        scans scan_detail list_targets list_schedules trigger_scan create_target delete_target
        list_credentials create_credential delete_credential create_schedule audit_log unknown_api
        static :
      Route

pub record Request : Type 0 where
  pub route : Route
  pub cookie : Option Text
  pub path_id : Text
  pub query : Text → Text
  pub body : Text
  pub forwarded_for : Text
  pub remote_addr : Text

pub record Cookie : Type 0 where
  pub value : Text
  pub expires : Option ℕ
  pub deleted : Bool
  pub http_only : Bool
  pub secure : Bool

-- The JSON of a stored credential, which has no secret.
pub record CredentialJson : Type 0 where
  pub id : Text
  pub name : Text
  pub kind : Text
  pub username : Text
  pub extra : List (Text × Text)

unfoldable pub to_json : StoredCredential → CredentialJson
to_json sc = record {
  id = sc.id;
  name = sc.name;
  kind = sc.kind;
  username = sc.username;
  extra = sc.extra;
}

-- What a response carries.
pub data Payload : Type 0 where
  error : Text → Payload
  status : Text → Payload
  created : Text → Payload
  account : Text → Text → Payload
  targets : List ScanTarget → Payload
  credentials : List CredentialJson → Payload
  schedules : List Schedule → Payload
  entries : List AuditEntry → Payload
  page : List DeviceListItem → ℕ → ℤ → ℤ → Payload
  device_detail : DeviceDetail → Payload
  csv : List DeviceListItem → Payload
  document : Text → Payload
  scan_with_events : Text → Text → Payload

pub record Response : Type 0 where
  pub code : ℕ
  pub payload : Payload
  pub cookie : Option Cookie

pub record Site : Type 0 where
  pub tables : Tables
  pub users : List User
  pub log : List AuditEntry
  pub scans : List ScanOptions

-- Server; a duration is in nanoseconds.
pub record Server : Type 0 where
  pub secret : Bytes
  pub ttl : ℕ
  pub concurrency : ℤ
  pub secure_cookie : Bool

-- New
unfoldable pub new : Bytes → ℤ → ℤ → Bool → Server
new secret session_ttl concurrency secure_cookie = record {
  secret = secret;
  ttl = pos_part (positive_or session_ttl 43_200_000_000_000);
  concurrency = positive_or concurrency 32;
  secure_cookie = secure_cookie;
}

pub record LoginBody : Type 0 where
  pub username : Text
  pub password : Text

pub record ScanBody : Type 0 where
  pub targets : List Text
  pub target_id : Text

pub record TargetBody : Type 0 where
  pub name : Text
  pub cidrs : List Text
  pub enabled : Option Bool

pub record CredentialBody : Type 0 where
  pub name : Text
  pub kind : Text
  pub username : Text
  pub secret : Text
  pub extra : List (Text × Text)

pub record ScheduleBody : Type 0 where
  pub scan_target_id : Text
  pub interval_secs : ℤ
  pub enabled : Option Bool

-- The decoder's result, or its error.
pub data Decoded (A : Type 0) : Type 0 where
  good : A → Decoded A
  bad : Text → Decoded A

-- The calls of the store that a handler makes itself.
pub data Call : Type 0 where
  get_user touch insert_audit_entry get_target read_credentials put_target drop_target
        put_credential drop_credential put_schedule read_targets read_schedules read_audit :
      Call

-- The nanoseconds of a second.
abbrev pub nanos : ℕ
nanos = 1_000_000_000

-- What a request meets: the clock, the libraries, which calls of the store fail, and what the
-- database answers. The JSON of the rows that answer a query is a text; a scan run is its id and
-- its JSON.
pub record World : Type 0 where
  pub now : ℕ
  pub crypto : Crypto
  pub box : Box
  pub vault : Vault.Vault
  pub nonce : Bytes
  pub to_text : Bytes → Text
  pub to_bytes : Text → Bytes
  pub check_password : Text → Text → Bool
  pub split_host_port : Text → Option Text
  pub decode_login : Text → Decoded LoginBody
  pub decode_scan : Text → Decoded ScanBody
  pub decode_target : Text → Decoded TargetBody
  pub decode_credential : Text → Decoded CredentialBody
  pub decode_schedule : Text → Decoded ScheduleBody
  pub fails : Call → Bool
  pub new_id : Text
  pub orders : Orders
  pub db : Database
  pub answer : Query → Option Text
  pub stats : Option Text
  pub scan_run : Text → Option (Option (Text × Text))
  pub metrics : Response
  pub static_files : Request → Response

abbrev pub reply : ℕ → Payload → Response
reply code payload = record { code = code; payload = payload; cookie = none }

-- writeError
unfoldable pub write_error : ℕ → Text → Response
write_error code msg = reply code (error msg)

-- serverError
unfoldable pub server_error : Response
unfolding lit write_error
server_error = write_error 500 (lit "internal error")

-- queryInt
abbrev pub or_int : Option ℤ → ℤ → ℤ
or_int none d = d
or_int (some n) d = n

unfoldable pub query_int : Request → Text → ℤ → ℤ
query_int r key d = if is_empty (r.query key) then d else or_int (atoi (r.query key)) d

module _ (w : World) where
  abbrev or_host : Option Text → Text → Text
  or_host none addr = addr
  or_host (some host) addr = host

  -- clientIP
  unfoldable pub client_ip : Request → Text
  client_ip r =
      if is_empty r.forwarded_for
      then or_host (w.split_host_port r.remote_addr) r.remote_addr
      else trim_space (before_byte r.forwarded_for b',')

  -- The entry that the store's InsertAudit adds, unless it fails.
  unfoldable pub add_entry : Text → Text → Text → Request → List (Text × Value) → Site → Site
  add_entry actor action target r detail s = if w.fails insert_audit_entry then s else record s {
    log =
        insert_audit
          (record {
            ts = w.now;
            actor = actor;
            action = action;
            target = target;
            ip = client_ip r;
            detail = detail;
          })
          s.log;
  }

  -- audit
  unfoldable pub audit : Claims → Text → Text → Request → List (Text × Value) → Site → Site
  audit c action target r detail s = add_entry c.username action target r detail s

-- readJSON: the 400 that it writes if the body does not decode.
unfoldable pub read_json : {A : Type 0} → Decoded A → Site → (A → Site × Response) → Site × Response
unfolding lit
read_json (bad e) s f = (s, write_error 400 (lit "invalid request body: " ++ e))
read_json (good a) s f = f a
