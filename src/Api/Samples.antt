-- ===== src/Api/Samples.antt =====
-- A site, its server and requests for the examples.
use motzworks.Store.Samples.{inserted}
use motzworks.Prelude.{true, false, [], ◌∷◌, ◌++◌, none, some}
use motzworks.Prelude.Int.{pos}
use motzworks.Text.{Text, lit, text_eq}
use motzworks.Auth.Samples.{shift, int_code, put_text, crypto, box, vault, nonce}
use motzworks.Store.Accounts.{User}
use motzworks.Store.Queries.Devices.{Database, no_rows}
use motzworks.Api.Site.{
  Route, Request, Site, Server, World, CredentialBody, good, bad, reply, document,
}

abbrev pub srv : Server
srv = record { secret = 7 ∷ []; ttl = 100; concurrency = pos 4; secure_cookie = true }

abbrev pub root : User
root = record {
  id = 1 ∷ [];
  username = 2 ∷ [];
  password_hash = 3 ∷ [];
  role = lit "admin";
  created_at = 0;
  last_login_at = none;
}

abbrev pub db : Database
db = record {
  count = λ q. no_rows;
  list_items = λ q. none;
  device_row = λ id. no_rows;
  os_row = λ id. no_rows;
  hardware_row = λ id. no_rows;
  interface_rows = λ id. none;
  software_rows = λ id. none;
  user_rows = λ id. none;
}

abbrev pub made : CredentialBody
made = record {
  name = 1 ∷ [];
  kind = lit "winrm";
  username = 2 ∷ [];
  secret = 9 ∷ 9 ∷ [];
  extra = [];
}

abbrev pub credential_body : Text → CredentialBody
credential_body [] = made
credential_body (c ∷ s) = record made { secret = c ∷ s }

-- Every call of the store succeeds; a password is right if it is the hash.
abbrev pub world : World
world = record {
  now = 5;
  crypto = crypto;
  box = box;
  vault = vault;
  nonce = nonce;
  to_text = λ b. b;
  to_bytes = λ s. s;
  check_password = text_eq;
  split_host_port = λ s. none;
  decode_login = λ s. good (record { username = 2 ∷ []; password = s });
  decode_scan = λ s. bad [];
  decode_target = λ s. bad [];
  decode_credential = λ s. good (credential_body s);
  decode_schedule = λ s. bad [];
  fails = λ call. false;
  new_id = 8 ∷ [];
  orders = inserted;
  db = db;
  answer = λ q. none;
  stats = none;
  scan_run = λ id. none;
  metrics = reply 200 (document []);
  static_files = λ r. reply 200 (document []);
}

-- The token of an admin.
abbrev pub payload : Text
payload =
    shift (int_code (pos 9) (put_text (1 ∷ []) (put_text (2 ∷ []) (put_text (lit "admin") []))))

abbrev pub token : Text
token = payload ++ b'.' ∷ shift (7 ∷ payload)

abbrev pub request : Route → Text → Request
request route body = record {
  route = route;
  cookie = some token;
  path_id = b't' ∷ [];
  query = λ key. [];
  body = body;
  forwarded_for = [];
  remote_addr = [];
}

abbrev pub site : Site
site = record {
  tables = record {
    scan_target = record { id = b't' ∷ []; name = []; cidrs = []; enabled = true } ∷ [];
    credential = [];
    schedule = [];
  };
  users = root ∷ [];
  log = [];
  scans = [];
}
