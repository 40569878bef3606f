-- ===== src/Store/Samples.antt =====
-- A server and a database for the examples.
use mathlib.Core.List.Perm
use motzworks.Prelude.{
  ◌<◌, ◌≡◌, refl, ap, List, [], ◌∷◌, ◌++◌, Option, none, some, arith, length, length-append,
  find_first, Bool-cases, inl, inr,
}
use motzworks.Text.{Text, text_eq, text_eq_iff}
use motzworks.Addr.{ip4}
use motzworks.Model.{Device, no_device, linux}
use motzworks.Store.Db.{DeviceRow, Db, Server}
use motzworks.Store.Targets.{Orders, OrdersLaws}
use motzworks.Store.Runs.{Answers}
use motzworks.Store.Settled.{NewIds}

ids : List DeviceRow → Text
ids [] = []
ids (r ∷ rows) = r.id ++ ids rows

unused_lem :
    (rows : List DeviceRow) (n : Text)
    → length (ids rows) < length n
    → find_first (λ r. text_eq r.id n) rows ≡ none
unfolding ids
unused_lem [] n h = refl
unused_lem (r ∷ rows) n h = elim (Bool-cases (text_eq r.id n)) [
  | inl same ↦
      absurd (omega (arith, length-append r.id (ids rows), ap length ((text_eq_iff r.id n).0 same)))
  | inr other ↦ rw other (unused_lem rows n (omega (arith, length-append r.id (ids rows))))
]

-- A new id is longer than the ids in use together.
unfoldable pub server : Option Text → Server
unfolding ids
server fault = record {
  fault = λ s. fault;
  new_id = λ db. b'n' ∷ ids db.device;
  lower = λ s. s;
  mac_eq = text_eq;
  print_addr = λ a. a.value ∷ [];
  parse_mac = λ s. some 0;
  parse_date = λ s. none;
  now = 7;
  host = λ s. s;
  visit = λ k db. db.device;
}

pub server-Answers : Answers (server none)
unfolding server
server-Answers = record { answers = λ s. refl; visits = λ k db id. refl }

pub server-NewIds : NewIds (server none)
unfolding server
server-NewIds = record {
  nonempty = λ db. refl;
  unused = λ db. unused_lem db.device (b'n' ∷ ids db.device) (omega arith);
}

abbrev pub sample_row : DeviceRow
sample_row = record {
  id = b'a' ∷ [];
  device_type = [];
  hostname = none;
  primary_ip = none;
  serial = some (b's' ∷ []);
  asset_tag = none;
  ad_guid = none;
  source = none;
  first_seen = 1;
  last_seen = 1;
}

abbrev pub sample_db : Db
sample_db = record {
  device = sample_row ∷ [];
  children = record {
    interfaces = λ id. [];
    os_info = λ id. none;
    hardware = λ id. none;
    software = λ id. [];
    user_account = λ id. [];
  };
  change_event = [];
  relationship = [];
}

abbrev pub sample_device : Device
sample_device = record no_device {
  device_type = linux;
  hostname = b'h' ∷ [];
  primary_ip = record { family = ip4; value = 9 };
  serial = b's' ∷ [];
  os = some (record { family = []; name = b'D' ∷ []; version = []; build = []; arch = [] });
}

-- Listings in the order of insertion.
abbrev pub inserted : Orders
inserted = record {
  targets_by_name = λ rows. rows;
  credentials_by_name = λ rows. rows;
  schedules_by_next_run_at = λ rows. rows;
}

pub inserted-OrdersLaws : OrdersLaws inserted
inserted-OrdersLaws = record {
  targets_law = λ rows. Perm.refl rows;
  credentials_law = λ rows. Perm.refl rows;
  schedules_law = λ rows. Perm.refl rows;
}
