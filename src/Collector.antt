-- ===== src/Collector.antt =====
-- internal/collector/collector.go: device classes, credentials, targets, results, the Collector
-- interface and the registry (each method of which runs under the registry's lock).
pub mod Registered
use motzworks.Prelude.{
  ℕ, ◌≡◌, refl, Bool, true, false, ◌||◌, List, [], ◌∷◌, ◌++◌, Option, none, some, arith, keep,
  if◌then◌else◌,
}
use motzworks.Text.{Text}
use motzworks.Addr.{Addr}
use motzworks.Model.{Device}

pub data DeviceClass : Type 0 where
  unset unknown windows linux mac snmp hypervisor firewall : DeviceClass

pub record Credential : Type 0 where
  pub id : Text
  pub kind : Text
  pub username : Text
  pub secret : Text
  pub extra : List (Text × Text)

pub record Target : Type 0 where
  pub addr : Addr
  pub hostname : Text
  pub class : DeviceClass
  pub credentials : List Credential

pub record Related : Type 0 where
  pub device : Device
  pub kind : Text

-- Result, without the raw payload, which only the database's audit column would show.
pub record Result : Type 0 where
  pub target : Target
  pub device : Device
  pub related : List Related

-- An error of Collect: ErrNoCredential, or any other with its message.
pub data CollectError : Type 0 where
  no_credential : CollectError
  failure : Text → CollectError

pub data Collected : Type 0 where
  ok : Result → Collected
  err : CollectError → Collected

-- The interface; `collect` is the outcome of the call in this scan.
pub record Collector : Type 0 where
  pub name : Text
  pub supports : DeviceClass → Bool
  pub collect : Target → Collected

pub record Registry : Type 0 where
  pub collectors : List Collector

abbrev pub new_registry : Registry
new_registry = record { collectors = [] }

-- Register
unfoldable pub register : Registry → Collector → Registry
register r c = record { collectors = r.collectors ++ c ∷ [] }

-- The loop of For.
unfoldable pub supporting : DeviceClass → List Collector → List Collector
supporting class [] = []
supporting class (c ∷ cs) =
    let rest = supporting class cs in if c.supports class then c ∷ rest else rest

-- For
unfoldable pub for_class : Registry → DeviceClass → List Collector
for_class r class = supporting class r.collectors

-- All: a copy of the slice.
unfoldable pub all : Registry → List Collector
all r = r.collectors
