-- ===== src/Store/Targets.antt =====
-- internal/store/targets.go: scan targets, stored credentials and schedules. An id that the
-- database makes up and its now() are arguments; what ORDER BY makes of the rows is a parameter.
use mathlib.Core.List.{Perm}
use motzworks.Prelude.{
  Bool, true, ◌&&◌, not, List, [], ◌∷◌, ◌++◌, Option, none, some, find_first, if◌then◌else◌,
}
use motzworks.Prelude.Int.{ℤ, ltb_ℤ, ◌+ℤ◌}
use motzworks.Text.{Text, text_eq}

pub record ScanTarget : Type 0 where
  pub id : Text
  pub name : Text
  pub cidrs : List Text
  pub enabled : Bool

pub record StoredCredential : Type 0 where
  pub id : Text
  pub name : Text
  pub kind : Text
  pub username : Text
  pub secret_sealed : Text
  pub extra : List (Text × Text)

pub record Schedule : Type 0 where
  pub id : Text
  pub scan_target_id : Text
  pub interval_secs : ℤ
  pub enabled : Bool
  pub next_run_at : Option ℤ

pub record DueSchedule : Type 0 where
  pub schedule_id : Text
  pub scan_target_id : Text
  pub interval_secs : ℤ
  pub cidrs : List Text

pub record Tables : Type 0 where
  pub scan_target : List ScanTarget
  pub credential : List StoredCredential
  pub schedule : List Schedule

-- ORDER BY of the three listings. It gives the same rows, in the order of the database's collation.
pub record Orders : Type 0 where
  pub targets_by_name : List ScanTarget → List ScanTarget
  pub credentials_by_name : List StoredCredential → List StoredCredential
  pub schedules_by_next_run_at : List Schedule → List Schedule

pub record OrdersLaws (o : Orders) : Type 0 where
  pub targets_law : (rows : List ScanTarget) → Perm (o.targets_by_name rows) rows
  pub credentials_law : (rows : List StoredCredential) → Perm (o.credentials_by_name rows) rows
  pub schedules_law : (rows : List Schedule) → Perm (o.schedules_by_next_run_at rows) rows

-- CreateScanTarget
unfoldable pub create_scan_target : Text → Text → List Text → Bool → Tables → Text × Tables
create_scan_target new_id name cidrs enabled t = (
  new_id,
  record t {
    scan_target =
        t.scan_target ++ record { id = new_id; name = name; cidrs = cidrs; enabled = enabled } ∷ [];
  },
)

-- GetScanTarget
unfoldable pub get_scan_target : Text → Tables → Option ScanTarget
get_scan_target id t = find_first (λ r. text_eq r.id id) t.scan_target

-- CreateCredential
unfoldable pub create_credential :
    Text → Text → Text → Text → Text → List (Text × Text) → Tables → Text × Tables
create_credential new_id name kind username sealed extra t = (
  new_id,
  record t {
    credential =
        t.credential
        ++ record {
          id = new_id;
          name = name;
          kind = kind;
          username = username;
          secret_sealed = sealed;
          extra = extra;
        }
          ∷ [];
  },
)

-- DeleteCredential
unfoldable pub without_credential : Text → List StoredCredential → List StoredCredential
without_credential id [] = []
without_credential id (c ∷ cs) =
    let rest = without_credential id cs in if text_eq c.id id then rest else c ∷ rest

unfoldable pub delete_credential : Text → Tables → Tables
delete_credential id t = record t { credential = without_credential id t.credential }

-- ListCredentials
unfoldable pub list_credentials : Orders → Tables → List StoredCredential
list_credentials o t = o.credentials_by_name t.credential

-- CreateSchedule: due at once.
unfoldable pub create_schedule : Text → ℤ → Text → ℤ → Bool → Tables → Text × Tables
create_schedule new_id now scan_target_id interval_secs enabled t = (
  new_id,
  record t {
    schedule =
        t.schedule
        ++ record {
          id = new_id;
          scan_target_id = scan_target_id;
          interval_secs = interval_secs;
          enabled = enabled;
          next_run_at = some now;
        }
          ∷ [];
  },
)

abbrev pub passed : ℤ → Option ℤ → Bool
passed now none = true
passed now (some t) = not (ltb_ℤ now t)

-- sc.enabled AND (sc.next_run_at IS NULL OR sc.next_run_at <= now())
unfoldable pub is_due : ℤ → Schedule → Bool
is_due now sc = sc.enabled && passed now sc.next_run_at

-- JOIN scan_target t ON t.id = sc.scan_target_id … WHERE t.enabled
unfoldable pub joined : Schedule → List ScanTarget → List DueSchedule
joined sc [] = []
joined sc (t ∷ ts) =
    let rest = joined sc ts in
    if text_eq t.id sc.scan_target_id && t.enabled
    then record {
      schedule_id = sc.id;
      scan_target_id = t.id;
      interval_secs = sc.interval_secs;
      cidrs = t.cidrs;
    }
      ∷ rest
    else rest

unfoldable pub due_of : ℤ → List ScanTarget → List Schedule → List DueSchedule
due_of now ts [] = []
due_of now ts (sc ∷ scs) =
    let rest = due_of now ts scs in if is_due now sc then joined sc ts ++ rest else rest

-- DueSchedules
unfoldable pub due_schedules : ℤ → Tables → List DueSchedule
due_schedules now t = due_of now t.scan_target t.schedule

-- AdvanceSchedule
unfoldable pub advance : ℤ → Text → ℤ → List Schedule → List Schedule
advance now id interval_secs [] = []
advance now id interval_secs (sc ∷ scs) =
    (if text_eq sc.id id then record sc { next_run_at = some (now +ℤ interval_secs) } else sc)
    ∷ advance now id interval_secs scs

unfoldable pub advance_schedule : ℤ → Text → ℤ → Tables → Tables
advance_schedule now id interval_secs t = record t {
  schedule = advance now id interval_secs t.schedule;
}

-- ListScanTargets and ListSchedules
unfoldable pub list_scan_targets : Orders → Tables → List ScanTarget
list_scan_targets o t = o.targets_by_name t.scan_target

unfoldable pub list_schedules : Orders → Tables → List Schedule
list_schedules o t = o.schedules_by_next_run_at t.schedule

unfoldable pub without_target : Text → List ScanTarget → List ScanTarget
without_target id [] = []
without_target id (t ∷ ts) =
    let rest = without_target id ts in if text_eq t.id id then rest else t ∷ rest

unfoldable pub without_schedules_of : Text → List Schedule → List Schedule
without_schedules_of id [] = []
without_schedules_of id (sc ∷ scs) =
    let rest = without_schedules_of id scs in
    if text_eq sc.scan_target_id id then rest else sc ∷ rest

-- DeleteScanTarget; the schedules of the target go with it (ON DELETE CASCADE).
unfoldable pub delete_scan_target : Text → Tables → Tables
delete_scan_target id t = record t {
  scan_target = without_target id t.scan_target;
  schedule = without_schedules_of id t.schedule;
}
