-- ===== src/Api/Serve/Logged.antt =====
-- internal/api/handlers_admin.go: what an admin changes is in the audit log.
use motzworks.Prelude.{
  ◌≡◌, refl, ◌⊎◌, inl, inr, Bool, true, false, List, [], ◌∷◌, ◌++◌, Option, none, some,
  if◌then◌else◌, Bool-cases,
}
use motzworks.Text.{Text, is_empty}
use motzworks.Auth.{Claims}
use motzworks.Store.Targets.{get_scan_target, ScanTarget}
use motzworks.Store.Accounts.{AuditEntry, Value, insert_audit}
use motzworks.Api.Site.{
  Request, Response, Site, Server, World, Decoded, good, bad, Call, add_entry, audit, read_json,
  insert_audit_entry, client_ip,
}
use motzworks.Api.Admin.{
  unless_failed, scan_target_specs, start_scan, handle_trigger_scan, handle_create_target,
  handle_delete_target, handle_create_credential, handle_delete_credential, handle_create_schedule,
}

-- An entry of now, by the account of the claims, from the request's address.
pub record IsBy (w : World) (r : Request) (c : Claims) (e : AuditEntry) : Type 0 where
  pub same_actor : e.actor ≡ c.username
  pub same_ip : e.ip ≡ client_ip w r
  pub same_time : e.ts ≡ w.now

module _ (srv : Server) (w : World) (r : Request) (c : Claims) where
  -- Nothing differs, or the log has one more entry.
  unfoldable pub IsLogged : Site → Site × Response → Type 0
  IsLogged s o = (o.0 ≡ s) ⊎ ((e : AuditEntry) × (o.0.log ≡ s.log ++ e ∷ []) × IsBy w r c e)

  pub unless_failed_logs :
      (call : Call) (s : Site) (done : Site × Response)
      → IsLogged s done
      → IsLogged s (unless_failed w call s done)
  unfolding IsLogged unless_failed
  unless_failed_logs call s done h = elim (Bool-cases (w.fails call)) [
    | inl f ↦ inl (rw f refl)
    | inr f ↦ rw f h
  ]

  read_json_logs :
      {A : Type 0} (d : Decoded A) (s : Site) (f : A → Site × Response)
      → ((a : A) → IsLogged s (f a))
      → IsLogged s (read_json d s f)
  unfolding IsLogged read_json
  read_json_logs (bad e) s f h = inl refl
  read_json_logs (good a) s f h = h a

  -- `if b { writeError(…); return }`
  guard_logs :
      (b : Bool) (s : Site) (refusal : Response) (done : Site × Response)
      → IsLogged s done
      → IsLogged s (if b then (s, refusal) else done)
  unfolding IsLogged
  guard_logs true s refusal done h = inl refl
  guard_logs false s refusal done h = h

  module _ (works : w.fails insert_audit_entry ≡ false) where
    audit_logs :
        (action target : Text) (detail : List (Text × Value)) (s t : Site) (answer : Response)
        → t.log ≡ s.log
        → IsLogged s (audit w c action target r detail t, answer)
    unfolding IsLogged audit add_entry insert_audit
    audit_logs action target detail s t answer h = inr (
      record {
        ts = w.now;
        actor = c.username;
        action = action;
        target = target;
        ip = client_ip w r;
        detail = detail;
      },
      rw (works, h) refl,
      record { same_actor = refl; same_ip = refl; same_time = refl },
    )

    start_scan_logs :
        (target_id : Text) (specs : List Text) (s : Site)
        → IsLogged s (start_scan srv w c r target_id specs s)
    unfolding start_scan
    start_scan_logs target_id specs s =
        guard_logs _ s _ _ (unless_failed_logs _ s _ (audit_logs _ _ _ s _ _ refl))

    target_specs_logs :
        (target_id : Text) (t : Option ScanTarget) (s : Site)
        → IsLogged s (scan_target_specs srv w c r target_id t s)
    unfolding IsLogged
    target_specs_logs target_id none s = inl refl
    target_specs_logs target_id (some t) s = start_scan_logs target_id t.cidrs s

    pub trigger_scan_logs : (s : Site) → IsLogged s (handle_trigger_scan srv w c r s)
    unfolding handle_trigger_scan
    trigger_scan_logs s = read_json_logs _ s _ λ req. elim (Bool-cases (is_empty req.target_id)) [
      | inl h ↦ rw h (start_scan_logs req.target_id req.targets s)
      | inr h ↦ rw h (
          unless_failed_logs _ s _
            (target_specs_logs req.target_id (get_scan_target req.target_id s.tables) s))
    ]

    pub create_target_logs : (s : Site) → IsLogged s (handle_create_target srv w c r s)
    unfolding handle_create_target
    create_target_logs s =
        read_json_logs _ s _
          λ req. guard_logs _ s _ _ (unless_failed_logs _ s _ (audit_logs _ _ _ s _ _ refl))

    pub delete_target_logs : (s : Site) → IsLogged s (handle_delete_target srv w c r s)
    unfolding handle_delete_target
    delete_target_logs s = unless_failed_logs _ s _ (audit_logs _ _ _ s _ _ refl)

    pub create_credential_logs : (s : Site) → IsLogged s (handle_create_credential srv w c r s)
    unfolding handle_create_credential
    create_credential_logs s =
        read_json_logs _ s _
          λ req. guard_logs _ s _ _ (unless_failed_logs _ s _ (audit_logs _ _ _ s _ _ refl))

    pub delete_credential_logs : (s : Site) → IsLogged s (handle_delete_credential srv w c r s)
    unfolding handle_delete_credential
    delete_credential_logs s = unless_failed_logs _ s _ (audit_logs _ _ _ s _ _ refl)

    pub create_schedule_logs : (s : Site) → IsLogged s (handle_create_schedule srv w c r s)
    unfolding handle_create_schedule
    create_schedule_logs s =
        read_json_logs _ s _
          λ req. guard_logs _ s _ _ (unless_failed_logs _ s _ (audit_logs _ _ _ s _ _ refl))
