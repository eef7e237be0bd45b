-- ===== src/Services/Providers/Lookups.antt =====
-- What the registry's operations leave, as its lookups see it.
use contextql_server.Prelude.{
  ℕ, ◌+◌, String, Bool, true, false, Option, none, some, List, [], ◌∷◌, ◌++◌, any, is_some, or_else,
  if◌then◌else◌, ◌≡◌, refl, ap, ◌∙◌, arith,
}
use contextql_server.Errors.{value_error, integrity_error, Result, ok, err}
use contextql_server.Services.Audit.{Field, text, flag, AuditRow, AuditLog, event, log}
use contextql_server.Services.Table.{
  at, any-find_at, same_key, same_key_refl, find_at-insert, find_at-update,
}
use contextql_server.Services.Providers.{
  Provider, keys, Moment, Registry, audited, ProviderArgs, new_provider, get, register, changed,
  Updates, gives_any, updated, update, set_enabled, health, health_detail, record_health,
}

-- Registering under a free name returns the new provider; afterwards a lookup of the name gives it,
-- every other lookup gives what it gave before, and the audit log has one event more.
pub register-free :
    (a : ProviderArgs) (t : Moment) (s : Registry)
    → get a.name a.namespace s ≡ none
    → let (r, s') = register a t s in
      (r ≡ ok (some (new_provider a t.now)))
      × ((n ns : String)
          → get n ns s' ≡ (
              if same_key n ns a.name a.namespace then some (new_provider a t.now) else get n ns s))
      × (s'.audit
          ≡ audited (event "provider.registered" "provider" a.name a.namespace none) t s.audit)
unfolding register get
register-free a t s h =
    let free : any (at keys a.name a.namespace) s.providers ≡ false =
      any-find_at keys a.name a.namespace s.providers ∙ ap is_some h in
    let found = λ (n ns : String). find_at-insert keys n ns s.providers (new_provider a t.now) h in
    rw free
      (ap ok (found a.name a.namespace ∙ rw (same_key_refl a.name a.namespace) refl), found, refl)

-- Registering under a name that is taken raises, and changes neither the table nor the log.
pub register-taken :
    (a : ProviderArgs) (t : Moment) (s : Registry) (p : Provider)
    → get a.name a.namespace s ≡ some p
    → register a t s ≡ (err (integrity_error "UNIQUE constraint failed"), s)
unfolding register get
register-taken a t s p h =
    let taken : any (at keys a.name a.namespace) s.providers ≡ true =
      any-find_at keys a.name a.namespace s.providers ∙ ap is_some h in
    rw taken refl

-- Updating, enabling, disabling or recording the health of a provider that is not there raises, and
-- changes neither the table nor the log.
pub get-missing :
    (n ns : String) (u : Updates) (b : Bool) (t : Moment) (s : Registry)
    → get n ns s ≡ none
    → (update n ns u t s ≡ (err (value_error "not found"), s))
      × (set_enabled n ns b t s ≡ (err (value_error "not found"), s))
      × (record_health n ns b t s ≡ (err (value_error "not found"), s))
unfolding update set_enabled record_health
get-missing n ns u b t s h = rw h (ground arith, refl, refl)

-- The row that a change is to leave at the end of the audit log, where there is one.
abbrev pub HasLogged :
    String
    → String
    → String
    → Option (List (String × Field))
    → Moment
    → Option AuditLog
    → Option AuditLog
    → Type 0
HasLogged n ns kind detail t none after = after ≡ none
HasLogged n ns kind detail t (some l) after =
    let row : AuditRow = record {
      id = l.last_id + 1;
      timestamp = t.now;
      event_type = kind;
      actor = "system";
      namespace = ns;
      resource_type = some "provider";
      resource_name = some n;
      detail = detail;
      trace_id = t.trace_id;
    } in
    after ≡ some (record { rows = l.rows ++ row ∷ []; last_id = l.last_id + 1 })

audited-HasLogged :
    (n ns kind : String) (detail : Option (List (String × Field))) (t : Moment)
    (o : Option AuditLog)
    → HasLogged n ns kind detail t o (audited (event kind "provider" n ns detail) t o)
unfolding log
audited-HasLogged n ns kind detail t none = refl
audited-HasLogged n ns kind detail t (some l) = refl

-- After a change to one provider: it is returned as changed, a lookup of it gives that, every other
-- lookup gives what it gave before, and the audit log has the event more.
abbrev pub IsChanged :
    String
    → String
    → String
    → Option (List (String × Field))
    → Moment
    → Registry
    → Provider
    → Result (Option Provider) × Registry
    → Type 0
IsChanged n ns kind detail t s p' x =
    (x.0 ≡ ok (some p'))
    × ((m ms : String) → get m ms x.1 ≡ (if same_key m ms n ns then some p' else get m ms s))
    × HasLogged n ns kind detail t s.audit x.1.audit

changed-IsChanged :
    (n ns kind : String) (detail : Option (List (String × Field))) (f : Provider → Provider)
    (t : Moment) (s : Registry) (p : Provider)
    → ((r : Provider) → ((f r).name ≡ r.name) × ((f r).namespace ≡ r.namespace))
    → get n ns s ≡ some p
    → IsChanged n ns kind detail t s (f p) (changed n ns kind detail f t (get n ns s) s)
unfolding changed get
changed-IsChanged n ns kind detail f t s p same h =
    let found = λ (m ms : String). find_at-update keys m ms n ns f s.providers p same h in
    rw h (
      ap ok (found n ns ∙ rw (same_key_refl n ns) refl),
      found,
      audited-HasLogged n ns kind detail t s.audit,
    )

health-keys :
    (b : Bool) (now : ℕ) (r : Provider)
    → ((health b now r).name ≡ r.name) × ((health b now r).namespace ≡ r.namespace)
health-keys true now r = (refl, refl)
health-keys false now r = (refl, refl)

-- Of a provider that is there: updating with at least one field sets those that are given and leaves
-- the others; enabling and disabling set the flag; a successful health check makes it healthy and
-- notes the time of the success, a failed one makes it unhealthy and notes the time of the failure.
-- Each sets the time of the update, returns the row, leaves every other provider, and logs one event
-- that says which change it was, a health check with its outcome.
pub provider_changes :
    (n ns : String) (u : Updates) (b : Bool) (t : Moment) (s : Registry) (p : Provider)
    → get n ns s ≡ some p
    → gives_any u ≡ true
    → IsChanged n ns "provider.updated" none t s
        (record p {
          endpoint = or_else u.endpoint p.endpoint;
          timeout_ms = or_else u.timeout_ms p.timeout_ms;
          entity_key_type = or_else u.entity_key_type p.entity_key_type;
          trust_tier = or_else u.trust_tier p.trust_tier;
          credentials_ref = or_else u.credentials_ref p.credentials_ref;
          resource_shape = or_else u.resource_shape p.resource_shape;
          updated_at = t.now;
        })
        (update n ns u t s)
      × IsChanged n ns
          (if b then "provider.enabled" else "provider.disabled")
          none
          t
          s
          (record p { enabled = b; updated_at = t.now })
          (set_enabled n ns b t s)
      × IsChanged n ns "provider.health_recorded"
          (some (("success", flag true) ∷ ("health_state", text "healthy") ∷ []))
          t
          s
          (record p { health_state = "healthy"; last_success_at = some t.now; updated_at = t.now })
          (record_health n ns true t s)
      × IsChanged n ns "provider.health_recorded"
          (some (("success", flag false) ∷ ("health_state", text "unhealthy") ∷ []))
          t
          s
          (record p {
            health_state = "unhealthy";
            last_failure_at = some t.now;
            updated_at = t.now;
          })
          (record_health n ns false t s)
unfolding update set_enabled record_health
provider_changes n ns u b t s p h g = (
  rw g (
      changed-IsChanged n ns "provider.updated" none (updated u t.now) t s p (λ r. (refl, refl)) h),
  changed-IsChanged n ns (if b then "provider.enabled" else "provider.disabled") none
      (λ p. record p { enabled = b; updated_at = t.now }) t s p (λ r. (refl, refl)) h,
  changed-IsChanged n ns "provider.health_recorded" (some (health_detail true)) (health true t.now)
      t s p (health-keys true t.now) h,
  changed-IsChanged n ns "provider.health_recorded" (some (health_detail false))
      (health false t.now) t s p (health-keys false t.now) h,
)
