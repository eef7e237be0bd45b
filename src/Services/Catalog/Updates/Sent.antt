-- ===== src/Services/Catalog/Updates/Sent.antt =====
-- What `update` sends to the engine, and where it stops.
use contextql_server.Prelude.{
  ⊤, String, Option, none, some, List, [], ◌∷◌, ◌++◌, append_assoc, append-nil, ◌≡◌, refl, ap, ◌∙◌,
  arith,
}
use contextql_server.Errors.{
  Error, attribute_error, Result, ok, err, Result-cases, returned, raised,
}
use contextql_server.Errors.Exec.{Exec}
use contextql_server.Repository.{ContextRow}
use contextql_server.Services.Audit.{Event, Field, number, null}
use contextql_server.Services.Ddl.{qualified}
use contextql_server.Services.Catalog.{Backend, latest, get_context, send_all}
use contextql_server.Services.Catalog.Updates.{
  Changes, update_texts, version_field, update_with, update_found, update_context,
}

-- The statements that an engine was sent, and the events that were logged.
pub record Trace : Type 0 where
  pub sent : List String
  pub logged : List Event

-- An engine that takes a statement down and may refuse it.
abbrev pub answer : (String → Result ⊤) → String → Exec Trace ⊤
answer engine text w = (engine text, record w { sent = w.sent ++ text ∷ [] })

-- It stands beside a table whose rows depend on what was sent.
abbrev pub traced : (String → Result ⊤) → (List String → List ContextRow) → Backend Trace
traced engine rows = record {
  execute = some (answer engine);
  contexts = λ w. rows w.sent;
  log = some (λ e w. (ok tt, record w { logged = w.logged ++ e ∷ [] }));
}

abbrev pub and_then : String → Result ⊤ → List String × Result ⊤ → List String × Result ⊤
and_then t (ok u) rest = (t ∷ rest.0, rest.1)
and_then t (err e) rest = (t ∷ [], err e)

-- The statements up to the first that is refused, that one included, and how they ended.
abbrev pub sent_of : (String → Result ⊤) → List String → List String × Result ⊤
sent_of engine [] = ([], ok tt)
sent_of engine (t ∷ ts) = and_then t (engine t) (sent_of engine ts)

-- The event that an update is to leave, with the version of this row.
abbrev pub version_logged : Option ContextRow → Field
version_logged none = null
version_logged (some r) = number r.version

abbrev pub updated_event : String → String → Option ContextRow → Event
updated_event name namespace r = record {
  event_type = "context.updated";
  resource_type = some "context";
  resource_name = some name;
  detail = some (("version", version_logged r) ∷ []);
  actor = "system";
  namespace = namespace;
  trace_id = none;
}

same_error : (e x : Error) → (let r : Result ⊤ = err e in r) ≡ err x → e ≡ x
same_error e x h = ground arith

module _ (engine : String → Result ⊤) (rows : List String → List ContextRow) where
  send_all-sent_of :
      (ts : List String) (w : Trace)
      → send_all (traced engine rows) (answer engine) ts w
        ≡ ((sent_of engine ts).1, record w { sent = w.sent ++ (sent_of engine ts).0 })
  unfolding send_all
  send_all-sent_of [] w = rw append-nil refl
  send_all-sent_of (t ∷ ts) w = elim (Result-cases (engine t)) [
    | raised e r ↦ rw r refl
    | returned u r ↦ rw r (
        send_all-sent_of ts (record w { sent = w.sent ++ t ∷ [] })
        ∙ ap (λ (l : List String). ((sent_of engine ts).1, record w { sent = l }))
            (append_assoc w.sent (t ∷ []) (sent_of engine ts).0))
  ]

  abbrev pub IsTraced :
      String → String → Trace → List String → Result (Option ContextRow) × Trace → Type 0
  IsTraced name namespace w texts x =
      let out = sent_of engine texts in
      (x.1.sent ≡ w.sent ++ out.0)
      × (out.1 ≡ ok tt
          → let r = latest name namespace (rows (w.sent ++ out.0)) in
            (x.0 ≡ ok r) × (x.1.logged ≡ w.logged ++ updated_event name namespace r ∷ []))
      × ((e : Error) → out.1 ≡ err e → (x.0 ≡ err e) × (x.1.logged ≡ w.logged))

  -- the code's field is that of the event
  version_field-eq : (r : Option ContextRow) → version_field r ≡ version_logged r
  version_field-eq none = refl
  version_field-eq (some r) = refl

  update_found-IsTraced :
      (name namespace target : String) (c : Changes) (w : Trace) (texts : List String)
      (r : ContextRow)
      → qualified name namespace ≡ ok target
      → update_texts target c ≡ ok texts
      → IsTraced name namespace w texts
          (update_found (traced engine rows) name namespace c (some r) w)
  unfolding update_found get_context latest
  update_found-IsTraced name namespace target c w texts r q t =
      elim (Result-cases (sent_of engine texts).1) [
        | raised e k ↦
            rw (q, t, send_all-sent_of texts w, k)
              (refl, λ h. absurd (ground arith), λ x h. (ap err (same_error e x h), refl))
        | returned u k ↦
            rw (q, t, send_all-sent_of texts w, k, version_field-eq)
              (refl, λ h. (refl, refl), λ x h. absurd (ground arith))
      ]

  -- An update of a context that is there, under names that are identifiers: it sends its statements
  -- in order and stops at the first that the engine refuses, whose error it raises, with nothing
  -- logged; where none is refused it logs one event with the version that is then the latest, and
  -- returns that row.
  pub update_context-IsTraced :
      (name namespace target : String) (c : Changes) (w : Trace) (texts : List String)
      (r : ContextRow)
      → get_context (traced engine rows) name namespace w ≡ some r
      → qualified name namespace ≡ ok target
      → update_texts target c ≡ ok texts
      → IsTraced name namespace w texts (update_context (traced engine rows) name namespace c w)
  unfolding update_context
  update_context-IsTraced name namespace target c w texts r found q t =
      rw found (update_found-IsTraced name namespace target c w texts r q t)

-- A change of the definition to None raises before anything is sent.
pub update_context-null :
    {W : Type 0} (b : Backend W) (name namespace target : String) (c : Changes) (w : W)
    (r : ContextRow) (execute : String → Exec W ⊤)
    → get_context b name namespace w ≡ some r
    → b.execute ≡ some execute
    → qualified name namespace ≡ ok target
    → c.definition_text ≡ some none
    → (text : String) × (update_context b name namespace c w ≡ (err (attribute_error text), w))
unfolding update_context update_found update_with update_texts
update_context-null b name namespace target c w r execute h x q d = rw (h, x, q, d) (_, refl)
