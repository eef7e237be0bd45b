-- ===== src/Services/Catalog/Listings.antt =====
-- catalog_service.py: `list`, `versions`, `snapshots` and `history`, on the tables of the catalog.
pub mod Outdated
pub mod Stale
use contextql_server.Prelude.{
  ℕ, String, Bool, true, false, not, ◌&&◌, ◌||◌, Option, none, some, List, [], ◌∷◌, filter, any,
  all, sorted, take, drop, length, str_eq, leb, ◌==◌, is_some, if◌then◌else◌,
}
use contextql_server.Errors.{value_error, Result, ok, err}
use contextql_server.Repository.{SnapshotRow, HistoryRow, ContextRow, Tables, is_text}
use contextql_server.Repository.Contexts.{text_le}
use contextql_server.Services.Catalog.{latest}

-- `column = ?` where a value is given
abbrev pub admits : Option String → String → Bool
admits none t = true
admits (some k) t = str_eq t k

-- the WHERE clause of `list`
abbrev pub is_wanted : Option String → Option String → ContextRow → Bool
is_wanted namespace lifecycle_state r =
    not (is_some r.dropped_at)
    && (admits namespace r.namespace && admits lifecycle_state r.lifecycle_state)

abbrev pub same_name : ContextRow → ContextRow → Bool
same_name r s = str_eq s.name r.name && str_eq s.namespace r.namespace

-- the row joins the group of the wanted rows of its name and namespace, at their highest version
abbrev pub is_listed : (ContextRow → Bool) → List ContextRow → ContextRow → Bool
is_listed wanted rows r =
    any (λ s. wanted s && (same_name r s && s.version == r.version)) rows
    && all (λ s. not (wanted s && same_name r s) || leb s.version r.version) rows

abbrev pub by_context_name : ContextRow → ContextRow → Bool
by_context_name a b = text_le a.name b.name

-- `LIMIT ? OFFSET ?`
abbrev pub window {ℓ} : {A : Type ℓ} → ℕ → ℕ → List A → List A
window limit offset rows = take limit (drop offset rows)

-- `list`: the rows of one page, and how many there are
unfoldable pub list_contexts : Option String → Option String → ℕ → ℕ → Tables → List ContextRow × ℕ
unfolding text_le
list_contexts namespace lifecycle_state limit offset t =
    let base = filter (is_listed (is_wanted namespace lifecycle_state) t.contexts) t.contexts in
    (window limit offset (sorted by_context_name base), length base)

-- `versions`, with those that are dropped
unfoldable pub versions : String → String → Tables → List ContextRow
versions name namespace t =
    sorted (λ a b. leb a.version b.version)
      (filter (λ r. str_eq r.name name && str_eq r.namespace namespace) t.contexts)

-- `WHERE context_id = ?`, of the id of the context that was found
abbrev pub of_context : Option String → String → Bool
of_context none c = false
of_context (some id) c = str_eq c id

snapshots_found : Option ContextRow → ℕ → ℕ → Tables → Result (List SnapshotRow)
snapshots_found none limit offset t = err (value_error "not found")
snapshots_found (some current) limit offset t = ok (
    window limit offset (
      sorted (λ a b. leb b.version a.version)
        (filter (λ s. of_context current.context_id s.context_id) t.snapshots)))

-- `snapshots`
unfoldable pub snapshots : String → String → ℕ → ℕ → Tables → Result (List SnapshotRow)
unfolding snapshots_found latest
snapshots name namespace limit offset t =
    snapshots_found (latest name namespace t.contexts) limit offset t

-- `effective_at >= ?` and `effective_at <= ?`, where a bound is given
abbrev pub not_before : Option ℕ → ℕ → Bool
not_before none at = true
not_before (some start) at = leb start at

abbrev pub not_after : Option ℕ → ℕ → Bool
not_after none at = true
not_after (some end) at = leb at end

abbrev pub in_window : Option String → Option ℕ → Option ℕ → HistoryRow → Bool
in_window id start end r =
    of_context id r.context_id && (not_before start r.effective_at && not_after end r.effective_at)

history_found : Option ContextRow → Option ℕ → Option ℕ → ℕ → ℕ → Tables → Result (List HistoryRow)
history_found none start end limit offset t = err (value_error "not found")
history_found (some current) start end limit offset t = ok (
    window limit offset (
      sorted (λ a b. leb a.effective_at b.effective_at)
        (filter (in_window current.context_id start end) t.history)))

-- `history`; the rows of one time are in the order of their ids, which is that of the table
unfoldable pub history :
    String → String → Option ℕ → Option ℕ → ℕ → ℕ → Tables → Result (List HistoryRow)
unfolding history_found latest
history name namespace start end limit offset t =
    history_found (latest name namespace t.contexts) start end limit offset t
