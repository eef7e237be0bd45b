-- ===== src/Repository/Contexts/Saved.antt =====
-- What `save_context` stores and what a reader makes of it.
use contextql_server.Prelude.{
  ℕ, String, Bool, true, false, not, ◌||◌, Option, none, some, List, [], ◌∷◌, ◌++◌, map, filter,
  find, any, str_eq, eq_refl, ◌≡◌, refl, arith,
}
use contextql_server.Errors.{Error, ok, err}
use contextql_server.Sql.{settle}
use contextql_server.Repository.{ContextRow, Tables, context_at}
use contextql_server.Repository.Contexts.{
  CatalogEntry, EngineTypes, named, taken, new_row, assigned, insert_context, assign_row,
  update_context, write_context, save_context, truthy, entry_from_row,
}

-- An entry that the columns can carry: its namespace and its kind of source are not empty, its key
-- type is one of the engine's, and it is temporal exactly if it names a temporal column.
pub record IsStorable (g : EngineTypes) (e : CatalogEntry) : Type 0 where
  pub has_namespace : str_eq e.namespace "" ≡ false
  pub has_source : str_eq e.source_kind "" ≡ false
  pub has_key_type : str_eq e.entity_key_type "" ≡ false
  pub known_key_type : g.is_key_type e.entity_key_type ≡ true
  pub temporal_iff : e.is_temporal ≡ truthy e.temporal_column

new_row-restores :
    (g : EngineTypes) (e : CatalogEntry) (raw : Option String) (now : ℕ)
    → IsStorable g e
    → entry_from_row g e.context_id (new_row e raw now) ≡ e
unfolding entry_from_row
new_row-restores g e raw now h = ground arith

assigned-restores :
    (g : EngineTypes) (e : CatalogEntry) (raw : Option String) (now : ℕ) (r : ContextRow)
    → IsStorable g e
    → r.version ≡ e.version
    → entry_from_row g e.context_id (assigned e raw now r) ≡ e
unfolding entry_from_row
assigned-restores g e raw now r h k = ground arith

-- The raw DDL that a save leaves: the one given, else the one that was there.
abbrev pub ddl_after : Option String → Option ContextRow → Option String
ddl_after (some text) old = some text
ddl_after none none = none
ddl_after none (some old) = old.raw_ddl

-- The table answers for the entry: its row reads back as the entry, and the other rows are those of
-- before.
abbrev pub Stores : EngineTypes → CatalogEntry → Option String → Tables → Tables → Type 0
Stores g e raw t t' =
    ((r : ContextRow) × (find (context_at e.context_id e.version) t'.contexts ≡ some r)
      × (entry_from_row g e.context_id r ≡ e)
      × (r.raw_ddl ≡ ddl_after raw (find (context_at e.context_id e.version) t.contexts)))
    × (filter (λ r. not (context_at e.context_id e.version r)) t'.contexts
        ≡ filter (λ r. not (context_at e.context_id e.version r)) t.contexts)

module _ (e : CatalogEntry) (raw : Option String) (now : ℕ) where
  abbrev here : ContextRow → Bool
  here = context_at e.context_id e.version

  assign_row-here : (r : ContextRow) → here (assign_row e raw now r) ≡ here r
  assign_row-here r = ground arith

  find-assigned :
      (rows : List ContextRow) (old : ContextRow)
      → find here rows ≡ some old
      → (find here (map (assign_row e raw now) rows) ≡ some (assigned e raw now old))
        × (old.version ≡ e.version)
  find-assigned [] old h = absurd (ground arith)
  find-assigned (r ∷ rows) old h = ground (arith, find-assigned rows old, assign_row-here r)

  filter-assigned :
      (rows : List ContextRow)
      → filter (λ r. not (here r)) (map (assign_row e raw now) rows)
        ≡ filter (λ r. not (here r)) rows
  filter-assigned [] = refl
  filter-assigned (r ∷ rows) = ground (arith, filter-assigned rows)

  new_row-here : here (new_row e raw now) ≡ true
  new_row-here = ground (arith, eq_refl e.context_id)

  find-added :
      (rows : List ContextRow)
      → find here rows ≡ none
      → find here (rows ++ new_row e raw now ∷ []) ≡ some (new_row e raw now)
  find-added [] h = rw new_row-here refl
  find-added (r ∷ rows) h = ground (arith, find-added rows)

  filter-added :
      (rows : List ContextRow)
      → filter (λ r. not (here r)) (rows ++ new_row e raw now ∷ [])
        ≡ filter (λ r. not (here r)) rows
  filter-added [] = rw new_row-here refl
  filter-added (r ∷ rows) = ground (arith, filter-added rows)

  insert_context-ok :
      (t t' : Tables)
      → insert_context e raw now t ≡ ok t'
      → t'.contexts ≡ t.contexts ++ new_row e raw now ∷ []
  insert_context-ok t t' h = ground arith

  update_context-ok :
      (t t' : Tables)
      → update_context e raw now t ≡ ok t'
      → t'.contexts ≡ map (assign_row e raw now) t.contexts
  update_context-ok t t' h = ground arith

  ddl_new : raw ≡ ddl_after raw none
  ddl_new = ground arith

  ddl_kept : (old : ContextRow) → (assigned e raw now old).raw_ddl ≡ ddl_after raw (some old)
  ddl_kept old = ground arith

  write_context-Stores :
      (g : EngineTypes) (o : Option ContextRow) (t t' : Tables)
      → IsStorable g e
      → find here t.contexts ≡ o
      → write_context o e raw now t ≡ ok t'
      → Stores g e raw t t'
  unfolding write_context
  write_context-Stores g none t t' h k w =
      let same = insert_context-ok t t' w in
      rw (same, k)
        (
          (new_row e raw now, find-added t.contexts k, new_row-restores g e raw now h, ddl_new),
          filter-added t.contexts,
        )
  write_context-Stores g (some old) t t' h k w =
      let same = update_context-ok t t' w in
      let found = find-assigned t.contexts old k in
      rw (same, k)
        (
          (
            assigned e raw now old,
            found.0,
            assigned-restores g e raw now old h found.1,
            ddl_kept old,
          ),
          filter-assigned t.contexts,
        )

  refuses-taken :
      (rows : List ContextRow)
      → find here rows ≡ none
      → any (λ r. named e.name e.namespace e.version r || here r) rows ≡ taken e rows
  refuses-taken [] h = refl
  refuses-taken (r ∷ rows) h = ground (arith, refuses-taken rows)

  write_context-taken :
      (o : Option ContextRow) (t : Tables)
      → find here t.contexts ≡ o
      → taken e t.contexts ≡ true
      → (x : Error) × (write_context o e raw now t ≡ err x)
  unfolding write_context
  write_context-taken none t k h = rw (refuses-taken t.contexts k, h) (_, refl)
  write_context-taken (some old) t k h = rw h (_, refl)

  write_context-free :
      (o : Option ContextRow) (t : Tables)
      → find here t.contexts ≡ o
      → taken e t.contexts ≡ false
      → (t' : Tables) × (write_context o e raw now t ≡ ok t')
  unfolding write_context
  write_context-free none t k h = rw (refuses-taken t.contexts k, h) (_, refl)
  write_context-free (some old) t k h = rw h (_, refl)

  -- Where no other row has the name and version, a save of an entry that the columns can carry
  -- returns, whether its version was there or not: its row reads back as the entry, with the raw DDL
  -- given or else the one it had, and every other row is as before.
  pub save_context-Stores :
      (g : EngineTypes) (t : Tables)
      → IsStorable g e
      → taken e t.contexts ≡ false
      → ((save_context e raw now t).0 ≡ ok tt) × Stores g e raw t (save_context e raw now t).1
  unfolding save_context
  save_context-Stores g t h k =
      let (t', done) = write_context-free (find here t.contexts) t refl k in
      rw done (refl, write_context-Stores g (find here t.contexts) t t' h refl done)

  -- Where another row has the name and version, a save raises and changes nothing.
  pub save_context-taken :
      (t : Tables)
      → taken e t.contexts ≡ true
      → (x : Error) × (save_context e raw now t ≡ (err x, t))
  unfolding save_context
  save_context-taken t k =
      let (x, refused) = write_context-taken (find here t.contexts) t refl k in rw refused (x, refl)

  write_context-keeps :
      (o : Option ContextRow) (t : Tables)
      → let t' = (settle t (write_context o e raw now t)).1 in
        (t'.snapshots ≡ t.snapshots) × (t'.payloads ≡ t.payloads)
  unfolding write_context settle
  write_context-keeps none t = ground arith
  write_context-keeps (some old) t = ground arith

  -- A save leaves the snapshots and their payloads alone.
  pub save_context-keeps :
      (t : Tables)
      → let t' = (save_context e raw now t).1 in
        (t'.snapshots ≡ t.snapshots) × (t'.payloads ≡ t.payloads)
  unfolding save_context
  save_context-keeps t = write_context-keeps (find here t.contexts) t
