-- ===== src/Repository/Contexts/Dropped.antt =====
-- What `drop_context` leaves for `load_contexts` and for a later save.
use contextql_server.Prelude.{
  ℕ, String, true, false, Option, none, some, List, [], ◌∷◌, map, filter, str_eq, ◌≡◌, refl, ◌∙◌,
  arith, All, All-sorted, Bool-cases, inl, inr,
}
use contextql_server.Errors.{Error, err}
use contextql_server.Repository.{ContextRow, Tables, is_text}
use contextql_server.Repository.Contexts.{
  CatalogEntry, EngineTypes, taken, save_context, dropped_row, drop_context, entry_from_row,
  is_latest, by_name, with_entry, entries, load_contexts,
}
use contextql_server.Repository.Contexts.Saved.{save_context-taken}

module _ (c : String) (at : ℕ) where
  taken-dropped :
      (e : CatalogEntry) (rows : List ContextRow)
      → taken e (map (dropped_row c at) rows) ≡ taken e rows
  taken-dropped e [] = refl
  taken-dropped e (r ∷ rows) = ground (arith, taken-dropped e rows)

  -- A dropped context keeps its names: whatever was dropped, a context with another id cannot be
  -- saved under the name, namespace and version of a row of before. The save raises and changes
  -- nothing.
  pub drop_context-keeps_names :
      (e : CatalogEntry) (raw : Option String) (now : ℕ) (t : Tables)
      → taken e t.contexts ≡ true
      → (x : Error) × (save_context e raw now (drop_context c at t) ≡ (err x, drop_context c at t))
  drop_context-keeps_names e raw now t h =
      save_context-taken e raw now (drop_context c at t)
        (unfold drop_context in (taken-dropped e t.contexts ∙ h))

  abbrev IsOther : ContextRow → Type 0
  IsOther r = is_text c r.context_id ≡ false

  latest-IsOther :
      (r : ContextRow) (all_rows : List ContextRow)
      → is_latest all_rows (dropped_row c at r) ≡ true
      → IsOther (dropped_row c at r)
  latest-IsOther r all_rows h = ground arith

  filter-IsOther :
      (rows all_rows : List ContextRow)
      → All IsOther (filter (is_latest all_rows) (map (dropped_row c at) rows))
  filter-IsOther [] all_rows = tt
  filter-IsOther (r ∷ rows) all_rows = elim (Bool-cases (is_latest all_rows (dropped_row c at r))) [
    | inl kept ↦ rw kept (latest-IsOther r all_rows kept, filter-IsOther rows all_rows)
    | inr left ↦ rw left (filter-IsOther rows all_rows)
  ]

  with_entry-other :
      (g : EngineTypes) (o : Option String) (r : ContextRow) (es : List CatalogEntry)
      → is_text c o ≡ false
      → All (λ e. str_eq e.context_id c ≡ false) es
      → All (λ e. str_eq e.context_id c ≡ false) (with_entry g o r es)
  unfolding entry_from_row
  with_entry-other g none r es h k = k
  with_entry-other g (some d) r es h k = (h, k)

  entries-other :
      (g : EngineTypes) (rows : List ContextRow)
      → All IsOther rows
      → All (λ e. str_eq e.context_id c ≡ false) (entries g rows)
  entries-other g [] h = tt
  entries-other g (r ∷ rows) h =
      with_entry-other g r.context_id r (entries g rows) h.0 (entries-other g rows h.1)

  -- No version of a dropped context is loaded.
  pub load_contexts-drop_context :
      (g : EngineTypes) (t : Tables)
      → All (λ e. str_eq e.context_id c ≡ false) (load_contexts g (drop_context c at t))
  unfolding load_contexts drop_context
  load_contexts-drop_context g t =
      entries-other g _ (
        All-sorted IsOther by_name _
          (filter-IsOther t.contexts (map (dropped_row c at) t.contexts)))
