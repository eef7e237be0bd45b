-- ===== src/Services/Catalog/Guards.antt =====
-- What the catalog refuses to send to the engine.
use contextql_server.Prelude.{
  ⊤, String, Bool, true, false, Option, none, some, str_eq, eq_iff, Bool-cases, inl, inr, ◌⊎◌, ◌≡◌,
  ◌≢◌, refl, [], ◌∷◌,
}
use contextql_server.Errors.{Error, Result, ok, err}
use contextql_server.Errors.Exec.{Exec, go_on}
use contextql_server.Repository.{ContextRow}
use contextql_server.Services.Catalog.{
  Backend, get_context, log_context, delete, delete_found, drop_with,
}
use contextql_server.Services.Ddl.{concat, qualified}

-- The call changed nothing: it answered that there is no such context, or it raised.
abbrev pub IsRefused : {W : Type 0} → W → Result Bool × W → Type 0
IsRefused w x = (x ≡ (ok false, w)) ⊎ ((e : Error) × (x ≡ (err e, w)))

-- The call deleted, or raised.
abbrev pub Deleted : Result Bool → Type 0
Deleted r = (r ≡ ok true) ⊎ ((e : Error) × (r ≡ err e))

go_on-Deleted :
    {W A : Type 0} (r : Result A) (f : A → Exec W Bool) (w : W)
    → ((a : A) (w : W) → Deleted (f a w).0)
    → Deleted (go_on r f w).0
go_on-Deleted (ok a) f w h = h a w
go_on-Deleted (err e) f w h = inr (e, refl)

module _ {W : Type 0} (b : Backend W) where
  delete_found-IsRefused :
      (n ns : String) (o : Option ContextRow) (w : W)
      → ((r : ContextRow) → o ≡ some r → r.lifecycle_state ≢ "draft")
      → IsRefused w (delete_found b n ns o w)
  unfolding delete_found
  delete_found-IsRefused n ns none w h = inl refl
  delete_found-IsRefused n ns (some r) w h = elim (Bool-cases (str_eq r.lifecycle_state "draft")) [
    | inl e ↦ absurd (h r refl ((eq_iff r.lifecycle_state "draft").0 e))
    | inr e ↦ rw e (inr (_, refl))
  ]

  -- A context whose latest version is no draft is not deleted: the call raises, and sends the engine
  -- nothing and logs nothing; neither does it where there is no such context.
  pub delete-IsRefused :
      (n ns : String) (w : W)
      → ((r : ContextRow) → get_context b n ns w ≡ some r → r.lifecycle_state ≢ "draft")
      → IsRefused w (delete b n ns w)
  unfolding delete
  delete-IsRefused n ns w h = delete_found-IsRefused n ns (get_context b n ns w) w h

  drop_with-ends :
      (n ns : String) (o : Option (String → Exec W ⊤)) (w : W) → Deleted (drop_with b n ns o w).0
  unfolding drop_with
  drop_with-ends n ns none w = inr (_, refl)
  drop_with-ends n ns (some execute) w = go_on-Deleted (qualified n ns) _ w λ target w.
      go_on-Deleted (execute (concat ("DROP CONTEXT " ∷ target ∷ ";" ∷ [])) w).0 _ _
        λ u w. go_on-Deleted (log_context b "context.deleted" n ns none w).0 _ _ λ u w. inl refl

  -- A deletion of a draft returns true or raises.
  pub delete-draft :
      (n ns : String) (w : W) (r : ContextRow)
      → get_context b n ns w ≡ some r
      → r.lifecycle_state ≡ "draft"
      → Deleted (delete b n ns w).0
  unfolding delete delete_found
  delete-draft n ns w r h d =
      rw (h, (eq_iff r.lifecycle_state "draft").1 d) (drop_with-ends n ns b.execute w)
