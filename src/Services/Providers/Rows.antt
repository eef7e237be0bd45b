-- ===== src/Services/Providers/Rows.antt =====
-- The rows that the registry's operations leave.
use contextql_server.Prelude.{
  String, Bool, Option, none, some, List, [], ◌∷◌, ◌++◌, any, ◌≡◌, refl, ◌⊎◌, inl, inr, Bool-cases,
}
use contextql_server.Services.Audit.{Field}
use contextql_server.Services.Table.{at, update_row}
use contextql_server.Services.Providers.{
  Provider, keys, Moment, Registry, ProviderArgs, new_provider, get, register, registered, changed,
  unchanged, Updates, gives_any, updated, update, set_enabled,
}

pub register-rows :
    (a : ProviderArgs) (t : Moment) (s : Registry)
    → ((register a t s).1.providers ≡ s.providers)
      ⊎ ((register a t s).1.providers ≡ s.providers ++ new_provider a t.now ∷ [])
unfolding register registered
register-rows a t s = elim (Bool-cases (any (at keys a.name a.namespace) s.providers)) [
  | inl e ↦ rw e (inl refl)
  | inr e ↦ rw e (inr refl)
]

-- The rows are as before, or the one of a name is changed.
abbrev pub Rewritten : String → String → (Provider → Provider) → Registry → Registry → Type 0
Rewritten n ns f s s' =
    (s'.providers ≡ s.providers) ⊎ (s'.providers ≡ update_row keys n ns f s.providers)

changed-Rewritten :
    (n ns kind : String) (detail : Option (List (String × Field))) (f : Provider → Provider)
    (t : Moment) (o : Option Provider) (s : Registry)
    → Rewritten n ns f s (changed n ns kind detail f t o s).1
unfolding changed
changed-Rewritten n ns kind detail f t none s = inl refl
changed-Rewritten n ns kind detail f t (some p) s = inr refl

unchanged-Rewritten :
    (n ns : String) (f : Provider → Provider) (o : Option Provider) (s : Registry)
    → Rewritten n ns f s (unchanged o s).1
unfolding unchanged
unchanged-Rewritten n ns f none s = inl refl
unchanged-Rewritten n ns f (some p) s = inl refl

pub update-Rewritten :
    (n ns : String) (u : Updates) (t : Moment) (s : Registry)
    → Rewritten n ns (updated u t.now) s (update n ns u t s).1
unfolding update
update-Rewritten n ns u t s = elim (Bool-cases (gives_any u)) [
  | inl e ↦ rw e (changed-Rewritten n ns "provider.updated" none (updated u t.now) t (get n ns s) s)
  | inr e ↦ rw e (unchanged-Rewritten n ns (updated u t.now) (get n ns s) s)
]

pub set_enabled-Rewritten :
    (n ns : String) (b : Bool) (t : Moment) (s : Registry)
    → Rewritten n ns
        (λ p. record p { enabled = b; updated_at = t.now })
        s
        (set_enabled n ns b t s).1
unfolding set_enabled
set_enabled-Rewritten n ns b t s = changed-Rewritten n ns _ none _ t (get n ns s) s
