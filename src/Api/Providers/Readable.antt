-- ===== src/Api/Providers/Readable.antt =====
-- Which requests leave providers that the handlers can answer with.
use contextql_server.Prelude.{
  ℕ, String, Bool, true, false, ◌&&◌, Option, none, some, List, [], ◌∷◌, is_some, ◌≡◌, refl, ap,
  ◌∙◌, arith, All, All-append, Bool-cases, inl, inr, if◌then◌else◌,
}
use contextql_server.Errors.{runtime_error}
use contextql_server.Services.Table.{at, update_row, same_key_refl}
use contextql_server.Services.Providers.{
  Provider, keys, Registry, ProviderArgs, Moment, Updates, get, update, set_enabled, updated,
  new_provider,
}
use contextql_server.Services.Providers.Lookups.{provider_changes}
use contextql_server.Services.Providers.Rows.{
  Rewritten, register-rows, update-Rewritten, set_enabled-Rewritten,
}
use contextql_server.Api.{Outcome, crashed}
use contextql_server.Api.Providers.{
  fits_model, ProviderUpdate, model_dump, register_provider, update_provider, enable_provider,
  disable_provider, describe_provider, provider_health, known, switched, is_provider_type,
}

-- A request that writes.
pub data Request : Type 0 where
  post : ProviderArgs → Moment → Request
  put : String → ProviderUpdate → String → Moment → Request
  enable disable : String → String → Moment → Request

unfoldable pub handle : Request → Registry → Registry
unfolding register_provider update_provider enable_provider disable_provider
handle (post body t) s = (register_provider body t s).1
handle (put name body namespace t) s = (update_provider name body namespace t s).1
handle (enable name namespace t) s = (enable_provider name namespace t s).1
handle (disable name namespace t) s = (disable_provider name namespace t s).1

-- `null` is given for neither the timeout nor the trust tier.
abbrev pub no_null {ℓ} : {A : Type ℓ} → Option (Option A) → Bool
no_null none = true
no_null (some v) = is_some v

abbrev pub gives_no_null : Request → Bool
gives_no_null (put name body namespace t) = no_null body.timeout_ms && no_null body.trust_tier
gives_no_null _ = true

abbrev pub IsReadable : Registry → Type 0
IsReadable s = All (λ p. fits_model p ≡ true) s.providers

All-update_row :
    (n ns : String) (f : Provider → Provider) (rows : List Provider)
    → ((p : Provider) → fits_model p ≡ true → fits_model (f p) ≡ true)
    → All (λ p. fits_model p ≡ true) rows
    → All (λ p. fits_model p ≡ true) (update_row keys n ns f rows)
All-update_row n ns f [] h r = tt
All-update_row n ns f (p ∷ rows) h r = elim (Bool-cases (at keys n ns p)) [
  | inl e ↦ rw e (h p r.0, All-update_row n ns f rows h r.1)
  | inr e ↦ rw e (r.0, All-update_row n ns f rows h r.1)
]

updated-fits :
    (u : Updates) (now : ℕ) (p : Provider)
    → (no_null u.timeout_ms && no_null u.trust_tier) ≡ true
    → fits_model p ≡ true
    → fits_model (updated u now p) ≡ true
updated-fits u now p h k = ground arith

module _ (s : Registry) (readable : IsReadable s) where
  Rewritten-IsReadable :
      (n ns : String) (f : Provider → Provider) (s' : Registry)
      → ((p : Provider) → fits_model p ≡ true → fits_model (f p) ≡ true)
      → Rewritten n ns f s s'
      → IsReadable s'
  Rewritten-IsReadable n ns f s' h (inl same) = rw same readable
  Rewritten-IsReadable n ns f s' h (inr rows) =
      rw rows (All-update_row n ns f s.providers h readable)

  register_provider-IsReadable :
      (a : ProviderArgs) (t : Moment) → IsReadable (register_provider a t s).1
  unfolding register_provider
  register_provider-IsReadable a t = elim (Bool-cases (is_provider_type a.provider_type)) [
    | inr e ↦ rw e readable
    | inl e ↦ rw e (elim (register-rows a t s) [
      | inl same ↦ rw same readable
      | inr rows ↦
          rw rows (All-append _ s.providers (new_provider a t.now ∷ []) readable (refl, tt))
    ])
  ]

  known-IsReadable :
      (o : Option Provider) (reply : Registry → Outcome Provider × Registry)
      → IsReadable (reply s).1
      → IsReadable (known o reply s).1
  unfolding known
  known-IsReadable none reply h = readable
  known-IsReadable (some p) reply h = h

  -- A request that writes, and gives null for neither the timeout nor the trust tier, leaves a
  -- registry in which every provider fits the response model, if every one did before.
  pub handle-IsReadable :
      (request : Request) → gives_no_null request ≡ true → IsReadable (handle request s)
  unfolding handle update_provider enable_provider disable_provider switched
  handle-IsReadable (post body t) h = register_provider-IsReadable body t
  handle-IsReadable (put name body namespace t) h = known-IsReadable (get name namespace s) _ (
      Rewritten-IsReadable name namespace (updated (model_dump body) t.now)
        (update name namespace (model_dump body) t s).1
        (λ p k. updated-fits (model_dump body) t.now p h k)
        (update-Rewritten name namespace (model_dump body) t s))
  handle-IsReadable (enable name namespace t) h = known-IsReadable (get name namespace s) _ (
      Rewritten-IsReadable name namespace _ (set_enabled name namespace true t s).1 (λ p k. k)
        (set_enabled-Rewritten name namespace true t s))
  handle-IsReadable (disable name namespace t) h = known-IsReadable (get name namespace s) _ (
      Rewritten-IsReadable name namespace _ (set_enabled name namespace false t s).1 (λ p k. k)
        (set_enabled-Rewritten name namespace false t s))

-- A request that gives null for the timeout of a provider that is there is carried out before its
-- answer fails, and from then on looking the provider up fails too.
pub update_provider-null :
    (name namespace : String) (body : ProviderUpdate) (t : Moment) (s : Registry) (p : Provider)
    → get name namespace s ≡ some p
    → body.timeout_ms ≡ some none
    → let x = update_provider name body namespace t s in
      let failure = crashed (runtime_error "ResponseValidationError") in
      (x.0 ≡ failure)
      × (get name namespace x.1 ≡ some (updated (model_dump body) t.now p))
      × (describe_provider name namespace x.1 ≡ failure)
      × (provider_health name namespace x.1 ≡ failure)
unfolding update_provider describe_provider provider_health
update_provider-null name namespace body t s p h k =
    let done = (provider_changes name namespace (model_dump body) true t s p h (ground arith)).0 in
    let found : get name namespace (update name namespace (model_dump body) t s).1
        ≡ some (updated (model_dump body) t.now p) =
      done.1 name namespace
      ∙ ap
          (λ (b : Bool).
            if b then some (updated (model_dump body) t.now p) else get name namespace s)
          (same_key_refl name namespace) in
    let unfit : fits_model (updated (model_dump body) t.now p) ≡ false = rw k refl in
    rw (h, known) (rw (done.0, unfit) refl, found, rw (found, unfit) refl, rw (found, unfit) refl)
