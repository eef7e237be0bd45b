-- ===== src/DeepSee/Auth.antt =====
-- app/connectors/deepsee/auth.py: credential references, resolved at call time. The environment is
-- an argument; `strip` is that of ASCII texts.
use Prim.Native.Char.{code}
use text.Mathlib.Text.{starts_with}
use contextql_server.Prelude.{
  ℕ, zero, suc, String, ◌≡◌, ◌≢◌, true, ◌&&◌, Option, none, some, str_eq, eq_iff, arith,
  if◌then◌else◌, not,
}
use contextql_server.Errors.{Result, ok, err, credential_error}
use contextql_server.DeepSee.Decimal.{is_space}

-- `text[n:]`
abbrev pub drop_chars : ℕ → String → String
drop_chars zero s = s
drop_chars (suc n) String.[] = String.[]
drop_chars (suc n) (String.◌∷◌ c s) = drop_chars n s

lstrip : String → String
unfolding is_space
lstrip String.[] = String.[]
lstrip (String.◌∷◌ c s) = let rest = lstrip s in if is_space (code c) then rest else String.◌∷◌ c s

rstrip : String → String
unfolding is_space
rstrip String.[] = String.[]
rstrip (String.◌∷◌ c s) =
    let rest = rstrip s in
    if is_space (code c) && str_eq rest "" then String.[] else String.◌∷◌ c rest

-- `text.strip()`
unfoldable pub strip : String → String
unfolding lstrip rstrip
strip s = rstrip (lstrip s)

-- `reference[len(_ENV_SCHEME):].strip()`
abbrev pub variable : String → String
variable reference = strip (drop_chars 4 reference)

-- the end of `resolve_credential`, over what `os.environ.get` gave
from_environ : Option String → Result String
from_environ none = err (credential_error "could not be resolved")
from_environ (some value) =
    if str_eq value "" then err (credential_error "could not be resolved") else ok value

unfoldable pub resolve_credential : (String → Option String) → String → Result String
unfolding from_environ
resolve_credential environ reference =
    if str_eq (strip reference) ""
    then err (credential_error "must be a non-empty string")
    else if not (starts_with reference "env:")
    then err (credential_error "Unsupported credential reference scheme")
    else if str_eq (variable reference) ""
    then err (credential_error "names no environment variable")
    else from_environ (environ (variable reference))

-- A reference that resolves is an `env:` reference, and what it resolves to is the value of the
-- variable that it names; neither the variable's name nor the value is empty.
pub resolve_credential_sound :
    (environ : String → Option String) (reference secret : String)
    → resolve_credential environ reference ≡ ok secret
    → (starts_with reference "env:" ≡ true)
      × (variable reference ≢ "")
      × (environ (variable reference) ≡ some secret)
      × (secret ≢ "")
unfolding resolve_credential
resolve_credential_sound environ reference secret h =
    ground (arith, eq_iff (variable reference) "", eq_iff secret "")
