-- ===== src/Services/Ddl/Quoting.antt =====
-- The literals of `_literal`, and a reader of SQL literals.
use Prim.Native.Char.{Char, code}
use Prim.Native.String.{◌++◌ as text_append}
use text.Mathlib.TextLemmas.{append_assoc, nil-append, cons-append}
use contextql_server.Prelude.{
  String, Bool, true, false, Option, none, some, ◌==◌, if◌then◌else◌, Bool-cases, inl, inr, ◌≡◌,
  refl, ap, ◌∙◌,
}
use contextql_server.Services.Ddl.{doubled, literal}

abbrev put : Char → Option (String × String) → Option (String × String)
put c none = none
put c (some (v, rest)) = some (String.◌∷◌ c v, rest)

-- The value of a SQL literal behind its opening quote, and what follows the literal: a doubled quote
-- is a quote, and a single one ends the literal.
unfoldable pub read_literal : String → Option (String × String)
read_literal String.[] = none
read_literal (String.◌∷◌ c String.[]) = if code c == 39 then some ("", "") else none
read_literal (String.◌∷◌ c (String.◌∷◌ d s)) =
    let behind = read_literal s in
    let next = read_literal (String.◌∷◌ d s) in
    if code c == 39
    then if code d == 39 then put c behind else some ("", String.◌∷◌ d s)
    else put c next

abbrev pub starts_with_quote : String → Bool
starts_with_quote String.[] = false
starts_with_quote (String.◌∷◌ c s) = code c == 39

read-plain :
    (c : Char) (s : String)
    → (code c == 39) ≡ false
    → read_literal (String.◌∷◌ c s) ≡ put c (read_literal s)
unfolding read_literal
read-plain c String.[] h = rw h refl
read-plain c (String.◌∷◌ d s) h = rw h refl

read-quote :
    (c : Char) (s : String)
    → (code c == 39) ≡ true
    → read_literal (String.◌∷◌ c (String.◌∷◌ c s)) ≡ put c (read_literal s)
unfolding read_literal
read-quote c s h = rw h refl

read-end :
    (q : Char) (rest : String)
    → (code q == 39) ≡ true
    → starts_with_quote rest ≡ false
    → read_literal (String.◌∷◌ q rest) ≡ some ("", rest)
unfolding read_literal
read-end q String.[] h n = rw h refl
read-end q (String.◌∷◌ d s) h n = rw (h, n) refl

read-doubled :
    (q : Char) (v rest : String)
    → (code q == 39) ≡ true
    → starts_with_quote rest ≡ false
    → read_literal (text_append (doubled v) (String.◌∷◌ q rest)) ≡ some (v, rest)
unfolding doubled
read-doubled q String.[] rest h n = rw (nil-append (String.◌∷◌ q rest)) (read-end q rest h n)
read-doubled q (String.◌∷◌ c v) rest h n = elim (Bool-cases (code c == 39)) [
  | inl e ↦
      rw
        (
          e,
          cons-append c (String.◌∷◌ c (doubled v)) (String.◌∷◌ q rest),
          cons-append c (doubled v) (String.◌∷◌ q rest),
        )
        (read-quote c (text_append (doubled v) (String.◌∷◌ q rest)) e
          ∙ ap (put c) (read-doubled q v rest h n))
  | inr plain ↦
      rw (plain, cons-append c (doubled v) (String.◌∷◌ q rest))
        (read-plain c (text_append (doubled v) (String.◌∷◌ q rest)) plain
          ∙ ap (put c) (read-doubled q v rest h n))
]

unfoldable pub read_quoted : String → Option (String × String)
unfolding read_literal
read_quoted String.[] = none
read_quoted (String.◌∷◌ c s) = let inner = read_literal s in if code c == 39 then inner else none

abbrev quote : Char
quote = "'"

quote_before : (s : String) → text_append "'" s ≡ String.◌∷◌ quote s
quote_before s = cons-append quote String.[] s ∙ ap (String.◌∷◌ quote) (nil-append s)

-- The literal that the service makes of any text is read as that text, and exactly what stands behind
-- the literal is left, where no further quote follows it.
pub read_quoted-literal :
    (value rest : String)
    → starts_with_quote rest ≡ false
    → read_quoted (text_append (literal value) rest) ≡ some (value, rest)
unfolding literal read_quoted
read_quoted-literal value rest n =
    rw
      (
        append_assoc "'" (text_append (doubled value) "'") rest,
        append_assoc (doubled value) "'" rest,
        quote_before rest,
        quote_before (text_append (doubled value) (String.◌∷◌ quote rest)),
      )
      (read-doubled quote value rest refl n)
