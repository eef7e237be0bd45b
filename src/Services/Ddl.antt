-- ===== src/Services/Ddl.antt =====
-- The texts of the statements that app/services/catalog_service.py sends to the engine.
pub mod Quoting
use Prim.Native.Char.{code}
use Prim.Native.String.{◌++◌ as text_append}
use contextql_server.Prelude.{
  ℕ, String, Bool, true, false, not, ◌&&◌, ◌||◌, Option, none, some, List, [], ◌∷◌, str_eq, leb,
  ◌==◌, if◌then◌else◌,
}
use contextql_server.Errors.{value_error, Result, ok, err}

abbrev pub concat : List String → String
concat [] = String.[]
concat (t ∷ ts) = text_append t (concat ts)

-- `", ".join(ts)`
abbrev pub comma_join : List String → String
comma_join [] = String.[]
comma_join (t ∷ []) = t
comma_join (t ∷ u ∷ ts) = text_append t (text_append ", " (comma_join (u ∷ ts)))

-- `value.replace("'", "''")`
unfoldable pub doubled : String → String
doubled String.[] = String.[]
doubled (String.◌∷◌ c s) =
    if code c == 39 then String.◌∷◌ c (String.◌∷◌ c (doubled s)) else String.◌∷◌ c (doubled s)

-- `_literal`
unfoldable pub literal : String → String
unfolding doubled
literal value = text_append "'" (text_append (doubled value) "'")

abbrev pub is_letter : ℕ → Bool
is_letter c = (leb 65 c && leb c 90) || ((leb 97 c && leb c 122) || c == 95)

abbrev pub is_word : ℕ → Bool
is_word c = is_letter c || (leb 48 c && leb c 57)

-- `[A-Za-z0-9_]*$`, where `$` matches at the end and before a last line feed
word_rest : String → Bool
word_rest String.[] = true
word_rest (String.◌∷◌ c s) = (is_word (code c) && word_rest s) || (code c == 10 && str_eq s "")

-- `re.compile(r"^[A-Za-z_][A-Za-z0-9_]*$").match(text)`
unfoldable pub is_identifier : String → Bool
unfolding word_rest
is_identifier String.[] = false
is_identifier (String.◌∷◌ c s) = is_letter (code c) && word_rest s

-- `_qualified`
unfoldable pub qualified : String → String → Result String
unfolding is_identifier
qualified name namespace =
    if not (is_identifier name) || not (is_identifier namespace)
    then err (value_error "Context name and namespace must be identifiers")
    else ok
        (if str_eq namespace "default" then name else text_append namespace (text_append "." name))

-- `definition_text.rstrip(";")`
unfoldable pub rstrip_semicolons : String → String
rstrip_semicolons String.[] = String.[]
rstrip_semicolons (String.◌∷◌ c s) =
    let rest = rstrip_semicolons s in
    if code c == 59 && str_eq rest "" then String.[] else String.◌∷◌ c rest

-- The arguments of `create`, but for the classification, which it does not read.
pub record NewContext : Type 0 where
  pub name : String
  pub definition_text : String
  pub entity_key : String
  pub namespace : String
  pub has_score : Bool
  pub score_column : Option String
  pub description : Option String
  pub tags : List String

-- `not x`, for a text that may be missing
abbrev pub is_blank : Option String → Bool
is_blank none = true
is_blank (some t) = str_eq t ""

abbrev pub given : Option String → String
given none = ""
given (some t) = t

unfoldable pub score_clause : Bool → Option String → Result String
score_clause false column = ok ""
score_clause true column =
    if is_blank column
    then err (value_error "score_column is required when has_score is true")
    else ok (text_append "\nSCORE " (given column))

unfoldable pub literals : List String → List String
unfolding literal
literals [] = []
literals (t ∷ ts) = literal t ∷ literals ts

description_clause : Option String → String
unfolding literal
description_clause d = if is_blank d then "" else text_append "\nDESCRIPTION " (literal (given d))

tags_clause : List String → String
unfolding literals
tags_clause [] = ""
tags_clause (t ∷ ts) = concat ("\nTAGS (" ∷ comma_join (literals (t ∷ ts)) ∷ ")" ∷ [])

unfoldable pub create_text : NewContext → String → String → String
unfolding description_clause tags_clause rstrip_semicolons
create_text a name score = concat (
    "CREATE CONTEXT "
    ∷ name
    ∷ " ON "
    ∷ a.entity_key
    ∷ score
    ∷ description_clause a.description
    ∷ tags_clause a.tags
    ∷ "\nAS "
    ∷ rstrip_semicolons a.definition_text
    ∷ ";"
    ∷ [])

abbrev pub state_text : String → String → String
state_text name state = concat ("ALTER CONTEXT " ∷ name ∷ " SET STATE '" ∷ state ∷ "';" ∷ [])
