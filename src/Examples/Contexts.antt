-- ===== src/Examples/Contexts.antt =====
-- The catalog on a world that records the statements it is sent.
use contextql_server.Prelude.{String, false, none, some, List, [], ◌∷◌, ◌++◌, ◌≡◌, refl}
use contextql_server.Errors.{ok}
use contextql_server.Repository.{ContextRow}
use Prim.Native.String.{◌++◌ as text_append}
use contextql_server.Services.Catalog.{Backend, create}
use contextql_server.Services.Ddl.{NewContext, literal, is_identifier, rstrip_semicolons}
use contextql_server.Services.Ddl.Quoting.{read_quoted, read_quoted-literal}

-- the statements that were sent, beside a fixed table
abbrev Sent : Type 0
Sent = List String

abbrev backend : List ContextRow → Backend Sent
backend rows = record {
  execute = some (λ t sent. (ok tt, sent ++ t ∷ []));
  contexts = λ sent. rows;
  log = none;
}

abbrev described : NewContext
described = record {
  name = "late";
  definition_text = "SELECT id FROM trades;";
  entity_key = "id";
  namespace = "ops";
  has_score = false;
  score_column = none;
  description = some "Ann's trades";
  tags = "a" ∷ "b" ∷ [];
}

created_texts :
    (create (backend []) described []).1
    ≡ "CREATE CONTEXT ops.late ON id\nDESCRIPTION 'Ann''s trades'\nTAGS ('a', 'b')\nAS SELECT id FROM trades;"
      ∷ "ALTER CONTEXT ops.late SET STATE 'draft';" ∷ []
unfolding create is_identifier literal rstrip_semicolons
created_texts = refl

read_quoted-literal_example :
    read_quoted (text_append (literal "Ann's') DROP") ", 'b');") ≡ some ("Ann's') DROP", ", 'b');")
read_quoted-literal_example = read_quoted-literal "Ann's') DROP" ", 'b');" refl
