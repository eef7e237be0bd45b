-- ===== src/DeepSee/Providers/Limit.antt =====
-- Which ids the MCP provider keeps under a limit.
use contextql_server.Prelude.{ℕ, ⊤, true, List, [], ◌∷◌, All, ◌≡◌, arith}
use contextql_server.Prelude.Dict.{mem_num}
use contextql_server.DeepSee.Models.{Score}
use contextql_server.DeepSee.Providers.{before}

module _ (scores : List (ℕ × Score)) where
  -- every id comes before all behind it
  abbrev Ordered : List ℕ → Type 0
  Ordered [] = ⊤
  Ordered (i ∷ is) = All (λ j. before scores i j ≡ true) is × Ordered is

  All-mem :
      (whole is : List ℕ)
      → ((k : ℕ) → mem_num k is ≡ true → mem_num k whole ≡ true)
      → All (λ k. mem_num k whole ≡ true) is
  All-mem whole [] h = tt
  All-mem whole (i ∷ is) h = (h i (ground arith), All-mem whole is (λ k m. h k (ground (arith, m))))
