-- ===== src/DeepSee/Mock/Calls.antt =====
-- The call counter of the mock.
use contextql_server.Prelude.{◌+◌, String, Option, List, [], ◌∷◌, ◌≡◌, refl}
use contextql_server.DeepSee.Mock.{FailureKind, MockService, admit, enter_call}
use contextql_server.DeepSee.Mock.Pages.{changes}

admit-calls :
    (fs : List FailureKind) (token : Option String) (m : MockService)
    → (admit fs token m).1.call_count ≡ m.call_count
unfolding admit
admit-calls [] token m = refl
admit-calls (f ∷ fs) token m = refl

pub changes-calls :
    (since : String) (cursor token : Option String) (m : MockService)
    → (changes since cursor token m).1.call_count ≡ m.call_count + 1
unfolding changes enter_call
changes-calls since cursor token m =
    admit-calls m.failures token (record m { call_count = m.call_count + 1 })
