-- ===== src/Examples/Requests.antt =====
-- Requests to the API, and a turn of the control arm.
use long_term_memory_agent.Base.{
  if◌then◌else◌, str_eq, ℕ, String, ◌≡◌, refl, true, false, Option, none, some, [], ◌∷◌, Bool,
}
use long_term_memory_agent.Base.Dicts.{str}
use long_term_memory_agent.Api.Auth.{
  Jwt, CognitoVerifier, current_user, subject, claimed, named, answered,
}
use long_term_memory_agent.Api.Routes.{handle, post_observe, delete_user}
use long_term_memory_agent.Api.Routes.Guards.{handle_forbids, observe_isolated}
use long_term_memory_agent.Api.Tokens.{IsIssued, current_user_verified}
use long_term_memory_agent.Demo.{demo}
use long_term_memory_agent.Examples.Data.{writer, uses, known, known-IsOwned, apart}
use long_term_memory_agent.Exec.{http_error, raise_with, ok}
use long_term_memory_agent.Exec.Yields.{Returns}
use long_term_memory_agent.Graph.{Agent, managed, chat}
use long_term_memory_agent.Graph.Isolation.{chat_isolated}
use long_term_memory_agent.Manager.Owned.{IsOwned}
use long_term_memory_agent.Graph.Control.{IsBare, chat_control}
use long_term_memory_agent.Schemas.{document, memory_namespace}

abbrev helper : Bool → Agent
helper on = record {
  model = λ _ _. ok (some "Sure.");
  memory_enabled = on;
  top_k = 8;
  writer = managed (writer (uses "Uses emacs" "emacs" ∷ []));
}

handle_forbids_example : handle 5 (helper true) (some "bob") (delete_user "ann") known ≡ (
    if str_eq "bob" "ann"
    then handle 5 (helper true) none (delete_user "ann") known
    else (raise_with (http_error 403), known))
handle_forbids_example = handle_forbids 5 (helper true) "bob" (delete_user "ann") known

observe_isolated_example :
    demo.get
      (handle 5
        (helper true)
        (some "ann")
        (post_observe "ann" "I use emacs" none document)
        known).1.store
      (memory_namespace, "ann")
      "v"
    ≡ demo.get known.store (memory_namespace, "ann") "v"
observe_isolated_example =
    observe_isolated 5 (writer (uses "Uses emacs" "emacs" ∷ [])) (helper true) (some "ann") "ann"
      "I use emacs" none document known (memory_namespace, "ann") "v" refl
      (apart "quarantine" memory_namespace refl)

-- A library that takes a token for its own subject.
abbrev open_jwt : Jwt ℕ
open_jwt = record {
  Key = String;
  header = λ _. ok (record { alg = some "RS256"; kid = some "k" });
  signing_key = λ _. ok "key";
  decode =
      λ token _ _. ok (record { token_use = str "access"; client_id = str "app"; sub = str token });
}

abbrev pool : CognitoVerifier
pool = record { issuer = "https://issuer"; client_id = "app" }

current_user_verified_example :
    (token : String) × (s : String) × (◌≡◌ {A = Option String} (some "ann") (some token))
    × (◌≡◌ {A = Option String} (some "ann") (some s))
    × IsIssued open_jwt pool token s
unfolding current_user subject claimed named answered
current_user_verified_example = current_user_verified open_jwt pool (some "ann") (some "ann") refl

chat_control_example :
    (demo.get
        (chat (helper false) "ann" "t1" "I use emacs" known).1.store
        (memory_namespace, "ann")
        "v"
      ≡ demo.get known.store (memory_namespace, "ann") "v")
    × Returns IsBare (chat (helper false) "ann" "t1" "I use emacs" known).0
chat_control_example =
    chat_control (helper false) "ann" "t1" "I use emacs" known (memory_namespace, "ann") "v" refl
      (apart "threads" memory_namespace refl)

chat_isolated_example :
    IsOwned (chat (helper true) "bob" "t1" "I use emacs" known).1.store
    × (demo.get
          (chat (helper true) "bob" "t1" "I use emacs" known).1.store
          (memory_namespace, "ann")
          "v"
        ≡ demo.get known.store (memory_namespace, "ann") "v")
chat_isolated_example =
    chat_isolated (helper true) (writer (uses "Uses emacs" "emacs" ∷ [])) "bob" "t1" "I use emacs"
      known (memory_namespace, "ann") "v" refl known-IsOwned (apart "bob" "ann" refl)
