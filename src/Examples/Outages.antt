-- ===== src/Examples/Outages.antt =====
-- An agent whose model gives no record of facts.
use long_term_memory_agent.Base.{false, true, str_eq}
use long_term_memory_agent.Gate.{allowed, inspect}
use long_term_memory_agent.Schemas.{is_trusted}
use long_term_memory_agent.Gate.Markers.{find_injection_markers}
use long_term_memory_agent.Write.{empty_report}
use long_term_memory_agent.Schemas.{user}
use long_term_memory_agent.Base.Texts.{strip}
use long_term_memory_agent.Graph.{write_turn}
use long_term_memory_agent.Exec.{validation_error, ok, raise_with, Result, Error}
use long_term_memory_agent.Env.{Message}
use long_term_memory_agent.Base.{◌≡◌, refl, none, List}
use long_term_memory_agent.Demo.{demo}
use long_term_memory_agent.Config.{Settings, default_settings}
use long_term_memory_agent.Examples.Data.{known}
use long_term_memory_agent.Graph.Outage.{write_turn_fails}
use long_term_memory_agent.Graph.Build.{build_writer}
use long_term_memory_agent.Extract.Llm.{prompt, Output, other}

abbrev hosted : Settings demo.Float
hosted = record (default_settings 300 9) { chat_provider = "bedrock"; memory_writer = "manager" }

abbrev unstructured : List Message → Result (Output demo.Float)
unstructured ms = ok (other none)

hello_said : str_eq (strip "hello ") "" ≡ false
unfolding strip
hello_said = refl

hello_allowed :
    allowed (inspect (record { scan_trusted_content = true }) (strip "hello ") user) ≡ true
unfolding strip allowed inspect is_trusted find_injection_markers
hello_allowed = refl

write_turn_fails_example :
    ((e : Error)
      → unstructured (prompt (strip "hello ")) ≡ raise_with e
      → write_turn (build_writer hosted unstructured) "ann" "hello " none user known
        ≡ (ok empty_report, known))
    × (unstructured (prompt (strip "hello ")) ≡ ok (other none)
        → write_turn (build_writer hosted unstructured) "ann" "hello " none user known
          ≡ (raise_with validation_error, known))
write_turn_fails_example =
    write_turn_fails hosted unstructured "ann" "hello " none user known refl refl hello_said
      hello_allowed

-- The second of these happens.
unstructured_fails :
    write_turn (build_writer hosted unstructured) "ann" "hello " none user known
    ≡ (raise_with validation_error, known)
unstructured_fails =
    (write_turn_fails hosted unstructured "ann" "hello " none user known refl refl hello_said
        hello_allowed).1
      refl
