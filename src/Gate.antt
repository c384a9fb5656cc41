-- ===== src/Gate.antt =====
-- engram/memory/gate.py: what is allowed to become a fact about the user.
pub mod Markers
pub mod Isolation
use long_term_memory_agent.Base.{
  String, Bool, true, false, not, Option, none, some, List, [], ◌∷◌, map, is_empty, if◌then◌else◌,
  ℕ,
}
use long_term_memory_agent.Base.Texts.{◌+++◌}
use long_term_memory_agent.Base.Dicts.{Json, null, str, strs, Dict}
use long_term_memory_agent.Env.{Env, Item}
use long_term_memory_agent.Exec.{pure, ◌>>=◌}
use long_term_memory_agent.Schemas.{Provenance, source_name, is_trusted}
use long_term_memory_agent.World.{Method, utcnow, store_put, store_search}
use Markers.{find_injection_markers}

abbrev pub quarantine_namespace : String
quarantine_namespace = "quarantine"

pub data GateDecision : Type 0 where
  allow block_untrusted block_instruction : GateDecision

abbrev pub decision_name : GateDecision → String
decision_name allow = "allow"
decision_name block_untrusted = "block_untrusted"
decision_name block_instruction = "block_instruction"

pub record GateVerdict : Type 0 where
  pub decision : GateDecision
  pub source : Provenance
  pub reason : String
  pub markers : List String

unfoldable pub allowed : GateVerdict → Bool
allowed v = elim v.decision [ allow ↦ true | _ ↦ false ]

-- The gate's setting; its store is the shared one.
pub record InjectionGate : Type 0 where
  pub scan_trusted_content : Bool

abbrev instruction_reason : String
instruction_reason = "text is addressed to the assistant, not about the user"

abbrev allow_verdict : Provenance → GateVerdict
allow_verdict source = record { decision = allow; source = source; reason = ""; markers = [] }

module _ {Float : Type 0} where
  -- `str | None` in a JSON document.
  abbrev pub maybe_str : Option String → Json Float
  maybe_str none = null
  maybe_str (some s) = str s

module _ ⦃env : Env⦄ where
  -- The markers that are looked for: none where trusted content is not scanned.
  abbrev pub scan : InjectionGate → String → List String
  scan gate text = if gate.scan_trusted_content then find_injection_markers text else []

  unfoldable pub inspect : InjectionGate → String → Provenance → GateVerdict
  inspect gate text source =
      if not (is_trusted source)
      then record {
        decision = block_untrusted;
        source = source;
        reason = "content came from " +++ source_name source +++ ", which cannot write user memory";
        markers = [];
      }
      else let markers = scan gate text in
        if not (is_empty markers)
        then record {
          decision = block_instruction;
          source = source;
          reason = instruction_reason;
          markers = markers;
        }
        else allow_verdict source

  -- The entry that `quarantine` writes.
  abbrev pub held : String → GateVerdict → Option String → ℕ → Dict env.Float
  held text verdict thread_id at =
      ("text", str text)
      ∷ ("source", str (source_name verdict.source))
      ∷ ("decision", str (decision_name verdict.decision))
      ∷ ("reason", str verdict.reason)
      ∷ ("markers", strs verdict.markers)
      ∷ ("thread_id", maybe_str thread_id)
      ∷ ("quarantined_at", str (env.isoformat at))
      ∷ []

  unfoldable pub quarantine : String → String → GateVerdict → Option String → Method (Unit {0})
  quarantine user_id text verdict thread_id = do
    let digest = env.blake2b text
    at ← utcnow
    let key = env.isoformat at +++ ":" +++ digest
    later ← utcnow
    store_put (quarantine_namespace, user_id) key (held text verdict thread_id later) false

  unfoldable pub quarantined : String → ℕ → Method (List (Dict env.Float))
  quarantined user_id limit = do
    items ← store_search (quarantine_namespace, user_id) none limit 0
    pure (map (λ (i : Item env.Float). i.value) items)
