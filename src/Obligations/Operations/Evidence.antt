-- ===== src/Obligations/Operations/Evidence.antt =====
-- `add_evidence`: a node of kind evidence from a dictionary.
use nexus_u.Prelude.{ℕ, String, false, Option, none, some, if◌then◌else◌}
use nexus_u.Obligations.Graph.{evidence, discharged, info, Meta, Metadata, get_meta}
use nexus_u.Obligations.Conservation.{truthy}
use nexus_u.Obligations.Exec.{Exec}
use nexus_u.Obligations.Operations.{add_node}

-- `str` on a metadata value is a parameter.
module _ (uuid : ℕ → String) (str_of : Meta → String) where
  -- `raw.get(key) or ...`
  abbrev pub text_or : Option Meta → String → String
  text_or none other = other
  text_or (some m) other = if truthy (some m) then str_of m else other

  unfoldable pub evidence_statement : Metadata → String
  unfolding get_meta
  evidence_statement raw =
      text_or (get_meta "summary" raw)
        (text_or (get_meta "statement" raw) (text_or (get_meta "kind" raw) "Evidence"))

  unfoldable pub add_evidence : Metadata → String → Exec String
  unfolding evidence_statement
  add_evidence raw source = add_node uuid (record {
    new_statement = evidence_statement raw;
    new_kind = evidence;
    new_status = discharged;
    new_severity = info;
    new_blocking = false;
    new_source = source;
    new_metadata = raw;
    given_id = none;
  })
