-- ===== src/Audit.antt =====
-- src/nexus_u/core/audit.py: the hash chain of stage events. The digest functions of the standard
-- library and the JSON form of an event are parameters, collected in a record.
pub mod Tests
pub mod Chain
use nexus_u.Prelude.{
  String, Bool, true, false, List, [], ◌∷◌, ◌++◌, ◌&&◌, ◌||◌, not, str_eq, if◌then◌else◌,
}

-- `digest head body` is `sha256(head.encode() + canonical_json(body)).hexdigest()`, and `genesis`
-- is the text of 64 zeros.
pub record Hashing (Event : Type 0) : Type 0 where
  pub genesis : String
  pub digest : String → Event → String

pub record Entry (Event : Type 0) : Type 0 where
  pub previous : String
  pub digest : String
  pub event : Event

pub record AuditChain (Event : Type 0) : Type 0 where
  pub head : String
  pub entries : List (Entry Event)

module _ {Event : Type 0} (h : Hashing Event) where
  abbrev pub empty_chain : AuditChain Event
  empty_chain = record { head = h.genesis; entries = [] }

  -- The chain after the call; what the source returns is its head.
  unfoldable pub append : Event → AuditChain Event → AuditChain Event
  append event chain =
      let d = h.digest chain.head event in
      record {
        head = d;
        entries = chain.entries ++ record { previous = chain.head; digest = d; event = event } ∷ [];
      }

  -- The loop of `verify` from a given head, then the comparison with the stored one.
  unfoldable pub verify_from : String → List (Entry Event) → String → Bool
  verify_from head [] stored = str_eq head stored
  verify_from head (entry ∷ entries) stored =
      let expected = h.digest head entry.event in
      let rest = verify_from expected entries stored in
      if not (str_eq entry.previous head) || not (str_eq entry.digest expected) then false else rest

  unfoldable pub verify : AuditChain Event → Bool
  unfolding verify_from
  verify chain = verify_from h.genesis chain.entries chain.head
