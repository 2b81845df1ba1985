-- ===== src/Federation/Tests.antt =====
-- A ledger with two organizations, and two repositories that are merged.
use mathlib.Core.Bool.{decide}
use nexus_u.Obligations.Text.{join, cons_nonempty}
use nexus_u.Prelude.{
  ℕ, zero, suc, String, true, false, Option, none, some, List, [], ◌∷◌, ok, ◌≡◌, refl, str_eq,
}
use nexus_u.Federation.{
  reviewer, security, supports, FederationActor, EvidenceSubmission, FederationLedger, empty_ledger,
  actor_of, ActorRole-discrete, sign_submission, verify_submission,
}
use nexus_u.Federation.Quorum.{QuorumPolicy, approved, first_of, reason_if, evaluate}
use nexus_u.Federation.Quorum.Approval.{Approved, evaluate-Approved}
use nexus_u.Federation.Verified.{
  Command, register, mark, offer, perform_all, IsVerified, perform_all-IsVerified,
}
use nexus_u.Federation.Signed.{content_errors, verify_submission-sign_submission}
use nexus_u.Federation.Merge.{
  CrossRepositoryObligation, MergedNode, GraphOf, Merged, Outside, ids_of, merge_graphs,
}
use nexus_u.Federation.Merge.Joined.{Joined, digests, merge_graphs-Joined}

abbrev keyed : EvidenceSubmission → String → String
keyed e secret = join "sig" secret

abbrev actor : String → String → FederationActor
actor id organization = record {
  actor_id = id;
  organization_id = organization;
  roles = reviewer ∷ [];
  key_id = id;
  trust_weight = 1;
  authority_scopes = "*" ∷ [];
  active = true;
}

abbrev evidence : String → String → ℕ → EvidenceSubmission
evidence id organization time = record {
  submission_id = id;
  obligation_id = "o";
  actor = id;
  organization = organization;
  verdict = supports;
  summary = "seen";
  evidence_digest = "aaaaaaaaaaaaaaaaaaaaaaaaaaaaaaaaaaaaaaaaaaaaaaaaaaaaaaaaaaaaaaaa";
  provenance_group = organization;
  scope = "global";
  created_at = time;
  signature = "";
  signing_key = "";
}

abbrev commands : List Command
commands =
    register (actor "a" "one") "k"
    ∷ register (actor "b" "two") "l"
    ∷ mark "d" true
    ∷ offer (evidence "a" "one" 2)
    ∷ offer (evidence "b" "two" 1)
    ∷ []

abbrev ledger : FederationLedger
ledger = perform_all keyed commands empty_ledger

abbrev policy : QuorumPolicy
policy = record {
  policy_id = "p";
  minimum_organizations = 2;
  minimum_weight = 2;
  minimum_independent_evidence = 2;
  required_roles = reviewer ∷ [];
  veto_roles = security ∷ [];
  allow_inconclusive = true;
  require_no_conflicts = true;
  required_dependencies = "d" ∷ [];
}

is_approved : (evaluate keyed ledger "o" policy).status ≡ approved
unfolding evaluate perform_all first_of reason_if decide ActorRole-discrete
is_approved = refl

evaluate-Approved_example : Approved keyed ledger "o" policy
evaluate-Approved_example = evaluate-Approved keyed ledger "o" policy is_approved

perform_all-IsVerified_example : IsVerified keyed (perform_all keyed commands empty_ledger)
perform_all-IsVerified_example = perform_all-IsVerified keyed commands empty_ledger tt

keyed_nonempty : (e : EvidenceSubmission) (secret : String) → str_eq (keyed e secret) "" ≡ false
keyed_nonempty e secret = cons_nonempty _ _

abbrev signed : EvidenceSubmission
signed = record (evidence "a" "one" 2) { signature = "sigk"; signing_key = "a" }

is_signed : sign_submission keyed ledger (evidence "a" "one" 2) ≡ ok signed
unfolding sign_submission perform_all
is_signed = refl

has_actor : actor_of "a" ledger.actors ≡ some (actor "a" "one")
unfolding actor_of perform_all
has_actor = refl

verify_submission-sign_submission_example :
    verify_submission keyed ledger signed ≡ content_errors (actor "a" "one") (evidence "a" "one" 2)
verify_submission-sign_submission_example =
    verify_submission-sign_submission keyed keyed_nonempty ledger (actor "a" "one")
      (evidence "a" "one" 2) signed has_actor is_signed

abbrev one_node : String → GraphOf String
one_node x = record {
  nodes = record { node_id = x; metadata = some []; entries = [] } ∷ [];
  edges =
      record { edge_id = "e"; source = x; target = x; entries = ("relation", "SUPPORTS") ∷ [] }
      ∷ [];
  entries = [];
}

-- A digest that depends on the metadata of the nodes.
abbrev digest_nodes : List (MergedNode String) → String
digest_nodes [] = "d"
digest_nodes (n ∷ ns) = join (name n.metadata) (digest_nodes ns)
  where
    name : Option (List (String × String)) → String
    name none = ""
    name (some []) = ""
    name (some ((k, v) ∷ rest)) = v

abbrev show : ℕ → String
show zero = ""
show (suc n) = join "i" (show n)

abbrev outside : Outside String
outside = record {
  text = λ t. t;
  cross_repository = "cross";
  graph_digest = λ g. digest_nodes g.nodes;
  show = show;
}

abbrev graphs : List (String × GraphOf String)
graphs = ("s", one_node "y") ∷ ("r", one_node "x") ∷ []

abbrev link_to : String → String → CrossRepositoryObligation
link_to x required = record {
  source_repository = "r";
  source_obligation_id = "x";
  target_repository = "s";
  target_obligation_id = x;
  relation = "DEPENDS_ON";
  required_digest = required;
}

-- The first requires the digest of the target as it was given, and the second as merging leaves it.
abbrev links : List CrossRepositoryObligation
links = link_to "y" "d" ∷ link_to "y" "sd" ∷ link_to "z" "" ∷ []

abbrev merged : Merged String
merged = record {
  repositories = ("r", "rd") ∷ ("s", "sd") ∷ [];
  nodes =
      record { node_id = "r:x"; metadata = some (("repository", "r") ∷ []); entries = [] }
      ∷ record { node_id = "s:y"; metadata = some (("repository", "s") ∷ []); entries = [] }
      ∷ [];
  edges =
      record {
        edge_id = "r:e";
        source = "r:x";
        target = "r:x";
        entries = ("relation", "SUPPORTS") ∷ [];
      }
      ∷ record {
        edge_id = "s:e";
        source = "s:y";
        target = "s:y";
        entries = ("relation", "SUPPORTS") ∷ [];
      }
      ∷ record {
        edge_id = "cross:i:r:x->s:y";
        source = "r:x";
        target = "s:y";
        entries = ("relation", "DEPENDS_ON") ∷ ("metadata", "cross") ∷ [];
      }
      ∷ [];
  unresolved_links = link_to "y" "d" ∷ link_to "z" "" ∷ [];
  federation_valid = false;
}

is_merged : (merge_graphs outside graphs links).1 ≡ ok merged
unfolding merge_graphs
is_merged = refl

merge_graphs-Joined_example :
    Joined (ids_of merged.nodes) merged.edges
    × (merged.repositories ≡ digests outside (merge_graphs outside graphs links).0)
merge_graphs-Joined_example = merge_graphs-Joined outside graphs links is_merged
