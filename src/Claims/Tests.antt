-- ===== src/Claims/Tests.antt =====
-- The theorems on claims at a claim that requests more than its evidence warrants.
use mathlib.Core.Bool.{decide}
use Prim.Native.Nat.{min}
use nexus_u.Prelude.{◌<◌, [], ◌∷◌, ◌≡◌, refl, inl, arith}
use nexus_u.Claims.{
  unknown, kernel_verified, computational_evidence, Claim, rank, assign_status,
  strongest_evidence_status, requested_above, assign, assign_with_cap, same_status,
  EpistemicStatus-discrete, strongest, highest, better, evidence_cap,
}
use nexus_u.Claims.Capped.{
  Has, Warrants, rank-assign_status, assign_status_warranted, assign_status_counterexample,
}

abbrev boastful : Claim
boastful = record {
  requested_status = kernel_verified;
  assigned_status = unknown;
  evidence =
      record { kind = "empirical"; summary = "a trial" }
      ∷ record { kind = "computation"; summary = "a table" }
      ∷ [];
  missing_obligations = [];
}

boastful_assigned : assign_status boastful ≡ record boastful {
  assigned_status = computational_evidence;
  missing_obligations = requested_above kernel_verified computational_evidence ∷ [];
}
unfolding assign_status assign assign_with_cap same_status EpistemicStatus-discrete rank
    strongest_evidence_status strongest highest better evidence_cap decide
boastful_assigned = refl

rank-assign_status_example :
    rank (assign_status boastful).assigned_status
    ≡ min (rank boastful.requested_status) (rank (strongest_evidence_status boastful))
rank-assign_status_example = rank-assign_status boastful

boastful_ranks : 0 < rank (assign_status boastful).assigned_status
unfolding assign_status assign assign_with_cap same_status EpistemicStatus-discrete rank
    strongest_evidence_status strongest highest better evidence_cap decide
boastful_ranks = omega arith

assign_status_warranted_example :
    Has (Warrants (rank (assign_status boastful).assigned_status)) boastful.evidence
assign_status_warranted_example = assign_status_warranted boastful boastful_ranks

abbrev contradicted : Claim
contradicted = record boastful {
  evidence = record { kind = "counterexample"; summary = "it fails at 7" } ∷ [];
}

assign_status_counterexample_example :
    (assign_status contradicted).assigned_status ≡ kernel_verified
assign_status_counterexample_example = assign_status_counterexample contradicted (inl refl)
