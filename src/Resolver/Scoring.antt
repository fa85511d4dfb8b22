-- ===== src/Resolver/Scoring.antt =====
-- src/vibe/resolver/scoring.py: the score of a candidate for a requirement.
use local_skill_orchestrator.Prelude.{
  ℕ, ◌+◌, ◌-◌, String, List, [], ◌∷◌, member, if◌then◌else◌, string_Eq, ℤ, pos, negsuc, ◌+ℤ◌,
}
use local_skill_orchestrator.Capability.{
  Permission, read_project, write_project, execute_command, network, read_user_config,
  CapabilityKind, skill, cli_tool, mcp, plugin, hook,
}
use local_skill_orchestrator.Resolver.Policy.{AdapterScanResult}

-- _PERMISSION_COST
unfoldable pub permission_cost : Permission → ℕ
permission_cost read_project = 1
permission_cost execute_command = 3
permission_cost write_project = 6
permission_cost read_user_config = 8
permission_cost network = 12

-- _KIND_BONUS
unfoldable pub kind_bonus : CapabilityKind → ℤ
kind_bonus cli_tool = pos 2
kind_bonus skill = pos 1
kind_bonus mcp = pos 0
kind_bonus plugin = pos 0
kind_bonus hook = negsuc 0

pub record CandidateScore : Type 0 where
  pub fit : ℕ
  pub trust : ℕ
  pub risk : ℕ
  pub verification : ℕ
  pub kind_bonus : ℤ

-- `CandidateScore.total`
unfoldable pub total : CandidateScore → ℤ
unfolding ◌+ℤ◌
total s = pos (s.fit + s.trust + s.risk + s.verification) +ℤ s.kind_bonus

unfoldable pub total_cost : List Permission → ℕ
unfolding permission_cost
total_cost [] = 0
total_cost (p ∷ ps) = permission_cost p + total_cost ps

-- Subtraction of natural numbers stops at 0, as `max(0, 30 - permission_cost)` does.
unfoldable pub score_candidate : AdapterScanResult → String → CandidateScore
unfolding total_cost kind_bonus
score_candidate candidate requirement = record {
  fit = if member requirement candidate.manifest.provides then 40 else 0;
  trust = if candidate.manifest.verified then 20 else 0;
  risk = 30 - total_cost candidate.manifest.permissions;
  verification = if candidate.verification.verified then 10 else 0;
  kind_bonus = kind_bonus candidate.manifest.kind;
}
