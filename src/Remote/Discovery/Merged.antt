-- ===== src/Remote/Discovery/Merged.antt =====
-- Merging two candidates of one identity.
use local_skill_orchestrator.Prelude.{◌≤◌, String, ◌≡◌, some, true, arith}
use local_skill_orchestrator.Remote.Models.{RemoteCandidate}
use local_skill_orchestrator.Remote.Discovery.{merge, identity, trust}

module _ (casefold : String → String) where
  -- Two candidates of one identity merge to one of that identity.
  pub merge-identity :
      (left right : RemoteCandidate) (i : String)
      → identity casefold left ≡ some i
      → identity casefold right ≡ some i
      → identity casefold (merge left right) ≡ some i
  unfolding merge identity
  merge-identity left right i h k = ground (arith, h, k)

-- A merged candidate has at least the numbers of both.
abbrev pub IsAtLeast : RemoteCandidate → RemoteCandidate → Type 0
IsAtLeast a b =
    (b.stars ≤ a.stars)
    × (b.forks ≤ a.forks)
    × (b.adoption ≤ a.adoption)
    × (b.weekly_adoption ≤ a.weekly_adoption)
    × (trust b.source_tier ≤ trust a.source_tier)
    × (b.official_source ≡ true → a.official_source ≡ true)

pub merge-IsAtLeast :
    (left right : RemoteCandidate)
    → IsAtLeast (merge left right) left × IsAtLeast (merge left right) right
unfolding merge
merge-IsAtLeast left right = ground (arith)
