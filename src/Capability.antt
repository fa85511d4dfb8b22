-- ===== src/Capability.antt =====
-- src/vibe/models/capability.py: what a capability is, and the permissions it asks for.
use local_skill_orchestrator.Prelude.{
  ℕ, String, ◌≡◌, refl, ◌↔◌, Bool, true, Option, List, nat_eq, leb, arith, Eq, Ord, str_leb, on,
  on-IsTotal, str_leb-IsTotal,
}

pub data CapabilityKind : Type 0 where
  skill cli_tool mcp plugin hook : CapabilityKind

pub data CapabilityScope : Type 0 where
  project user system : CapabilityScope

pub data Permission : Type 0 where
  read_project write_project execute_command network read_user_config : Permission

abbrev pub permission_value : Permission → String
permission_value read_project = "read-project"
permission_value write_project = "write-project"
permission_value execute_command = "execute-command"
permission_value network = "network"
permission_value read_user_config = "read-user-config"

-- The place of a permission in the order of the values.
abbrev pub permission_rank : Permission → ℕ
permission_rank execute_command = 0
permission_rank network = 1
permission_rank read_project = 2
permission_rank read_user_config = 3
permission_rank write_project = 4

pub permission_eq_iff :
    (a b : Permission) → (nat_eq (permission_rank a) (permission_rank b) ≡ true) ↔ (a ≡ b)
permission_eq_iff a b = ground arith

instance abbrev pub permission_Eq : Eq Permission
permission_Eq = record {
  equal = λ a b. nat_eq (permission_rank a) (permission_rank b);
  equal_iff = permission_eq_iff;
}

pub permission_order :
    (a b : Permission)
    → str_leb (permission_value a) (permission_value b)
      ≡ leb (permission_rank a) (permission_rank b)
permission_order read_project read_project = refl
permission_order read_project write_project = refl
permission_order read_project execute_command = refl
permission_order read_project network = refl
permission_order read_project read_user_config = refl
permission_order write_project read_project = refl
permission_order write_project write_project = refl
permission_order write_project execute_command = refl
permission_order write_project network = refl
permission_order write_project read_user_config = refl
permission_order execute_command read_project = refl
permission_order execute_command write_project = refl
permission_order execute_command execute_command = refl
permission_order execute_command network = refl
permission_order execute_command read_user_config = refl
permission_order network read_project = refl
permission_order network write_project = refl
permission_order network execute_command = refl
permission_order network network = refl
permission_order network read_user_config = refl
permission_order read_user_config read_project = refl
permission_order read_user_config write_project = refl
permission_order read_user_config execute_command = refl
permission_order read_user_config network = refl
permission_order read_user_config read_user_config = refl

pub permission_antisym :
    (a b : Permission)
    → str_leb (permission_value a) (permission_value b) ≡ true
    → str_leb (permission_value b) (permission_value a) ≡ true
    → a ≡ b
permission_antisym a b h k = ground (arith, permission_order a b, permission_order b a)

-- Permissions are sorted by their values.
instance abbrev pub permission_Ord : Ord Permission
permission_Ord = record {
  leq = on permission_value str_leb;
  order = on-IsTotal permission_value str_leb str_leb-IsTotal;
  antisym = permission_antisym;
}

-- A manifest, with the fields that routing and resolution read.
pub record CapabilityManifest : Type 0 where
  pub capability_id : String
  pub name : String
  pub kind : CapabilityKind
  pub scope : CapabilityScope
  pub source : String
  pub provides : List String
  pub permissions : List Permission
  pub version : Option String
  pub content_digest : String
  pub verified : Bool
