-- ===== src/Estate/Footprint.antt =====
-- mantlekeep-estate/resolve.go and slot.go: a change of a team's footprint, and where it runs.
use mantlekeep.Prelude.{String, Bool, Option, none, List, Map, if◌then◌else◌, ◌==◌, ◌&&◌, not, []}
use mantlekeep.Prelude.Text.{concat}
use mantlekeep.Estate.Floor.{
  KafkaLimits, Tier, PostgresLimits, Gate, HarborLimits, AppLimits, NodePoolLimits,
}

pub record Slot : Type 0 where
  pub cluster : String
  pub namespace : String
  pub name : String

abbrev pub slot_key : Slot → String
slot_key s = concat s.cluster (concat "/" (concat s.namespace (concat "/" s.name)))

abbrev pub is_empty_slot : Slot → Bool
is_empty_slot s = s.cluster == "" && s.namespace == "" && s.name == ""

-- The dynamic types that the field Limits takes.
pub data Limits : Type 0 where
  no_limits : Limits
  kafka_limits : KafkaLimits → Limits
  postgres_limits : PostgresLimits → Limits
  harbor_limits : HarborLimits → Limits
  app_limits : AppLimits → Limits
  node_pool_limits : NodePoolLimits → Limits
  control_plane_limits : List String → Limits

pub record PlacementDecision : Type 0 where
  pub cluster : String
  pub env : String
  pub reason : String
  pub considered : List String
  pub sticky : Bool

pub record DesiredItem : Type 0 where
  pub asset : String
  pub kind : String
  pub name : String
  pub team : String
  pub tier : Tier
  pub gate : Gate
  pub cluster : String
  pub slot : Slot
  pub limits : Limits
  pub readers : List String
  pub image : String
  pub runtime : String
  pub digest : String
  pub placement : Option PlacementDecision
  pub state : Map String
  pub labels : Map String

pub record Desired : Type 0 where
  pub team : String
  pub owns : String
  pub changes : List DesiredItem

abbrev pub no_slot : Slot
no_slot = record { cluster = ""; namespace = ""; name = "" }

-- The zero value, from which each literal of the source is written.
abbrev pub no_item : DesiredItem
no_item = record {
  asset = "";
  kind = "";
  name = "";
  team = "";
  tier = "";
  gate = "";
  cluster = "";
  slot = no_slot;
  limits = no_limits;
  readers = [];
  image = "";
  runtime = "";
  digest = "";
  placement = none;
  state = [];
  labels = [];
}

abbrev pub key_of : String → String → String → Slot → String
key_of asset kind name slot = concat asset (
    concat "/"
      (concat kind (concat "/" (if not (is_empty_slot slot) then slot_key slot else name))))

-- The key of a DesiredItem.
unfoldable pub desired_key : DesiredItem → String
desired_key d = key_of d.asset d.kind d.name d.slot
