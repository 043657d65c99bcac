-- ===== src/Estate/Floor.antt =====
-- mantlekeep-estate/floor.go, with the tiers of manifest.go: the limits of each tier, the gates, and
-- how many people must sign. Tiers, gates and runtimes are texts, as in the source; a number of
-- Go's type int is natural, and a duration is in nanoseconds.
use mantlekeep.Prelude.{
  ℕ, String, Bool, Option, none, some, List, [], ◌∷◌, Map, lookup, lookup_or, ltb, leb,
  if◌then◌else◌, ◌==◌, ◌||◌,
}

abbrev pub Tier : Type 0
Tier = String

abbrev pub tier_dev : Tier
tier_dev = "dev"

abbrev pub tier_shared : Tier
tier_shared = "shared"

abbrev pub tier_prod : Tier
tier_prod = "prod"

abbrev pub is_valid_tier : Tier → Bool
is_valid_tier t = t == tier_dev || t == tier_shared || t == tier_prod

abbrev pub Gate : Type 0
Gate = String

abbrev pub gate_none : Gate
gate_none = "none"

abbrev pub gate_owning_team : Gate
gate_owning_team = "owning-team"

abbrev pub gate_platform : Gate
gate_platform = "platform"

pub record KafkaLimits : Type 0 where
  pub producer_bytes_per_sec : ℕ
  pub consumer_bytes_per_sec : ℕ
  pub retention : ℕ

pub record PostgresLimits : Type 0 where
  pub connection_limit : ℕ
  pub statement_timeout : ℕ
  pub idle_in_transaction_timeout : ℕ

pub record HarborLimits : Type 0 where
  pub robot_expiry : ℕ

pub record AppLimits : Type 0 where
  pub replicas : ℕ
  pub cpu_limit : String
  pub memory_mib : ℕ

pub record NodePoolLimits : Type 0 where
  pub min_nodes : ℕ
  pub max_nodes : ℕ
  pub allowed_instance_types : List String

pub record FleetFloor : Type 0 where
  pub node_pool : Map NodePoolLimits
  pub kubernetes_versions : List String

pub record AppRule : Type 0 where
  pub gate : Gate
  pub prefer : List String

pub record Floor : Type 0 where
  pub kafka : Map KafkaLimits
  pub postgres : Map PostgresLimits
  pub harbor : Map HarborLimits
  pub app : Map (Map AppLimits)
  pub fleet : FleetFloor
  pub env_tiers : Map Tier
  pub gates : Map Gate
  pub signatures : Map ℕ
  pub apps : Map AppRule
  pub revision : String

abbrev pub default_gates : Map Gate
default_gates =
    (tier_dev, gate_none) ∷ (tier_shared, gate_owning_team) ∷ (tier_prod, gate_platform) ∷ []

abbrev pub default_signatures : Map ℕ
default_signatures = (gate_none, 0) ∷ (gate_owning_team, 1) ∷ (gate_platform, 1) ∷ []

abbrev pub raised_to : ℕ → Option ℕ → ℕ
raised_to required none = required
raised_to required (some configured) = if ltb required configured then configured else required

-- SignaturesFor
unfoldable pub signatures_for : Floor → Gate → ℕ
signatures_for f gate = raised_to (lookup_or 1 gate default_signatures) (lookup gate f.signatures)

abbrev pub default_env_tiers : Map Tier
default_env_tiers = ("dev", tier_dev) ∷ ("sit", tier_shared) ∷ ("prod", tier_prod) ∷ []

abbrev pub tier_strength : Tier → ℕ
tier_strength t =
    if t == tier_dev then 1 else if t == tier_shared then 2 else if t == tier_prod then 3 else 0

abbrev or_default_tier : Option Tier → Option Tier → Option Tier
or_default_tier none d = d
or_default_tier (some t) d = some t

-- MinTierFor
unfoldable pub min_tier_for : Floor → String → Option Tier
min_tier_for f env = or_default_tier (lookup env f.env_tiers) (lookup env default_env_tiers)

unfoldable pub at_least : Tier → Tier → Tier
at_least declared minimum =
    if ltb (tier_strength declared) (tier_strength minimum) then minimum else declared

abbrev pub gate_strength : Gate → ℕ
gate_strength g =
    if g == gate_none
    then 1
    else if g == gate_owning_team
    then 2
    else if g == gate_platform
    then 3
    else 0

abbrev configured_gate : Tier → Option Gate → Gate
configured_gate tier (some gate) = gate
configured_gate tier none = lookup_or "" tier default_gates

-- GateFor: the zero value "" for a tier that neither map names.
unfoldable pub gate_for : Floor → Tier → Gate
gate_for f tier = configured_gate tier (lookup tier f.gates)

abbrev prefer_of : Option AppRule → List String
prefer_of none = []
prefer_of (some rule) = rule.prefer

abbrev pub preferred_clusters_for : Floor → String → List String
preferred_clusters_for f name = prefer_of (lookup name f.apps)

abbrev stricter_of : Gate → Option AppRule → Gate
stricter_of from_tier none = from_tier
stricter_of from_tier (some rule) =
    if rule.gate == ""
    then from_tier
    else if leb (gate_strength rule.gate) (gate_strength from_tier)
    then from_tier
    else rule.gate

-- GateForApp
unfoldable pub gate_for_app : Floor → Tier → String → Gate
unfolding gate_for
gate_for_app f tier name = stricter_of (gate_for f tier) (lookup name f.apps)
