-- ===== src/Estate/Drift.antt =====
-- mantlekeep-estate/reconcile.go, with fleetDifferences of fleet.go: what was approved against what is
-- observed. The words of a drift are left out. The text of a duration is a parameter, and so is what
-- the adapters do.
pub mod Report
pub mod Founded
pub mod Pass
use Prim.Native.Char.{Char, code}
use Prim.Native.String.{compare}
use text.Mathlib.Text.{is_le}
use mantlekeep.Estate.Footprint.{
  app_limits, kafka_limits, postgres_limits, harbor_limits, Slot, key_of, DesiredItem, Limits,
  desired_key,
}
use mantlekeep.Prelude.{
  ℕ, String, Bool, true, false, Option, none, some, List, [], ◌∷◌, ◌++◌, Map, lookup, lookup_or,
  insert, contains, if◌then◌else◌, ◌==◌, not, ◌&&◌, ◌||◌, any, nat_eq,
}
use mantlekeep.Estate.Ownership.{Ownership, owns, watches}
use mantlekeep.Prelude.Text.{concat}
use mantlekeep.Contracts.{ExecutionToken}
use mantlekeep.Estate.Floor.{gate_none}
use mantlekeep.Prelude.Decimal.{show_nat}

pub record Writer : Type 0 where
  pub manager : String
  pub operation : String
  pub at : ℕ
  pub fields : List String

pub record ObservedItem : Type 0 where
  pub asset : String
  pub kind : String
  pub name : String
  pub cluster : String
  pub slot : Slot
  pub limits : Limits
  pub readers : List String
  pub image : String
  pub writers : List Writer
  pub digest : String
  pub runtime : String
  pub state : Map String

abbrev pub observed_key : ObservedItem → String
observed_key o = key_of o.asset o.kind o.name o.slot

-- index: of two items with one key the later stands.
unfoldable pub index_from : Map ObservedItem → List ObservedItem → Map ObservedItem
index_from m [] = m
index_from m (o ∷ items) = index_from (insert (observed_key o) o m) items

pub data DriftKind : Type 0 where
  absent changed unexpected : DriftKind

pub record Difference : Type 0 where
  pub field : String
  pub approved_value : String
  pub observed_value : String
  pub governed : Bool

pub record Drift : Type 0 where
  pub kind : DriftKind
  pub desired : Option DesiredItem
  pub observed : Option ObservedItem
  pub differences : List Difference

abbrev pub is_changed : DriftKind → Bool
is_changed changed = true
is_changed _ = false

abbrev pub is_unexpected : DriftKind → Bool
is_unexpected unexpected = true
is_unexpected _ = false

-- Ungoverned
unfoldable pub is_ungoverned : Drift → Bool
is_ungoverned d = not (is_changed d.kind) || any (λ x. x.governed) d.differences

abbrev pub gate_open : Option DesiredItem → Bool
gate_open none = false
gate_open (some want) = want.gate == gate_none

-- Correctable
unfoldable pub is_correctable : Drift → Bool
unfolding is_ungoverned
is_correctable d = not (is_unexpected d.kind) && is_ungoverned d && gate_open d.desired

-- compare: what one field adds to the differences.
unfoldable pub compared : Ownership → String → String → String → List Difference
compared o field approved observed =
    if approved == "" || approved == observed
    then []
    else if not (owns o field) && not (watches o field)
    then []
    else record {
      field = field;
      approved_value = approved;
      observed_value = if observed == "" then "(absent)" else observed;
      governed = owns o field;
    }
      ∷ []

abbrev pub with_first : Char → Option (String × String) → Option (String × String)
with_first c none = none
with_first c (some (a, b)) = some (String.◌∷◌ c a, b)

-- The text before the first point, and the text after it if there is one.
abbrev pub point : String → Option (String × String)
point String.[] = none
point (String.◌∷◌ c s) =
    let rest = point s in if nat_eq (code c) b'.' then some ("", s) else with_first c rest

abbrev pub before_point : String → Option (String × String) → String
before_point s none = s
before_point s (some (a, b)) = a

abbrev pub two_parts : String → Option (String × String) → String
two_parts version none = version
two_parts version (some (major, rest)) = concat major (concat "." (before_point rest (point rest)))

-- minorLine
unfoldable pub minor_line : String → String
minor_line version = two_parts version (point version)

abbrev pub leb_text : String → String → Bool
leb_text a b = is_le (compare a b)

-- sort.Strings on the keys of a map.
abbrev pub place_text : String → List String → List String
place_text a [] = a ∷ []
place_text a (b ∷ bs) = let rest = place_text a bs in if leb_text a b then a ∷ b ∷ bs else b ∷ rest

abbrev pub sorted_keys {ℓ} : {A : Type ℓ} → Map A → List String
sorted_keys [] = []
sorted_keys ((k, v) ∷ m) = place_text k (sorted_keys m)

abbrev pub shown_version : String → String → String
shown_version field value = if field == "kubernetesVersion" then minor_line value else value

unfoldable pub state_differences :
    Ownership → Map String → Map String → List String → List Difference
state_differences o want got [] = []
state_differences o want got (field ∷ fields) =
    compared o field (shown_version field (lookup_or "" field want))
      (shown_version field (lookup_or "" field got))
    ++ state_differences o want got fields

module _ (duration_text : ℕ → String) where
  -- compareLimits: nothing, if the two are not of one type.
  unfoldable pub limit_differences : Ownership → Limits → Limits → List Difference
  limit_differences o (app_limits want) (app_limits got) =
      compared o "replicas" (show_nat want.replicas) (show_nat got.replicas)
      ++ (compared o "cpuLimit" want.cpu_limit got.cpu_limit
          ++ compared o "memoryMiB" (show_nat want.memory_mib) (show_nat got.memory_mib))
  limit_differences o (kafka_limits want) (kafka_limits got) =
      compared o "retention" (duration_text want.retention) (duration_text got.retention)
      ++ (compared o "producerBytesPerSec" (show_nat want.producer_bytes_per_sec)
            (show_nat got.producer_bytes_per_sec)
          ++ compared o "consumerBytesPerSec" (show_nat want.consumer_bytes_per_sec)
              (show_nat got.consumer_bytes_per_sec))
  limit_differences o (postgres_limits want) (postgres_limits got) =
      compared o "connectionLimit" (show_nat want.connection_limit) (show_nat got.connection_limit)
      ++ compared o "statementTimeout" (duration_text want.statement_timeout)
          (duration_text got.statement_timeout)
  limit_differences o (harbor_limits want) (harbor_limits got) =
      compared o "robotExpiry" (duration_text want.robot_expiry) (duration_text got.robot_expiry)
  limit_differences o _ _ = []

  -- differs
  unfoldable pub differs : Ownership → DesiredItem → ObservedItem → List Difference
  differs o want got =
      compared o "digest" want.digest got.digest
      ++ (compared o "image" want.image got.image
          ++ (compared o "runtime" want.runtime got.runtime
              ++ (state_differences o want.state got.state (sorted_keys want.state)
                  ++ limit_differences o want.limits got.limits)))

  abbrev pub changed_by : DesiredItem → ObservedItem → List Difference → List Drift
  changed_by want got [] = []
  changed_by want got (x ∷ xs) =
      record { kind = changed; desired = some want; observed = some got; differences = x ∷ xs } ∷ []

  abbrev pub drift_of : Ownership → DesiredItem → Option ObservedItem → List Drift
  drift_of o want none =
      record { kind = absent; desired = some want; observed = none; differences = [] } ∷ []
  drift_of o want (some got) = changed_by want got (differs o want got)

  -- The loop over what is desired.
  unfoldable pub desired_drifts : Ownership → Map ObservedItem → List DesiredItem → List Drift
  desired_drifts o actual [] = []
  desired_drifts o actual (want ∷ wants) =
      drift_of o want (lookup (desired_key want) actual) ++ desired_drifts o actual wants

  abbrev pub desired_keys : List DesiredItem → List String
  desired_keys [] = []
  desired_keys (want ∷ wants) = desired_key want ∷ desired_keys wants

  -- The loop over what is observed.
  unfoldable pub unexpected_drifts : List String → List ObservedItem → List Drift
  unexpected_drifts seen [] = []
  unexpected_drifts seen (got ∷ items) =
      let rest = unexpected_drifts seen items in
      if contains seen (observed_key got)
      then rest
      else record { kind = unexpected; desired = none; observed = some got; differences = [] }
        ∷ rest

  abbrev pub key_of_observed : Option ObservedItem → String
  key_of_observed none = ""
  key_of_observed (some got) = observed_key got

  abbrev pub key_of_drift : Option DesiredItem → Option ObservedItem → String
  key_of_drift (some want) got = desired_key want
  key_of_drift none got = key_of_observed got

  abbrev pub drift_key : Drift → String
  drift_key d = key_of_drift d.desired d.observed

  -- sort.SliceStable by the key.
  unfoldable pub place_drift : Drift → List Drift → List Drift
  place_drift d [] = d ∷ []
  place_drift d (e ∷ es) =
      let rest = place_drift d es in
      if leb_text (drift_key d) (drift_key e) then d ∷ e ∷ es else e ∷ rest

  unfoldable pub sorted_drifts : List Drift → List Drift
  sorted_drifts [] = []
  sorted_drifts (d ∷ ds) = place_drift d (sorted_drifts ds)

  -- DiffOwned
  unfoldable pub diff_owned : List DesiredItem → List ObservedItem → Ownership → List Drift
  diff_owned wants items o =
      sorted_drifts (
        desired_drifts o (index_from [] items) wants
        ++ unexpected_drifts (desired_keys wants) items)

pub record ReconcileOutcome : Type 0 where
  pub corrected : List Drift
  pub escalated : List Drift
  pub failed : List Drift

abbrev pub no_outcome : ReconcileOutcome
no_outcome = record { corrected = []; escalated = []; failed = [] }

module _ {W : Type 0} (port : ExecutionToken → DesiredItem → W → Option String × W)
    (token : ExecutionToken) where
  abbrev pub after_apply : Drift → ReconcileOutcome → Option String → ReconcileOutcome
  after_apply d out none = record out { corrected = out.corrected ++ d ∷ [] }
  after_apply d out (some e) = record out { failed = out.failed ++ d ∷ [] }

  abbrev pub corrected_with :
      Drift → Option DesiredItem → ReconcileOutcome → W → ReconcileOutcome × W
  corrected_with d none out w = (record out { escalated = out.escalated ++ d ∷ [] }, w)
  corrected_with d (some want) out w = let (e, w') = port token want w in (after_apply d out e, w')

  -- The body of Reconcile's loop.
  unfoldable pub after_drift : Drift → ReconcileOutcome → W → ReconcileOutcome × W
  after_drift d out w =
      if is_correctable d
      then corrected_with d d.desired out w
      else (record out { escalated = out.escalated ++ d ∷ [] }, w)

  -- The loop of Reconcile.
  unfoldable pub reconcile_from : ReconcileOutcome → W → List Drift → ReconcileOutcome × W
  reconcile_from out w [] = (out, w)
  reconcile_from out w (d ∷ ds) = let (out', w') = after_drift d out w in reconcile_from out' w' ds
