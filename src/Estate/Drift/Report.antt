-- ===== src/Estate/Drift/Report.antt =====
-- What an empty drift report says.
use mantlekeep.Prelude.Decimal.{show_nat}
use mantlekeep.Estate.Drift.{
  shown_version, lookup_or, ◌||◌, owns, watches, Drift, ObservedItem, List, ℕ, String, Option,
  false, ◌∷◌, Bool, Map, not, some, true,
}
use mantlekeep.Estate.Footprint.{
  DesiredItem, Limits, app_limits, kafka_limits, postgres_limits, harbor_limits,
}
use mantlekeep.Estate.Ownership.{Ownership}
use mantlekeep.Prelude.{◌&&◌, [], none, ◌==◌}

-- A field whose approved value is stated, and that is governed or watched, has that value.
abbrev pub agrees : Ownership → String → String → String → Bool
agrees o field approved observed =
    approved == "" || approved == observed || (not (owns o field) && not (watches o field))

abbrev pub every {ℓ} : {A : Type ℓ} → (A → Bool) → List A → Bool
every p [] = true
every p (x ∷ xs) = p x && every p xs

abbrev pub keys {ℓ} : {A : Type ℓ} → Map A → List String
keys [] = []
keys ((k, v) ∷ m) = k ∷ keys m

-- A key of the state, which of a version is its minor line.
abbrev pub state_agrees : Ownership → Map String → Map String → String → Bool
state_agrees o want got field =
    agrees o field (shown_version field (lookup_or "" field want))
      (shown_version field (lookup_or "" field got))

module _ (duration_text : ℕ → String) where
  -- The limits agree, field by field. Limits of two types are not compared.
  abbrev pub limits_agree : Ownership → Limits → Limits → Bool
  limits_agree o (app_limits want) (app_limits got) =
      agrees o "replicas" (show_nat want.replicas) (show_nat got.replicas)
      && (agrees o "cpuLimit" want.cpu_limit got.cpu_limit
          && agrees o "memoryMiB" (show_nat want.memory_mib) (show_nat got.memory_mib))
  limits_agree o (kafka_limits want) (kafka_limits got) =
      agrees o "retention" (duration_text want.retention) (duration_text got.retention)
      && (agrees o "producerBytesPerSec" (show_nat want.producer_bytes_per_sec)
            (show_nat got.producer_bytes_per_sec)
          && agrees o "consumerBytesPerSec" (show_nat want.consumer_bytes_per_sec)
              (show_nat got.consumer_bytes_per_sec))
  limits_agree o (postgres_limits want) (postgres_limits got) =
      agrees o "connectionLimit" (show_nat want.connection_limit) (show_nat got.connection_limit)
      && agrees o "statementTimeout" (duration_text want.statement_timeout)
          (duration_text got.statement_timeout)
  limits_agree o (harbor_limits want) (harbor_limits got) =
      agrees o "robotExpiry" (duration_text want.robot_expiry) (duration_text got.robot_expiry)
  limits_agree o _ _ = true

  -- The resource is observed, and agrees in its digest, its image, its runtime, each field of its
  -- approved state and its limits.
  abbrev pub matches : Ownership → DesiredItem → Option ObservedItem → Bool
  matches o want none = false
  matches o want (some got) =
      agrees o "digest" want.digest got.digest
      && (agrees o "image" want.image got.image
          && (agrees o "runtime" want.runtime got.runtime
              && (every (state_agrees o want.state got.state) (keys want.state)
                  && limits_agree o want.limits got.limits)))
