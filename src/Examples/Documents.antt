-- ===== src/Examples/Documents.antt =====
-- The documents of the small deployment: baseline, platform and product.
use mantlekeep.Prelude.{[], ◌∷◌}
use mantlekeep.Examples.Data.{operator}
use mantlekeep.Grants.{GrantsDoc}

abbrev composed : GrantsDoc
composed = record {
  role_actions =
      (operator, "deploy.run" ∷ "secret.rotate" ∷ [])
      ∷ ("L1-Architect", "deploy.approve" ∷ [])
      ∷ ("L3-Consumer", "report.view" ∷ [])
      ∷ [];
  approval_actions = "deploy.approve" ∷ [];
}
