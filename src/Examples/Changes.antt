-- ===== src/Examples/Changes.antt =====
-- A change of policy over the door of the small deployment.
use mantlekeep.Prelude.{true, ok, some, [], ◌∷◌, List}
use mantlekeep.Change.{Change, Writer, Governed, govern, govern-Governed}
use mantlekeep.Examples.Evidence.{ports, empty_log, ann}
use mantlekeep.Door.{submit}

abbrev rotation : Change
rotation = record {
  role = "L2-Operator";
  action = "secret.rotate";
  grant = true;
  reason = "on call";
}

-- The policy is the list of the changes made; the revision does not change.
abbrev append_change : Writer (List Change)
append_change changes c = (ok "r1", c ∷ changes)

govern-Governed_example :
    Governed
      (λ s. s)
      ports
      append_change
      7
      ann
      rotation
      empty_log
      []
      (govern
        (λ s. s)
        (some (submit ports))
        (some append_change)
        7
        ann
        (ok "r0")
        rotation
        empty_log
        [])
govern-Governed_example =
    govern-Governed (λ s. s) ports append_change 7 ann (ok "r0") rotation empty_log []
