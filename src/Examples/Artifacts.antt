-- ===== src/Examples/Artifacts.antt =====
-- A sealed production registry, with one tool in it.
use mantlekeep.Registry.{
  Registration, Version, Entry, Registry, require_entry, published, new_registry, get, register,
  sealed_prod, safe_name, still_used, add_draft, has_version, save, draft,
}
use mantlekeep.Registry.Lifecycle.{
  promotion_proposed, pin_key, demise, dependents, transition, update_version, test_recorded,
  approved, set_default, mark_default,
}
use mantlekeep.Prelude.{
  contains, refl, true, false, ◌≡◌, some, [], ◌∷◌, err, List, insert, lookup, String, ok,
}
use mantlekeep.Registry.Reachable.{run_calls-new_registry}
use mantlekeep.Registry.Calls.{
  run_calls, Call, call, register_call, record_test_call, propose_promote_call, approve_call,
  set_default_call,
}
use mantlekeep.Registry.Pins.{pin-demise}
use mantlekeep.Prelude.Text.{trim_space}
use mantlekeep.Registry.Update.{is_well_formed}
use mantlekeep.Registry.Promote.{promote, copy_provenance, promote-governed}

abbrev lint : Registration
lint = record {
  name = "lint";
  kind = "tool";
  title = "Linter";
  owner = "core";
  version = "1";
  ref = "sha256:1";
  manifest = "";
}

-- The tool is tested, proposed by one person, approved by another, and made the default.
abbrev promotion : List Call
promotion =
    register_call lint
    ∷ record_test_call "lint" "1" true "run-1"
    ∷ propose_promote_call "lint" "1" "ann"
    ∷ approve_call "lint" "1" "ann"
    ∷ approve_call "lint" "1" "bob"
    ∷ set_default_call "lint" "1"
    ∷ []

abbrev lint_1 : Version
lint_1 = record {
  version = "1";
  env = "prod";
  status = published;
  ref = "sha256:1";
  manifest = "";
  provenance = [];
  is_default = true;
  proposed_by = "ann";
  approved_by = "bob";
  change_ref = "";
  test_passed = true;
  tested_at = 0;
  test_ref = "run-1";
  published_at = 0;
  updated_at = 0;
}

abbrev lint_entry : Entry
lint_entry = record {
  name = "lint";
  kind = "tool";
  title = "Linter";
  owner = "core";
  versions = lint_1 ∷ [];
}

run_calls-new_registry_example : is_well_formed sealed_prod (lint_1 ∷ []) ≡ true
unfolding run_calls call register add_draft get safe_name has_version save transition require_entry
    update_version test_recorded promotion_proposed approved set_default mark_default insert lookup
    trim_space
run_calls-new_registry_example =
    run_calls-new_registry "prod" sealed_prod promotion "lint" lint_entry refl

abbrev prod : Registry
prod = record (new_registry "prod" sealed_prod) { entries = ("lint", some lint_entry) ∷ [] }

abbrev pinned : Registry
pinned = record prod { pins = (pin_key "lint" "1" "nightly", "nightly") ∷ [] }

pin-demise_example :
    (users : List String) × (dependents pinned "lint" "1" ≡ ok users)
    × (contains users "nightly" ≡ true)
    × (demise pinned "lint" "1" false ≡ err (still_used users))
unfolding insert
pin-demise_example = pin-demise prod pinned "lint" "1" "nightly" refl refl refl refl

-- What production holds of the tool once another environment has promoted it.
abbrev promoted : Version
promoted = record lint_1 {
  status = draft;
  provenance = ("promotedFrom", "sit") ∷ [];
  is_default = false;
  proposed_by = "";
  approved_by = "";
  test_passed = false;
  test_ref = "";
}

abbrev sit_lint : Version
sit_lint = record lint_1 { env = "sit" }

promote-governed_example : is_well_formed sealed_prod (promoted ∷ []) ≡ true
unfolding promote copy_provenance run_calls register add_draft get safe_name has_version save
    transition require_entry update_version insert lookup trim_space
promote-governed_example =
    promote-governed "prod" sealed_prod [] [] lint_entry sit_lint "lint"
      (record lint_entry { versions = promoted ∷ [] }) refl
