-- ===== src/Registry/Lifecycle.antt =====
-- registry/lifecycle.go and dependents.go: the transitions of a version, the default mark and the
-- pins of the consumers.
use mantlekeep.Prelude.{
  ℕ, String, Bool, true, false, not, ◌&&◌, List, [], ◌∷◌, Map, insert, if◌then◌else◌, ◌==◌, Result,
  ok, err, ◌>>=◌,
}
use mantlekeep.Prelude.Text.{concat, has_prefix}
use mantlekeep.Registry.{
  PromotionPolicy, Registry, RegistryError, Status, Version, demised, deprecated, draft, in_review,
  not_published, own_approval, published, require_entry, safe_name, save, still_used, store_failed,
  untested, version_not_found, wrong_status,
}

-- The rest of transition, on the versions: the first one of this name is changed and stamped.
unfoldable pub update_version :
    ℕ
    → String
    → (Version → Result RegistryError Version)
    → List Version
    → Result RegistryError (List Version × Version)
update_version now version fn [] = err version_not_found
update_version now version fn (v ∷ versions) =
    let changed = fn v >>= λ v'.
    let stamped = record v' { updated_at = now } in ok (stamped ∷ versions, stamped) in
    let later = update_version now version fn versions >>= λ (vs, x). ok (v ∷ vs, x) in
    if v.version == version then changed else later

unfoldable pub transition :
    Registry
    → String
    → String
    → (Version → Result RegistryError Version)
    → Result RegistryError (Version × Registry)
transition r name version fn = require_entry r name >>= λ e.
    update_version r.now version fn e.versions >>= λ (vs, v).
    save r (record e { versions = vs }) >>= λ r'. ok (v, r')

abbrev pub is_draft : Status → Bool
is_draft draft = true
is_draft _ = false

abbrev pub is_in_review : Status → Bool
is_in_review in_review = true
is_in_review _ = false

abbrev pub is_published : Status → Bool
is_published published = true
is_published _ = false

abbrev pub is_deprecated : Status → Bool
is_deprecated deprecated = true
is_deprecated _ = false

-- What each transition does to the version, or why it refuses.
unfoldable pub change_linked : String → Version → Result RegistryError Version
change_linked change_ref v = ok (record v { change_ref = change_ref })

unfoldable pub test_recorded : ℕ → Bool → String → Version → Result RegistryError Version
test_recorded now passed ref v =
    if not (is_draft v.status)
    then err (wrong_status v.status)
    else ok (record v { test_passed = passed; tested_at = now; test_ref = ref })

unfoldable pub promotion_proposed :
    ℕ → PromotionPolicy → String → Version → Result RegistryError Version
promotion_proposed now policy proposed_by v =
    if not (is_draft v.status)
    then err (wrong_status v.status)
    else if policy.require_test_before_promote && not v.test_passed
    then err untested
    else if policy.requires_approval
    then ok (record v { proposed_by = proposed_by; status = in_review })
    else ok (record v { proposed_by = proposed_by; status = published; published_at = now })

unfoldable pub approved : ℕ → PromotionPolicy → String → Version → Result RegistryError Version
approved now policy approver v =
    if not (is_in_review v.status)
    then err (wrong_status v.status)
    else if policy.require_sod && approver == v.proposed_by
    then err own_approval
    else ok (record v { status = published; approved_by = approver; published_at = now })

unfoldable pub rejected : Version → Result RegistryError Version
rejected v =
    if not (is_in_review v.status)
    then err (wrong_status v.status)
    else ok (record v { status = draft; proposed_by = "" })

unfoldable pub set_deprecated : Version → Result RegistryError Version
set_deprecated v =
    if not (is_published v.status)
    then err (wrong_status v.status)
    else ok (record v { status = deprecated })

unfoldable pub set_demised : Version → Result RegistryError Version
set_demised v =
    if not (is_deprecated v.status) && not (is_published v.status)
    then err (wrong_status v.status)
    else ok (record v { status = demised; is_default = false })

abbrev pub link_change :
    Registry → String → String → String → Result RegistryError (Version × Registry)
link_change r name version change_ref = transition r name version (change_linked change_ref)

abbrev pub record_test :
    Registry → String → String → Bool → String → Result RegistryError (Version × Registry)
record_test r name version passed ref = transition r name version (test_recorded r.now passed ref)

abbrev pub propose_promote :
    Registry → String → String → String → Result RegistryError (Version × Registry)
propose_promote r name version proposed_by =
    transition r name version (promotion_proposed r.now r.policy proposed_by)

abbrev pub approve : Registry → String → String → String → Result RegistryError (Version × Registry)
approve r name version approver = transition r name version (approved r.now r.policy approver)

abbrev pub reject : Registry → String → String → Result RegistryError (Version × Registry)
reject r name version = transition r name version rejected

abbrev pub deprecate : Registry → String → String → Result RegistryError (Version × Registry)
deprecate r name version = transition r name version set_deprecated

-- The pins: a key for each consumer, whose value is the consumer, or "" once it is unpinned.
unfoldable pub pin_prefix : String → String → String
unfolding safe_name
pin_prefix name version =
    concat "registry-pin/" (concat (safe_name name) (concat "/" (concat (safe_name version) "/")))

abbrev pub pin_key : String → String → String → String
pin_key name version consumer = concat (pin_prefix name version) (safe_name consumer)

abbrev pub put_pin : Registry → String → String → Result RegistryError Registry
put_pin r key consumer =
    if r.accepts then ok (record r { pins = insert key consumer r.pins }) else err store_failed

abbrev pub pin : Registry → String → String → String → Result RegistryError Registry
pin r name version consumer = put_pin r (pin_key name version consumer) consumer

abbrev pub unpin : Registry → String → String → String → Result RegistryError Registry
unpin r name version consumer = put_pin r (pin_key name version consumer) ""

-- The consumers under a prefix. A pin that the store fails to read is passed over. Their sorting is
-- left out.
unfoldable pub consumers_under : (String → Bool) → String → Map String → List String
consumers_under reads prefix [] = []
consumers_under reads prefix ((key, consumer) ∷ pins) =
    let rest = consumers_under reads prefix pins in
    if has_prefix key prefix && (reads key && not (consumer == "")) then consumer ∷ rest else rest

unfoldable pub dependents : Registry → String → String → Result RegistryError (List String)
dependents r name version =
    if r.lists
    then ok (consumers_under r.reads (pin_prefix name version) r.pins)
    else err store_failed

abbrev pub unless_used :
    List String
    → Result RegistryError (Version × Registry)
    → Result RegistryError (Version × Registry)
unless_used [] next = next
unless_used (c ∷ cs) next = err (still_used (c ∷ cs))

unfoldable pub demise :
    Registry → String → String → Bool → Result RegistryError (Version × Registry)
demise r name version force =
    let retired = transition r name version set_demised in
    if force then retired else dependents r name version >>= λ users. unless_used users retired

-- SetDefault: every other version of the entry loses the mark.
abbrev pub clear_defaults : List Version → List Version
clear_defaults [] = []
clear_defaults (v ∷ vs) = record v { is_default = false } ∷ clear_defaults vs

unfoldable pub mark_default : ℕ → String → List Version → Result RegistryError (List Version)
mark_default now version [] = err version_not_found
mark_default now version (v ∷ vs) =
    let marked =
      if not (is_published v.status)
      then err not_published
      else ok (record v { is_default = true; updated_at = now } ∷ clear_defaults vs) in
    let later = mark_default now version vs >>= λ vs'. ok (record v { is_default = false } ∷ vs') in
    if v.version == version then marked else later

unfoldable pub set_default : Registry → String → String → Result RegistryError Registry
set_default r name version = require_entry r name >>= λ e.
    mark_default r.now version e.versions >>= λ vs. save r (record e { versions = vs })
