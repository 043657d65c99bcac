-- ===== src/Registry.antt =====
-- mantlekeep-control/registry: the governed artifact registry (registry.go). The Store holds two
-- families of keys, kept here as two maps: entries under safeName(name), where `none` is a value
-- that does not decode, and pins under pinKey. A call that returns an error leaves the registry as
-- it was, so only a success carries the next state. The clock, whether the store accepts a write,
-- whether it reads a key and whether it lists its keys are fields that a caller sets.
pub mod Lifecycle
pub mod Calls
pub mod Resolve
pub mod Update
pub mod Governed
pub mod Reachable
pub mod Pins
pub mod Promote
use Prim.Native.Char.{code}
use Prim.Native.String
use mantlekeep.Prelude.{
  ℕ, zero, suc, ◌+◌, String, Bool, true, false, not, ◌&&◌, ◌||◌, Option, none, some, List, [], ◌∷◌,
  ◌++◌, Map, lookup, insert, any, if◌then◌else◌, ◌==◌, nat_eq, Result, ok, err, ◌>>=◌,
}
use mantlekeep.Prelude.Text.{concat, has_prefix, trim_space}

pub data Status : Type 0 where
  draft in_review published deprecated demised : Status

pub record Version : Type 0 where
  pub version : String
  pub env : String
  pub status : Status
  pub ref : String
  pub manifest : String
  pub provenance : Map String
  pub is_default : Bool
  pub proposed_by : String
  pub approved_by : String
  pub change_ref : String
  pub test_passed : Bool
  pub tested_at : ℕ
  pub test_ref : String
  pub published_at : ℕ
  pub updated_at : ℕ

pub record Entry : Type 0 where
  pub name : String
  pub kind : String
  pub title : String
  pub owner : String
  pub versions : List Version

pub record PromotionPolicy : Type 0 where
  pub requires_approval : Bool
  pub require_sod : Bool
  pub require_test_before_promote : Bool

abbrev pub loose_dev : PromotionPolicy
loose_dev = record {
  requires_approval = false;
  require_sod = false;
  require_test_before_promote = false;
}

abbrev pub sealed_prod : PromotionPolicy
sealed_prod = record {
  requires_approval = true;
  require_sod = true;
  require_test_before_promote = true;
}

pub record Registry : Type 0 where
  pub entries : Map (Option Entry)
  pub pins : Map String
  pub env : String
  pub policy : PromotionPolicy
  pub now : ℕ
  pub accepts : Bool
  pub reads : String → Bool
  pub lists : Bool

pub data RegistryError : Type 0 where
  name_and_version_required already_exists entry_not_found version_not_found : RegistryError
  wrong_status : Status → RegistryError
  untested own_approval not_published undecodable store_failed not_available no_default :
      RegistryError
  still_used : List String → RegistryError

abbrev pub new_registry : String → PromotionPolicy → Registry
new_registry env policy = record {
  entries = [];
  pins = [];
  env = env;
  policy = policy;
  now = 0;
  accepts = true;
  reads = λ key. true;
  lists = true;
}

-- strings.ReplaceAll(name, "/", "_")
unfoldable pub safe_name : String → String
safe_name String.[] = ""
safe_name (String.◌∷◌ c s) = String.◌∷◌ (if nat_eq (code c) b'/' then "_" else c) (safe_name s)

abbrev pub decoded : Option (Option Entry) → Result RegistryError (Option Entry)
decoded none = ok none
decoded (some none) = err undecodable
decoded (some (some e)) = ok (some e)

abbrev pub entry_key : String → String
entry_key name = concat "registry/" (safe_name name)

-- get: an absent key is no error, and a key that the store fails to read counts as absent.
unfoldable pub get : Registry → String → Result RegistryError (Option Entry)
get r name =
    if r.reads (entry_key name) then decoded (lookup (safe_name name) r.entries) else ok none

unfoldable pub save : Registry → Entry → Result RegistryError Registry
save r e =
    if r.accepts
    then ok (record r { entries = insert (safe_name e.name) (some e) r.entries })
    else err store_failed

abbrev pub found : Option Entry → Result RegistryError Entry
found none = err entry_not_found
found (some e) = ok e

unfoldable pub require_entry : Registry → String → Result RegistryError Entry
unfolding get
require_entry r name = get r name >>= found

unfoldable pub has_version : List Version → String → Bool
has_version versions version = any (λ v. v.version == version) versions

pub record Registration : Type 0 where
  pub name : String
  pub kind : String
  pub title : String
  pub owner : String
  pub version : String
  pub ref : String
  pub manifest : String

abbrev pub entry_for : Registration → Option Entry → Entry
entry_for reg none = record {
  name = reg.name;
  kind = reg.kind;
  title = reg.title;
  owner = reg.owner;
  versions = [];
}
entry_for reg (some e) = e

abbrev pub draft_version : Registry → Registration → Version
draft_version r reg = record {
  version = reg.version;
  env = r.env;
  status = draft;
  ref = reg.ref;
  manifest = reg.manifest;
  provenance = [];
  is_default = false;
  proposed_by = "";
  approved_by = "";
  change_ref = "";
  test_passed = false;
  tested_at = 0;
  test_ref = "";
  published_at = 0;
  updated_at = r.now;
}

-- Register, from the entry that was read on.
unfoldable pub add_draft : Registry → Registration → Entry → Result RegistryError (Entry × Registry)
unfolding has_version
add_draft r reg e =
    let e' = record e { versions = e.versions ++ draft_version r reg ∷ [] } in
    if has_version e.versions reg.version
    then err already_exists
    else save r e' >>= λ r'. ok (e', r')

unfoldable pub register : Registry → Registration → Result RegistryError (Entry × Registry)
unfolding add_draft get
register r reg =
    if trim_space reg.name == "" || trim_space reg.version == ""
    then err name_and_version_required
    else get r reg.name >>= λ o. add_draft r reg (entry_for reg o)
