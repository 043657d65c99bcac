-- ===== src/Estate/Ownership.antt =====
-- mantlekeep-estate/ownership.go: which fields are governed, and which are only watched.
use mantlekeep.Prelude.{
  String, Bool, true, false, List, [], ◌∷◌, Map, lookup_or, insert, if◌then◌else◌, ◌≡◌, ◌∙◌, arith,
  lookup-insert, refl,
}

pub record Ownership : Type 0 where
  pub governed : Map Bool
  pub watched : Map Bool

abbrev pub owns : Ownership → String → Bool
owns o field = lookup_or false field o.governed

abbrev pub watches : Ownership → String → Bool
watches o field = lookup_or false field o.watched

abbrev pub all_true : List String → Map Bool
all_true [] = []
all_true (f ∷ fs) = (f, true) ∷ all_true fs

unfoldable pub add_governed : Ownership → Map Bool → Ownership
add_governed o [] = o
add_governed o ((field, v) ∷ rest) =
    add_governed (record o { governed = insert field true o.governed }) rest

unfoldable pub add_watched : Ownership → Map Bool → Ownership
add_watched o [] = o
add_watched o ((field, v) ∷ rest) =
    add_watched (if owns o field then o else record o { watched = insert field true o.watched })
      rest

-- with: later declarations add, and a governed field stays governed.
unfoldable pub merged_with : Ownership → Ownership → Ownership
merged_with o other = add_watched (add_governed o other.governed) other.watched

abbrev pub fleet_ownership : Ownership
fleet_ownership = record {
  governed = all_true (
      "kubernetesVersion" ∷ "storageClass" ∷ "networkPlugin" ∷ "ingressController" ∷ "instanceType"
      ∷ "nodePoolMaxNodes" ∷ []);
  watched = all_true ("nodePoolSize" ∷ "kubernetesPatch" ∷ []);
}

abbrev pub app_ownership : Ownership
app_ownership = record {
  governed = all_true (
      "digest" ∷ "image" ∷ "runtime" ∷ "retention" ∷ "producerBytesPerSec" ∷ "consumerBytesPerSec"
      ∷ "connectionLimit" ∷ "statementTimeout" ∷ "robotExpiry" ∷ "cpuLimit" ∷ "memoryMiB" ∷ []);
  watched = all_true ("replicas" ∷ []);
}

unfoldable pub default_ownership : Ownership
default_ownership = merged_with app_ownership fleet_ownership

owns-add_watched :
    (o : Ownership) (m : Map Bool) (field : String) → owns (add_watched o m) field ≡ owns o field
unfolding add_watched
owns-add_watched o [] field = refl
owns-add_watched o ((f, v) ∷ m) field =
    owns-add_watched (if owns o f then o else record o { watched = insert f true o.watched }) m
      field
    ∙ ground arith

owns-add_governed :
    (o : Ownership) (m : Map Bool) (field : String)
    → owns o field ≡ true
    → owns (add_governed o m) field ≡ true
unfolding add_governed
owns-add_governed o [] field h = h
owns-add_governed o ((f, v) ∷ m) field h =
    owns-add_governed (record o { governed = insert f true o.governed }) m field
      (ground (arith, lookup-insert f field true o.governed))

-- A field that one declaration governs stays governed, whatever is merged in.
pub owns-merged_with :
    (o other : Ownership) (field : String)
    → owns o field ≡ true
    → owns (merged_with o other) field ≡ true
unfolding merged_with
owns-merged_with o other field h =
    rw (owns-add_watched (add_governed o other.governed) other.watched field)
      (owns-add_governed o other.governed field h)
