-- ===== src/Grants/Additive.antt =====
-- Floors compose by appending: no layer removes or reorders a rule of another.
use mantlekeep.Prelude.{
  String, ◌≡◌, refl, List, [], ◌∷◌, ◌++◌, lookup_or, insert, lookup-insert, eq_iff, ◌==◌, Option,
  append_assoc, append-nil, if◌then◌else◌, Bool-cases, sym, ◌∙◌, inl, inr,
}
use mantlekeep.Grants.{
  FloorRule, Floors, ProductDoc, merge_floors, merge_docs, platform_floors, append_layered_floors,
}

-- All rules that the entries of a document state for an action, in order.
abbrev pub rules_for : Floors → String → List FloorRule
rules_for [] action = []
rules_for ((key, rules) ∷ f) action = (if key == action then rules else []) ++ rules_for f action

abbrev pub docs_rules : List ProductDoc → String → List FloorRule
docs_rules [] action = []
docs_rules (d ∷ docs) action = rules_for d.floors action ++ docs_rules docs action

step-merge_floors :
    (f : Floors) (key : String) (rules : List FloorRule) (action : String)
    → lookup_or [] action (insert key (lookup_or [] key f ++ rules) f)
      ≡ lookup_or [] action f ++ (if key == action then rules else [])
step-merge_floors f key rules action = elim (Bool-cases (key == action)) [
  | inl e ↦ let same = (eq_iff key action).0 e in rw (lookup-insert, e) (rw same refl)
  | inr e ↦ rw (lookup-insert, e) (sym (append-nil _))
]

rules-merge_floors :
    (f g : Floors) (action : String)
    → lookup_or [] action (merge_floors f g) ≡ lookup_or [] action f ++ rules_for g action
unfolding merge_floors
rules-merge_floors f [] action = sym (append-nil _)
rules-merge_floors f ((key, rules) ∷ g) action =
    rules-merge_floors (insert key (lookup_or [] key f ++ rules) f) g action
    ∙ rw step-merge_floors (
        append_assoc (lookup_or [] action f) (if key == action then rules else [])
          (rules_for g action))

rules-merge_docs :
    (f : Floors) (docs : List ProductDoc) (action : String)
    → lookup_or [] action (merge_docs f docs) ≡ lookup_or [] action f ++ docs_rules docs action
unfolding merge_docs
rules-merge_docs f [] action = sym (append-nil _)
rules-merge_docs f (d ∷ docs) action =
    rules-merge_docs (merge_floors f d.floors) docs action
    ∙ rw rules-merge_floors
        (append_assoc (lookup_or [] action f) (rules_for d.floors action) (docs_rules docs action))

-- The rules in force for an action are the baseline's, then the platform's, then each product's,
-- all of them and in that order.
pub append_layered_floors_lem :
    (f : Floors) (platform : Option ProductDoc) (docs : List ProductDoc) (action : String)
    → lookup_or [] action (append_layered_floors f platform docs)
      ≡ lookup_or [] action f
        ++ (rules_for (platform_floors platform) action ++ docs_rules docs action)
unfolding append_layered_floors
append_layered_floors_lem f platform docs action =
    rules-merge_docs (merge_floors f (platform_floors platform)) docs action
    ∙ rw rules-merge_floors (
        append_assoc (lookup_or [] action f) (rules_for (platform_floors platform) action)
          (docs_rules docs action))
