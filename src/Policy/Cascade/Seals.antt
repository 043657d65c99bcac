-- ===== src/Policy/Cascade/Seals.antt =====
-- A seal is never lifted, and below a seal the required role only tightens.
use mantlekeep.Prelude.{
  String, true, false, ◌≡◌, refl, ◌⊎◌, inl, inr, Option, none, some, List, [], ◌∷◌, ◌++◌, Map,
  lookup, insert, lookup-insert, contains, contains-append, arith, Bool-cases, eq_iff, ◌==◌, ◌∙◌,
  ◌&&◌, ap,
}
use mantlekeep.Contracts.{Role}
use mantlekeep.Policy.Ladder.{RoleLadder, or_default, holds_at_least, at_least_as_senior}
use mantlekeep.Policy.Ladder.Laws.{holds_at_least_mono, at_least_as_senior_trans}
use mantlekeep.Policy.Cascade.{
  Layer, Resolved, apply, seal_key, apply_roles, add_layer, add_layers, resolve, empty_resolved,
  loosens, required_role,
}

-- The role bound now is the sealed one, or one at least as senior.
abbrev pub MeetsSeal : RoleLadder → Role → Option Role → Type 0
MeetsSeal ladder role none = ⊥
MeetsSeal ladder role (some role') = (role' ≡ role) ⊎ (at_least_as_senior ladder role' role ≡ true)

-- What one state of the cascade promises of a sealed action to every later state.
pub record IsFloor (action : String) (role : Role) (r : Resolved) : Type 0 where
  pub is_sealed : contains r.sealed (seal_key action) ≡ true
  pub meets : MeetsSeal r.ladder role (lookup action r.action_roles)

override-MeetsSeal :
    (ladder : RoleLadder) (role need : Role) (cur : Option Role)
    → MeetsSeal ladder role cur
    → loosens ladder need cur ≡ false
    → MeetsSeal ladder role (some need)
override-MeetsSeal ladder role need none m h = absurd m
override-MeetsSeal ladder role need (some c) (inl e) h = inr (rw (← e) (ground arith))
override-MeetsSeal ladder role need (some c) (inr s) h =
    inr (at_least_as_senior_trans ladder need c role (ground arith) s)

insert-IsFloor :
    (action : String) (role : Role) (r : Resolved) (key : String) (need : Role)
    → contains r.sealed (seal_key key) && loosens r.ladder need (lookup key r.action_roles) ≡ false
    → IsFloor action role r
    → IsFloor action role (record r { action_roles = insert key need r.action_roles })
insert-IsFloor action role r key need open' t = elim (Bool-cases (key == action)) [
  | inl e ↦
      let same = (eq_iff key action).0 e in
      let taken : loosens r.ladder need (lookup action r.action_roles) ≡ false =
        rw (← same) (ground (arith, t.is_sealed, ap (λ k. contains r.sealed (seal_key k)) same)) in
      record {
        is_sealed = t.is_sealed;
        meets =
            rw (lookup-insert, e)
              (override-MeetsSeal r.ladder role need (lookup action r.action_roles) t.meets taken);
      }
  | inr e ↦ record { is_sealed = t.is_sealed; meets = rw (lookup-insert, e) t.meets }
]

apply-IsFloor :
    (action : String) (role : Role) (r : Resolved) (key : String) (need : Role)
    → IsFloor action role r
    → IsFloor action role (apply r key need (seal_key key))
apply-IsFloor action role r key need t =
    let guard =
      contains r.sealed (seal_key key) && loosens r.ladder need (lookup key r.action_roles) in
    elim (Bool-cases guard) [
      | inl e ↦ unfold apply in rw e t
      | inr e ↦ unfold apply in rw e (insert-IsFloor action role r key need e t)
    ]

apply_roles-IsFloor :
    (action : String) (role : Role) (r : Resolved) (m : Map Role)
    → IsFloor action role r
    → IsFloor action role (apply_roles r m)
unfolding apply_roles
apply_roles-IsFloor action role r [] t = t
apply_roles-IsFloor action role r ((k, need) ∷ m) t =
    apply_roles-IsFloor action role (apply r k need (seal_key k)) m
      (apply-IsFloor action role r k need t)

add_layer-IsFloor :
    (action : String) (role : Role) (r : Resolved) (l : Layer)
    → IsFloor action role r
    → IsFloor action role (add_layer r l)
unfolding add_layer
add_layer-IsFloor action role r l t =
    let t' = apply_roles-IsFloor action role r l.action_roles t in
    record { is_sealed = rw contains-append (rw t'.is_sealed); meets = t'.meets }

add_layers-IsFloor :
    (action : String) (role : Role) (r : Resolved) (ls : List Layer)
    → IsFloor action role r
    → IsFloor action role (add_layers r ls)
unfolding add_layers
add_layers-IsFloor action role r [] t = t
add_layers-IsFloor action role r (l ∷ ls) t =
    add_layers-IsFloor action role (add_layer r l) ls (add_layer-IsFloor action role r l t)

add_layers-append :
    (r : Resolved) (ls ms : List Layer) → add_layers r (ls ++ ms) ≡ add_layers (add_layers r ls) ms
unfolding add_layers
add_layers-append r [] ms = refl
add_layers-append r (l ∷ ls) ms = add_layers-append (add_layer r l) ls ms

pub resolve-append :
    (ladder : RoleLadder) (ls ms : List Layer)
    → resolve ladder (ls ++ ms) ≡ add_layers (resolve ladder ls) ms
unfolding resolve
resolve-append ladder ls ms = add_layers-append (empty_resolved (or_default ladder)) ls ms

pub ladder-apply_roles : (r : Resolved) (m : Map Role) → (apply_roles r m).ladder ≡ r.ladder
unfolding apply_roles apply
ladder-apply_roles r [] = refl
ladder-apply_roles r ((k, need) ∷ m) =
    ladder-apply_roles (apply r k need (seal_key k)) m ∙ ground arith

pub ladder-add_layers : (r : Resolved) (ls : List Layer) → (add_layers r ls).ladder ≡ r.ladder
unfolding add_layers add_layer
ladder-add_layers r [] = refl
ladder-add_layers r (l ∷ ls) =
    ladder-add_layers (add_layer r l) ls ∙ ladder-apply_roles r l.action_roles

MeetsSeal-holds :
    (ladder : RoleLadder) (role need : Role) (roles : List Role)
    → MeetsSeal ladder role (some need)
    → holds_at_least ladder roles need ≡ true
    → holds_at_least ladder roles role ≡ true
MeetsSeal-holds ladder role need roles (inl e) h = rw e at h
MeetsSeal-holds ladder role need roles (inr s) h = holds_at_least_mono ladder roles need role s h

MeetsSeal-bound :
    (ladder : RoleLadder) (role : Role) (o : Option Role)
    → MeetsSeal ladder role o
    → (need : Role) × (o ≡ some need) × MeetsSeal ladder role (some need)
MeetsSeal-bound ladder role none m = absurd m
MeetsSeal-bound ladder role (some need) m = (need, refl, m)

-- A bound action is answered without the fallback.
pub required_role-bound :
    (r : Resolved) (action : String) (need : Role)
    → lookup action r.action_roles ≡ some need
    → required_role r action ≡ some need
unfolding required_role
required_role-bound r action need e = rw e

ladder-resolve :
    (ladder : RoleLadder) (ls : List Layer) → (resolve ladder ls).ladder ≡ or_default ladder
unfolding resolve
ladder-resolve ladder ls = ladder-add_layers (empty_resolved (or_default ladder)) ls

IsFloor-bound :
    (action : String) (role : Role) (r : Resolved)
    → IsFloor action role r
    → (need : Role) × (lookup action r.action_roles ≡ some need)
      × ((roles : List Role)
          → holds_at_least r.ladder roles need ≡ true
          → holds_at_least r.ladder roles role ≡ true)
IsFloor-bound action role r t =
    let (need, bound, m) = MeetsSeal-bound r.ladder role (lookup action r.action_roles) t.meets in
    (need, bound, λ roles. MeetsSeal-holds r.ladder role need roles m)

resolve-append-IsFloor :
    (ladder : RoleLadder) (ls ms : List Layer) (action : String) (role : Role)
    → contains (resolve ladder ls).sealed (seal_key action) ≡ true
    → lookup action (resolve ladder ls).action_roles ≡ some role
    → IsFloor action role (resolve ladder (ls ++ ms))
resolve-append-IsFloor ladder ls ms action role sealed bound =
    let floor : IsFloor action role (resolve ladder ls) = record {
      is_sealed = sealed;
      meets = rw bound (inl refl);
    } in
    rw resolve-append (add_layers-IsFloor action role (resolve ladder ls) ms floor)

-- The binding below a seal, as the cascade stores it.
pub resolve-append_binds :
    (ladder : RoleLadder) (ls ms : List Layer) (action : String) (role : Role)
    → contains (resolve ladder ls).sealed (seal_key action) ≡ true
    → lookup action (resolve ladder ls).action_roles ≡ some role
    → (need : Role) × (lookup action (resolve ladder (ls ++ ms)).action_roles ≡ some need)
      × ((roles : List Role)
          → holds_at_least (or_default ladder) roles need ≡ true
          → holds_at_least (or_default ladder) roles role ≡ true)
resolve-append_binds ladder ls ms action role sealed bound =
    rw (← ladder-resolve ladder (ls ++ ms)) (
      IsFloor-bound action role (resolve ladder (ls ++ ms))
        (resolve-append-IsFloor ladder ls ms action role sealed bound))

-- Once some layers `ls` bind an action to `role` and seal it, no further layers `ms` unbind it:
-- it stays sealed and bound to some role, and whoever meets the requirement then in force meets
-- the sealed one.
pub resolve-append_tightens :
    (ladder : RoleLadder) (ls ms : List Layer) (action : String) (role : Role)
    → contains (resolve ladder ls).sealed (seal_key action) ≡ true
    → lookup action (resolve ladder ls).action_roles ≡ some role
    → (contains (resolve ladder (ls ++ ms)).sealed (seal_key action) ≡ true)
      × ((need : Role) × (required_role (resolve ladder (ls ++ ms)) action ≡ some need)
          × ((roles : List Role)
              → holds_at_least (or_default ladder) roles need ≡ true
              → holds_at_least (or_default ladder) roles role ≡ true))
resolve-append_tightens ladder ls ms action role sealed bound =
    let (need, e, admits) = resolve-append_binds ladder ls ms action role sealed bound in
    let t = resolve-append-IsFloor ladder ls ms action role sealed bound in
    (t.is_sealed, (need, required_role-bound (resolve ladder (ls ++ ms)) action need e, admits))
