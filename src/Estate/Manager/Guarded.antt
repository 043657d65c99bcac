-- ===== src/Estate/Manager/Guarded.antt =====
-- mantlekeep-estate/guarded.go: the refusals that every adapter owes before its backend is touched.
use mantlekeep.Estate.Manager.{
  String, List, ℕ, ExecutionToken, DesiredItem, Option, Bool, if◌then◌else◌, not, some, is_some,
}
use mantlekeep.Prelude.{◌≡◌, true, ◌==◌, false, ◌&&◌, is_empty_list, arith, contains, ◌||◌}
use mantlekeep.Contracts.{valid}

-- guarded.Apply: an empty list of kinds means every kind of the asset.
unfoldable pub guarded {ℓ} :
    {W : Type ℓ}
    → String
    → List String
    → ℕ
    → (ExecutionToken → DesiredItem → W → Option String × W)
    → ExecutionToken
    → DesiredItem
    → W
    → Option String × W
guarded asset kinds now approved token change w =
    if token.value == ""
    then (some "no execution token", w)
    else if not (valid token now)
    then (some "the execution token expired", w)
    else if not (change.asset == asset)
    then (some "not this adapter's concern", w)
    else if not (is_empty_list kinds) && not (contains kinds change.kind)
    then (some "not this adapter's concern", w)
    else approved token change w

-- What the guards establish of a call.
unfoldable pub may_pass : String → List String → ℕ → ExecutionToken → DesiredItem → Bool
may_pass asset kinds now token change =
    not (token.value == "")
    && valid token now
    && change.asset == asset
    && (is_empty_list kinds || contains kinds change.kind)

-- The backend is reached exactly by the calls that carry a live token for a change of this adapter.
pub guarded-eq-may_pass {ℓ} :
    {W : Type ℓ} (asset : String) (kinds : List String) (now : ℕ)
    (approved : ExecutionToken → DesiredItem → W → Option String × W) (token : ExecutionToken)
    (change : DesiredItem) (w : W)
    → (may_pass asset kinds now token change ≡ true
        → guarded asset kinds now approved token change w ≡ approved token change w)
      × (may_pass asset kinds now token change ≡ false
          → ((guarded asset kinds now approved token change w).1 ≡ w)
            × (is_some (guarded asset kinds now approved token change w).0 ≡ true))
unfolding guarded may_pass
guarded-eq-may_pass asset kinds now approved token change w =
    (λ h. ground arith, λ h. (ground arith, ground arith))
