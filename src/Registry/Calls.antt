-- ===== src/Registry/Calls.antt =====
-- registry: a call as data, and a sequence of calls on one registry.
use mantlekeep.Registry.{Registry, Registration, ℕ, Result, List, RegistryError, register}
use mantlekeep.Registry.Lifecycle.{
  deprecate, reject, approve, link_change, record_test, propose_promote, demise, set_default, pin,
  unpin,
}
use mantlekeep.Prelude.{Bool, ◌∷◌, String, ok, ◌>>=◌, [], err}

-- A call of the registry, or a move of the clock and of the store's health.
pub data Call : Type 0 where
  tick : ℕ → Bool → (String → Bool) → Bool → Call
  register_call : Registration → Call
  link_change_call : String → String → String → Call
  record_test_call : String → String → Bool → String → Call
  propose_promote_call : String → String → String → Call
  approve_call : String → String → String → Call
  reject_call : String → String → Call
  deprecate_call : String → String → Call
  demise_call : String → String → Bool → Call
  set_default_call : String → String → Call
  pin_call : String → String → String → Call
  unpin_call : String → String → String → Call

abbrev pub after : Registry → Result RegistryError Registry → Registry
after r (ok r') = r'
after r (err e) = r

abbrev pub next {ℓ} :
    {A : Type ℓ} → Result RegistryError (A × Registry) → Result RegistryError Registry
next x = x >>= λ (a, r). ok r

unfoldable pub call : Call → Registry → Result RegistryError Registry
call (tick now accepts reads lists) r =
    ok (record r { now = now; accepts = accepts; reads = reads; lists = lists })
call (register_call reg) r = next (register r reg)
call (link_change_call name version ref) r = next (link_change r name version ref)
call (record_test_call name version passed ref) r = next (record_test r name version passed ref)
call (propose_promote_call name version by) r = next (propose_promote r name version by)
call (approve_call name version by) r = next (approve r name version by)
call (reject_call name version) r = next (reject r name version)
call (deprecate_call name version) r = next (deprecate r name version)
call (demise_call name version force) r = next (demise r name version force)
call (set_default_call name version) r = set_default r name version
call (pin_call name version consumer) r = pin r name version consumer
call (unpin_call name version consumer) r = unpin r name version consumer

unfoldable pub run_calls : List Call → Registry → Registry
run_calls [] r = r
run_calls (c ∷ cs) r = run_calls cs (after r (call c r))
