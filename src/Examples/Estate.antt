-- ===== src/Examples/Estate.antt =====
-- An estate with one adapter, two signers and two clusters.
use mantlekeep.Prelude.{ℕ, List, [], ◌∷◌, ◌≡◌, refl, ok, some, none, true, lookup, suc, insert}
use mantlekeep.Examples.Evidence.{ports, ann, empty_log}
use mantlekeep.Estate.Floor.{signatures_for, Floor, default_gates, default_env_tiers}
use mantlekeep.Estate.Footprint.{DesiredItem, no_item}
use mantlekeep.Estate.Signatures.{
  signatures_outstanding, Signature, Approval, is_pending_at, has_signature_from,
}
use mantlekeep.Estate.Approvals.{open_record, with_signature, sign}
use mantlekeep.Door.{submit}
use mantlekeep.Estate.Approvals.Desk.{
  act, declined_record, Move, tick, open_move, sign_move, begin_decline, finish_decline, run_moves,
  empty_desk, Desk, pending_record,
}
use mantlekeep.Estate.Approvals.Sound.{are_distinct, is_sound}
use mantlekeep.Estate.Approvals.Released.{run_moves-is_sound, run_moves-released_once}
use mantlekeep.Estate.Approvals.Decline.{decline-drops_signature}
use mantlekeep.Estate.Manager.{Manager, World, apply_one, approve_citing}
use mantlekeep.Estate.Manager.Authority.{
  at_door, Handled, Approved, apply_one-Handled, approve_citing-Approved,
}

abbrev pub floor : Floor
floor = record {
  kafka = [];
  postgres = [];
  harbor = [];
  app = [];
  fleet = record {
    node_pool =
        ("dev", record { min_nodes = 0; max_nodes = 5; allowed_instance_types = "standard-2" ∷ [] })
        ∷ [];
    kubernetes_versions = "1.29" ∷ [];
  };
  env_tiers = default_env_tiers;
  gates = default_gates;
  signatures = ("platform", 2) ∷ [];
  apps = [];
  revision = "r1";
}

abbrev pub topic : DesiredItem
topic = record no_item {
  asset = "kafka";
  kind = "topic";
  name = "orders";
  team = "payments";
  tier = "prod";
  gate = "platform";
}

abbrev waiting_record : Approval
waiting_record = pending_record "a1" "payments" "bob" [] floor "gate" 0 topic

-- bob asks, ann and cat sign, dan signs too late, and eve declines what she read before.
abbrev day : List Move
day =
    tick 1
    ∷ open_move "a1" "payments" "bob" [] floor "gate" topic
    ∷ begin_decline "s1" "eve" "a1" "too soon"
    ∷ sign_move "a1" (record { by = "ann"; at = 2; reference = "CHG1" })
    ∷ sign_move "a1" (record { by = "cat"; at = 3; reference = "CHG2" })
    ∷ sign_move "a1" (record { by = "dan"; at = 4; reference = "CHG3" })
    ∷ finish_decline "s1"
    ∷ []

run_moves-released_once_example : are_distinct (run_moves day empty_desk).released ≡ true
run_moves-released_once_example = run_moves-released_once day

abbrev opening : List Move
opening = tick 1 ∷ open_move "a1" "payments" "bob" [] floor "gate" topic ∷ []

abbrev opened_record : Approval
opened_record = pending_record "a1" "payments" "bob" [] floor "gate" 1 topic

run_moves-is_sound_example : is_sound opened_record ≡ true
unfolding lookup run_moves act open_record insert pending_record
run_moves-is_sound_example = run_moves-is_sound opening "a1" opened_record refl

abbrev desk : Desk
desk = record empty_desk { store = ("a1", waiting_record) ∷ []; now = 5 }

abbrev signature : Signature
signature = record { by = "ann"; at = 5; reference = "CHG1" }

decline-drops_signature_example :
    (sign 5 desk.store "a1" signature
      ≡ ok (
        with_signature waiting_record signature,
        insert "a1" (with_signature waiting_record signature) desk.store,
      ))
    × (lookup "a1"
          (run_moves
            (begin_decline "s1" "eve" "a1" "too soon"
              ∷ sign_move "a1" signature
              ∷ finish_decline "s1"
              ∷ [])
            desk).store
        ≡ some (declined_record "eve" "too soon" 5 waiting_record))
unfolding lookup pending_record is_pending_at has_signature_from with_signature
    signatures_outstanding signatures_for
decline-drops_signature_example =
    decline-drops_signature desk "s1" "eve" "too soon" waiting_record signature refl refl refl refl
      refl refl

abbrev manager : Manager ℕ
manager = record {
  door = submit ports;
  ports = ("kafka", λ token item n. (none, suc n)) ∷ [];
  has_approvals = true;
  signer = true;
  floor = floor;
  transform = none;
  now = 5;
  quote = λ s. s;
  new_id = "a2";
}

abbrev world : World ℕ
world = record { log = empty_log; assets = 0; store = ("a1", waiting_record) ∷ [] }

apply_one-Handled_example :
    Handled ports manager ann "" "payments" topic world
      (apply_one (at_door ports manager) ann "" "payments" topic world)
apply_one-Handled_example = apply_one-Handled ports manager ann "" "payments" topic world

approve_citing-Approved_example :
    Approved ports manager ann "CHG1" world
      (approve_citing (at_door ports manager) ann "a1" "CHG1" world)
approve_citing-Approved_example = approve_citing-Approved ports manager ann "a1" "CHG1" world
