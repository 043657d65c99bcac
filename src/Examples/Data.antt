-- ===== src/Examples/Data.antt =====
-- One small deployment: its documents, its engine and its subjects.
use Prim.Native.Char.{code}
use Prim.Native.Nat.{◌*◌, ℕ}
use mantlekeep.Grants.{GrantsDoc, ProductDoc, FloorRule, Floors}
use Prim.Native.String.{String, [], ◌∷◌}
use mantlekeep.Policy.Floor.Quantity.{FloatOps}
use mantlekeep.Contracts.{Role, PolicyInput, text, string_map}
use mantlekeep.Policy.Engine.{Snapshot, build_snapshot}
use mantlekeep.Prelude.{[], ◌∷◌, Option, leb, Bool, some, if◌then◌else◌, ◌==◌, ◌+◌, none, ◌-◌, ◌&&◌}
use mantlekeep.Policy.Cascade.{Layer}

-- Texts of decimal digits as the quantities that can be read.
abbrev pub digits : ℕ → String → Option ℕ
digits n String.[] = some n
digits n (String.◌∷◌ c s) =
    let rest = digits (n * 10 + (code c - 48)) s in
    if leb 48 (code c) && leb (code c) 57 then rest else none

abbrev pub read_nat : String → Option ℕ
read_nat s = if s == "" then none else digits 0 s

abbrev pub nat_floats : FloatOps
nat_floats = record {
  Float = ℕ;
  parse_float = read_nat;
  times = λ a b. a * b;
  of_nat = λ n. n;
  milli = 0;
  le = leb;
}

abbrev pub architect : Role
architect = "L1-Architect"

abbrev pub operator : Role
operator = "L2-Operator"

abbrev pub no_rule : FloorRule
no_rule = record {
  kind = "";
  param = "";
  values = [];
  caps = [];
  when_param = "";
  when_in = [];
  when_value = "";
  pattern' = "";
  role = "";
  message = "";
}

abbrev pub cpu_rule : FloorRule
cpu_rule = record no_rule {
  kind = "capped_map";
  param = "resources";
  caps = ("cpu", "8") ∷ [];
  message = "over the cap";
}

abbrev pub silent_rule : FloorRule
silent_rule = record no_rule { kind = "allowlist"; param = "region"; values = "eu" ∷ [] }

abbrev pub prod_rule : FloorRule
prod_rule = record no_rule {
  kind = "require_approval_when";
  when_param = "env";
  when_value = "prod";
  role = architect;
}

abbrev pub base_floors : Floors
base_floors = ("deploy.run", cpu_rule ∷ prod_rule ∷ []) ∷ []

abbrev pub baseline : GrantsDoc
baseline = record {
  role_actions = (operator, "deploy.run" ∷ []) ∷ (architect, "deploy.approve" ∷ []) ∷ [];
  approval_actions = "deploy.approve" ∷ [];
}

abbrev pub platform : ProductDoc
platform = record {
  role_actions = (operator, "secret.rotate" ∷ []) ∷ [];
  approval_actions = [];
  floors = [];
  sealed_actions = "secret.read" ∷ [];
  source = "platform.json";
}

abbrev pub product : ProductDoc
product = record {
  role_actions = ("L3-Consumer", "report.view" ∷ []) ∷ [];
  approval_actions = [];
  floors = ("deploy.run", silent_rule ∷ []) ∷ [];
  sealed_actions = [];
  source = "product.json";
}

abbrev pub snapshot : Snapshot
snapshot = build_snapshot baseline base_floors "acme"

-- A request of an operator to deploy in an environment, for an amount of cpu.
abbrev pub request : String → Bool → String → String → String → PolicyInput
request id is_ai requester env cpu = record {
  subject = record { id = id; roles = operator ∷ []; is_ai = is_ai; attrs = [] };
  intent = record {
    action = "deploy.run";
    resource = "cart";
    requester = requester;
    env = env;
    goal = "ship it";
    scope = "";
    params = ("env", text env) ∷ ("resources", string_map (("cpu", cpu) ∷ [])) ∷ [];
  };
}

-- The base layer binds the deployment to the architect and seals it; a team layer loosens it.
abbrev pub base_layer : Layer
base_layer = record {
  name = "base";
  action_roles = ("deploy.run", architect) ∷ [];
  sealed = "action:deploy.run" ∷ [];
  roles = [];
}

abbrev pub team_layer : Layer
team_layer = record {
  name = "team";
  action_roles = ("deploy.run", "L3-Consumer") ∷ ("report.view", "L3-Consumer") ∷ [];
  sealed = [];
  roles = [];
}
