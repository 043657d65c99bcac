-- ===== src/Change.antt =====
-- mantlekeep-control/grants/change.go: a change to who may do what, governed by the door. The
-- policy source is what its Load returns, the writer a function on what it writes to, and the
-- quoting of the verb %q a parameter.
use mantlekeep.Prelude.{
  String, Bool, Option, none, some, [], ◌∷◌, if◌then◌else◌, ◌==◌, Result, ok, err, ℕ, not, ◌≡◌,
  Bool-cases, Option-cases, true, inl, inr, refl,
}
use mantlekeep.Prelude.Text.{concat, trim_space}
use mantlekeep.Contracts.{Subject, Intent, ExecutionToken, Error, text, flag, valid}
use mantlekeep.Audit.{Bolt}
use mantlekeep.Door.{Ports, submit}
use mantlekeep.Door.Evidence.{Granted, submit-token}

pub record Change : Type 0 where
  pub role : String
  pub action : String
  pub grant : Bool
  pub reason : String

pub data ChangeError : Type 0 where
  no_role no_action no_reason no_door read_only unreadable expired not_applied : ChangeError
  refused_by_door : Error → ChangeError

-- Validate: `none` for a change that can be reviewed.
unfoldable pub validate : Change → Option ChangeError
validate c =
    if trim_space c.role == ""
    then some no_role
    else if trim_space c.action == ""
    then some no_action
    else if trim_space c.reason == ""
    then some no_reason
    else none

abbrev pub verb : Change → String
verb c = if c.grant then "granting" else "revoking"

abbrev pub describe : (String → String) → Change → String
describe quote c = concat (verb c) (
    concat " " (
      concat (quote c.action) (
        concat (if c.grant then " to " else " from ")
          (concat (quote c.role) (concat ": " c.reason)))))

abbrev pub action_grant_policy : String
action_grant_policy = "policy.grant"

abbrev pub grant_intent : (String → String) → Subject → Change → String → Intent
grant_intent quote actor c before = record {
  id = "";
  subject = actor;
  action = action_grant_policy;
  resource = "";
  spec = record {
    goal = describe quote c;
    affected_systems = [];
    risk_level = "";
    preconditions = [];
    postconditions = [];
    rollback_plan = "";
  };
  params =
      ("role", text c.role)
      ∷ ("target", text c.action)
      ∷ ("grant", flag c.grant)
      ∷ ("reason", text c.reason)
      ∷ ("revision", text before)
      ∷ [];
  submitted_at = 0;
  ttl = 0;
  via = "";
}

abbrev pub Submitter : Type 0
Submitter = Bolt → Intent → Result Error ExecutionToken × Bolt

-- A Writer over what it writes to.
abbrev pub Writer : Type 0 → Type 0
Writer P = P → Change → Result String String × P

-- What Govern leaves: its answer, the log and the policy.
abbrev pub ChangeOutcome : Type 0 → Type 0
ChangeOutcome P = Result ChangeError String × (Bolt × P)

-- The change can be reviewed, and the door granted it: the record of the allow is on the log and
-- the token is still valid.
pub record Authorised (quote : String → String) (p : Ports) (now : ℕ) (actor : Subject) (c : Change)
    (b b' : Bolt) : Type 0 where
  pub reviewable : validate c ≡ none
  pub before : String
  pub token : ExecutionToken
  pub on_record : Granted p b b' (grant_intent quote actor c before) token
  pub live : valid token now ≡ true

module _ {P : Type 0} where
  abbrev pub written : Bolt → Result String String × P → ChangeOutcome P
  written b (ok revision, w) = (ok revision, (b, w))
  written b (err e, w) = (err not_applied, (b, w))

  -- From the door's answer on.
  abbrev pub answered :
      Writer P → ℕ → Change → P → Result Error ExecutionToken × Bolt → ChangeOutcome P
  answered write now c w (err e, b) = (err (refused_by_door e), (b, w))
  answered write now c w (ok token, b) =
      if not (valid token now) then (err expired, (b, w)) else written b (write w c)

  abbrev pub submitted :
      (String → String)
      → Submitter
      → Writer P
      → ℕ
      → Subject
      → Change
      → Bolt
      → P
      → Result String String
      → ChangeOutcome P
  submitted quote door write now actor c b w (err e) = (err unreadable, (b, w))
  submitted quote door write now actor c b w (ok before) =
      answered write now c w (door b (grant_intent quote actor c before))

  abbrev pub with_ports :
      (String → String)
      → Option Submitter
      → Option (Writer P)
      → ℕ
      → Subject
      → Result String String
      → Change
      → Bolt
      → P
      → ChangeOutcome P
  with_ports quote none writer now actor source c b w = (err no_door, (b, w))
  with_ports quote (some door) none now actor source c b w = (err read_only, (b, w))
  with_ports quote (some door) (some write) now actor source c b w =
      submitted quote door write now actor c b w source

  abbrev pub unless_invalid : Option ChangeError → Bolt → P → ChangeOutcome P → ChangeOutcome P
  unless_invalid none b w next = next
  unless_invalid (some e) b w next = (err e, (b, w))

  unfoldable pub govern :
      (String → String)
      → Option Submitter
      → Option (Writer P)
      → ℕ
      → Subject
      → Result String String
      → Change
      → Bolt
      → P
      → ChangeOutcome P
  unfolding validate
  govern quote door writer now actor source c b w =
      unless_invalid (validate c) b w (with_ports quote door writer now actor source c b w)

  -- Nothing written, or written with authority.
  pub data Governed (quote : String → String) (p : Ports) (write : Writer P) (now : ℕ)
      (actor : Subject) (c : Change) (b : Bolt) (w : P) : ChangeOutcome P → Type 0 where
    untouched :
        (e : ChangeError) (b' : Bolt) → Governed quote p write now actor c b w (err e, (b', w))
    applied :
        (b' : Bolt)
        → Authorised quote p now actor c b b'
        → Governed quote p write now actor c b w (written b' (write w c))

  answered-Governed :
      (quote : String → String) (p : Ports) (write : Writer P) (now : ℕ) (actor : Subject)
      (c : Change) (b : Bolt) (w : P) (before : String) (x : Result Error ExecutionToken × Bolt)
      → validate c ≡ none
      → submit p b (grant_intent quote actor c before) ≡ x
      → Governed quote p write now actor c b w (answered write now c w x)
  answered-Governed quote p write now actor c b w before (err e, b') v h =
      untouched (refused_by_door e) b'
  answered-Governed quote p write now actor c b w before (ok t, b') v h =
      elim (Bool-cases (valid t now)) [
        | inl l ↦ rw l (
            applied b' (record {
              reviewable = v;
              before = before;
              token = t;
              on_record = submit-token p b b' (grant_intent quote actor c before) t h;
              live = l;
            }))
        | inr l ↦ rw l (untouched expired b')
      ]

  submitted-Governed :
      (quote : String → String) (p : Ports) (write : Writer P) (now : ℕ) (actor : Subject)
      (c : Change) (b : Bolt) (w : P) (source : Result String String)
      → validate c ≡ none
      → Governed quote p write now actor c b w
          (submitted quote (submit p) write now actor c b w source)
  submitted-Governed quote p write now actor c b w (err e) v = untouched unreadable b
  submitted-Governed quote p write now actor c b w (ok before) v =
      answered-Governed quote p write now actor c b w before
        (submit p b (grant_intent quote actor c before)) v refl

  -- No policy change without evidence. Govern over the door either returns an error and leaves the
  -- policy as it was, or its outcome is that of the writer on this change, the change has a role,
  -- an action and a reason, the door issued a token for the intent that states it, still valid, and
  -- the record of that allow is the newest on the log.
  pub govern-Governed :
      (quote : String → String) (p : Ports) (write : Writer P) (now : ℕ) (actor : Subject)
      (source : Result String String) (c : Change) (b : Bolt) (w : P)
      → Governed quote p write now actor c b w
          (govern quote (some (submit p)) (some write) now actor source c b w)
  unfolding govern
  govern-Governed quote p write now actor source c b w = elim (Option-cases (validate c)) [
    | inl v ↦ rw v (submitted-Governed quote p write now actor c b w source v)
    | inr (e, v) ↦ rw v (untouched e b)
  ]
