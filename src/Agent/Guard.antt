-- ===== src/Agent/Guard.antt =====
-- pkg/agentloop/guard.go: the policy that judges each tool call. Effects and reasons are texts, as
-- in the source; a rule is a function of the request.
pub mod Strictest
pub mod ReadOnly
use leartech_go_common.Base.{
  ℕ, Bool, true, false, Option, none, some, List, [], ◌∷◌, ◌++◌, Text, codes, text_eq, is_empty,
  ltb, if◌then◌else◌,
}

abbrev pub Effect : Type 0
Effect = Text

unfoldable pub reads : Effect
reads = codes "reads"

unfoldable pub spends : Effect
spends = codes "spends"

unfoldable pub writes : Effect
writes = codes "writes"

unfoldable pub executes : Effect
executes = codes "executes"

pub data Verdict : Type 0 where
  allow ask deny : Verdict

-- The order of the constants, which `v > worst` compares.
abbrev pub rank : Verdict → ℕ
rank allow = 0
rank ask = 1
rank deny = 2

pub record Request : Type 0 where
  pub tool : Text
  pub effect : Effect
  pub args : Text

abbrev pub Rule : Type 0
Rule = Request → Verdict × Text

pub record Policy : Type 0 where
  pub rules : List Rule

unfoldable pub new_policy : List Rule → Policy
new_policy rules = record { rules = rules }

unfoldable pub add_rule : Policy → Rule → Policy
add_rule p r = record { rules = p.rules ++ r ∷ [] }

-- One round of the loop of `Decide`, over `worst` and `why`.
unfoldable pub tighten : Verdict × Text → Verdict × Text → Verdict × Text
tighten (worst, why) (v, reason) = if ltb (rank worst) (rank v) then (v, reason) else (worst, why)

-- The loop, with `matched` as its last variable.
unfoldable pub judge : List Rule → Request → Verdict × Text → Bool → (Verdict × Text) × Bool
judge [] req worst matched = (worst, matched)
judge (rule ∷ rules) req worst matched = judge rules req (tighten worst (rule req)) true

unfoldable pub no_policy : Text
no_policy = codes "no policy is configured, so nothing is permitted"

unfoldable pub no_rule : Text
no_rule = codes "no rule covered this call"

unfoldable pub decide : Policy → Request → Verdict × Text
unfolding judge tighten no_policy no_rule
decide p req =
    if is_empty p.rules
    then (deny, no_policy)
    else (let (worst, matched) = judge p.rules req (allow, []) false in
        if matched then worst else (deny, no_rule))

unfoldable pub for_effect : Effect → Verdict → Text → Rule
for_effect e v reason req = if text_eq req.effect e then (v, reason) else (allow, [])

unfoldable pub for_effect_reason : Effect → Verdict → (Request → Text) → Rule
for_effect_reason e v reason req = if text_eq req.effect e then (v, reason req) else (allow, [])

unfoldable pub for_tool : Text → Verdict → Text → Rule
for_tool name v reason req = if text_eq req.tool name then (v, reason) else (allow, [])

unfoldable pub read_only_reason : Text
read_only_reason = codes "this shell is read-only"

unfoldable pub read_only : Policy
unfolding new_policy
read_only = new_policy (
    for_effect reads allow []
    ∷ for_effect writes deny read_only_reason
    ∷ for_effect executes deny read_only_reason
    ∷ [])

unfoldable pub refusal : Request → Text → Text
refusal req reason =
    let said = if is_empty reason then codes "the policy does not permit it" else reason in
    codes "refused: " ++ req.tool ++ codes " (" ++ req.effect ++ codes ") — " ++ said
