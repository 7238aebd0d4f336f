-- ===== src/Examples/Guards.antt =====
-- pkg/agentloop/guard.go and tools.go at concrete policies and registries.
use leartech_go_common.Base.{
  ℕ, suc, ◌≡◌, ◌≢◌, refl, ◌||◌, true, false, [], ◌∷◌, codes, some, none, text_eq, if◌then◌else◌,
}
use leartech_go_common.Agent.Guard.{
  allow, ask, deny, Request, Rule, Policy, writes, executes, decide, judge, tighten, refusal,
  read_only_reason,
}
use leartech_go_common.Agent.Guard.Strictest.{strictest, decide-strictest}
use leartech_go_common.Agent.Tools.{
  Tool, Registry, new_registry, find, add, run, perform, request_of, add_new,
}
use leartech_go_common.Agent.Tools.Gate.{run_gated, new_registry_read_only, passes, asked, said_no}
use leartech_go_common.Agent.Tools.Names.{add_all}

abbrev ask_writes : Rule
ask_writes req = if text_eq req.effect (codes "writes") then (ask, codes "check") else (allow, [])

abbrev deny_rm : Rule
deny_rm req = if text_eq req.tool (codes "rm") then (deny, codes "never") else (allow, [])

abbrev two_rules : Policy
two_rules = record { rules = ask_writes ∷ deny_rm ∷ [] }

abbrev swapped_rules : Policy
swapped_rules = record { rules = deny_rm ∷ ask_writes ∷ [] }

abbrev write_request : Request
write_request = record { tool = codes "edit"; effect = codes "writes"; args = codes "{}" }

decide-strictest_example :
    (decide two_rules write_request).0 ≡ strictest write_request two_rules.rules
decide-strictest_example = decide-strictest two_rules write_request (λ e. cc)

verdict_asks : (decide two_rules write_request).0 ≢ allow
unfolding decide judge tighten codes text_eq
verdict_asks e = cc

-- A tool that counts how often it ran, in a registry whose outside is that count.
abbrev counter : Tool ℕ
counter = record {
  name = codes "edit";
  description = [];
  schema = [];
  run = λ args w. ((codes "done", none), suc w);
  effect = codes "writes";
  preview = none;
}

abbrev open_registry : Registry ℕ
open_registry = record {
  tools = (codes "edit", counter) ∷ [];
  order = codes "edit" ∷ [];
  policy = two_rules;
  approver = λ req reason w. (true, w);
}

edit_found : find (codes "edit") open_registry.tools ≡ some counter
unfolding find codes text_eq
edit_found = refl

edit_added :
    find (codes "edit") (add_all (counter ∷ []) (new_registry {W = ℕ})).tools ≡ some counter
unfolding find codes text_eq add new_registry add_new
edit_added = refl

writes_filled : counter.effect ≢ []
unfolding codes
writes_filled e = cc

run_gated_example : run (λ t. t) open_registry (codes "edit") (codes "{}") 0 ≡ (
    let req = request_of counter (codes "{}") in
    let v = decide two_rules req in
    if passes v open_registry.approver req 0
    then perform counter (codes "{}") (asked v open_registry.approver req 0)
    else ((refusal req (said_no v), false), asked v open_registry.approver req 0))
run_gated_example =
    run_gated (λ t. t) open_registry (codes "edit") (codes "{}") 0 counter edit_found

new_registry_read_only_example :
    run (λ t. t) (add_all (counter ∷ []) new_registry) (codes "edit") (codes "{}") 0 ≡ (
      if text_eq counter.effect writes || text_eq counter.effect executes
      then ((refusal (request_of counter (codes "{}")) read_only_reason, false), 0)
      else perform counter (codes "{}") 0)
new_registry_read_only_example =
    new_registry_read_only (λ t. t) (counter ∷ []) (codes "edit") (codes "{}") 0 counter edit_added
