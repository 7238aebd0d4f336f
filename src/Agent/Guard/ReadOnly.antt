-- ===== src/Agent/Guard/ReadOnly.antt =====
-- What `ReadOnly` permits.
use leartech_go_common.Base.{◌≡◌, ◌||◌, [], arith, text_eq, if◌then◌else◌}
use leartech_go_common.Agent.Guard.{
  allow, deny, Request, decide, read_only, read_only_reason, for_effect, writes, executes,
}

-- The read-only policy refuses exactly the two effects `writes` and `executes`, with its reason.
-- Every other effect is permitted: reading, and also `spends` and any text that names no effect.
pub decide-read_only :
    (req : Request)
    → decide read_only req ≡ (
        if text_eq req.effect writes || text_eq req.effect executes
        then (deny, read_only_reason)
        else (allow, []))
unfolding decide read_only for_effect
decide-read_only req = ground arith
