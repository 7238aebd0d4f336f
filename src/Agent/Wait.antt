-- ===== src/Agent/Wait.antt =====
-- pkg/agentloop/wait.go and exec.go: the timeout that a call asks for, and the quoting of its command.
-- A `time.Duration` is a 64-bit count of nanoseconds.
pub mod Clamp
pub mod Quote
use leartech_go_common.Base.{
  ℕ, ◌*◌, ◌^◌, Bool, true, false, Option, none, some, List, [], ◌∷◌, ◌++◌, Text, ◌==◌,
  if◌then◌else◌,
}
use leartech_go_common.Base.Int.{ℤ, pos, negsuc, pos_part, wrap_int, ltb_ℤ, leb_ℤ}

-- `time.Second`
abbrev pub second : ℕ
second = 1000000000

-- `MaxWaitTimeout` and `MaxExecTimeout`
abbrev pub max_wait_timeout : ℤ
max_wait_timeout = pos 3600000000000

abbrev pub max_exec_timeout : ℤ
max_exec_timeout = pos 1800000000000

-- `time.Duration(seconds) * time.Second` of seconds that are positive.
unfoldable pub in_seconds : ℤ → ℤ
unfolding wrap_int
in_seconds seconds = wrap_int (pos (pos_part seconds * second))

-- The effective timeout, with the timeout that the note says was asked for, where there is a note.
unfoldable pub clamp_timeout : ℤ → ℤ → ℤ → ℤ × Option ℤ
unfolding in_seconds
clamp_timeout ceiling seconds default =
    if leb_ℤ seconds (pos 0)
    then (default, none)
    else if ltb_ℤ ceiling (in_seconds seconds)
    then (ceiling, some (in_seconds seconds))
    else (in_seconds seconds, none)

unfoldable pub clamp_wait_timeout : ℤ → ℤ → ℤ × Option ℤ
unfolding clamp_timeout
clamp_wait_timeout seconds default = clamp_timeout max_wait_timeout seconds default

unfoldable pub clamp_exec_timeout : ℤ → ℤ → ℤ × Option ℤ
unfolding clamp_timeout
clamp_exec_timeout seconds default = clamp_timeout max_exec_timeout seconds default

-- `strings.ReplaceAll(s, "'", "'\\''")`
unfoldable pub escape_quotes : Text → Text
escape_quotes [] = []
escape_quotes (c ∷ s) =
    if c == 0x27 then 0x27 ∷ 0x5C ∷ 0x27 ∷ 0x27 ∷ escape_quotes s else c ∷ escape_quotes s

unfoldable pub sh_single_quote : Text → Text
unfolding escape_quotes
sh_single_quote s = 0x27 ∷ (escape_quotes s ++ 0x27 ∷ [])
