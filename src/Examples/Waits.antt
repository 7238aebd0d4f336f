-- ===== src/Examples/Waits.antt =====
-- pkg/agentloop/wait.go at concrete calls.
use leartech_go_common.Base.{ℕ, ◌≡◌, refl, none, some, codes}
use leartech_go_common.Base.Int.{pos, negsuc, wrap_int}
use leartech_go_common.Agent.Wait.{clamp_wait_timeout, sh_single_quote}
use leartech_go_common.Agent.Wait.Quote.{outside, sh_word, sh_single_quote-sh_word}

abbrev two_hours : ℕ
two_hours = 7200

-- One second more than the nanoseconds have room for is a negative timeout, and no note.
overflow : clamp_wait_timeout (pos 9223372037) (pos 5) ≡ (negsuc 9223372036709551615, none)
unfolding clamp_wait_timeout wrap_int
overflow = refl

sh_single_quote-sh_word_example :
    sh_word outside (sh_single_quote (codes "echo 'a b'")) ≡ some (codes "echo 'a b'")
sh_single_quote-sh_word_example = sh_single_quote-sh_word (codes "echo 'a b'")
