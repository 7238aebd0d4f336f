-- ===== src/Agent/Wait/Quote.antt =====
-- How a shell reads a quoted command.
use leartech_go_common.Base.{
  ℕ, ◌≡◌, refl, arith, Bool-cases, inl, inr, Option, none, some, [], ◌∷◌, ◌++◌, Text, ◌==◌,
  if◌then◌else◌,
}
use leartech_go_common.Agent.Wait.{escape_quotes, sh_single_quote}

abbrev pub prepend : ℕ → Option Text → Option Text
prepend c none = none
prepend c (some s) = some (c ∷ s)

-- Where the shell reads: outside quotes, inside them, or after a backslash outside them.
pub data Reading : Type 0 where
  outside inside escaped : Reading

-- A word of single-quoted parts and escaped bytes, as POSIX reads it: no other byte may stand outside
-- quotes, and quotes must be closed.
abbrev pub sh_word : Reading → Text → Option Text
sh_word outside [] = some []
sh_word inside [] = none
sh_word escaped [] = none
sh_word inside (c ∷ s) =
    let on = prepend c (sh_word inside s) in
    let closed = sh_word outside s in if c == 0x27 then closed else on
sh_word escaped (c ∷ s) = prepend c (sh_word outside s)
sh_word outside (c ∷ s) =
    let opened = sh_word inside s in
    let next = sh_word escaped s in if c == 0x27 then opened else if c == 0x5C then next else none

escape_quotes-sh_word : (s : Text) → sh_word inside (escape_quotes s ++ 0x27 ∷ []) ≡ some s
unfolding escape_quotes
escape_quotes-sh_word [] = refl
escape_quotes-sh_word (c ∷ s) = elim (Bool-cases (c == 0x27)) [
  | inl quote ↦
      let same : c ≡ 0x27 = ground (arith, quote) in rw (quote, escape_quotes-sh_word s, same) refl
  | inr other ↦ rw (other, other, escape_quotes-sh_word s) refl
]

-- The shell reads a quoted command as that command.
pub sh_single_quote-sh_word : (s : Text) → sh_word outside (sh_single_quote s) ≡ some s
unfolding sh_single_quote
sh_single_quote-sh_word s = escape_quotes-sh_word s
