-- ===== src/Agent/Files/Lines.antt =====
-- pkg/agentloop/tools.go: which lines `readRangeUnder` gives.
use mathlib.Core.Path.{◌≡◌, refl, sym, ap, ◌∙◌, subst}
use leartech_go_common.Base.{
  ℕ, zero, suc, ◌+◌, ◌-◌, ◌≤◌, Bool, true, false, ◌&&◌, ◌||◌, Option, List, [], ◌∷◌, ◌++◌,
  append-nil, append_assoc, Text, length, length-append, take, drop, ltb, ◌==◌, Bool-cases, ◌⊎◌,
  inl, inr, arith,
}
use leartech_go_common.Base.Results.{Result, ok, err, ◌>>=◌}
use leartech_go_common.Agent.Files.{
  max_bytes, Range, range_too_large, range_line, range_lines, range_text, no_lines, range_of,
}

-- Every line with its end.
abbrev pub joined : List Text → Text
joined [] = []
joined (t ∷ ts) = t ++ 0x0A ∷ joined ts

-- The first `limit` lines, or all of them if the limit is 0.
abbrev pub limited : ℕ → List Text → List Text
limited zero ts = ts
limited (suc n) ts = take (suc n) ts

-- What is still to be taken of some lines when `taken` lines have been.
abbrev still : ℕ → ℕ → List Text → List Text
still zero taken ts = ts
still (suc n) taken ts = take (suc n - taken) ts

-- The state after `n` more lines, of which `chosen` are taken.
abbrev after : Range → ℕ → List Text → Range
after r n chosen = record {
  line = r.line + n;
  taken = r.taken + length chosen;
  body = r.body ++ joined chosen;
}

abbrev Outcome : Result Text Range → Range → Type 0
Outcome run end =
    (run ≡ ok end) ⊎ ((e : Text) × (run ≡ err e) × ltb max_bytes (length end.body) ≡ true)

same_range :
    {a b c d : ℕ} {s t : Text}
    → a ≡ b
    → c ≡ d
    → s ≡ t
    → ◌≡◌ {A = Range}
        (record { line = a; taken = c; body = s })
        (record { line = b; taken = d; body = t })
same_range e f g = cc

none_left : (n taken : ℕ) → (ltb 0 (suc n) && taken == suc n) ≡ true → suc n - taken ≡ 0
none_left n taken h = ground (arith, h)

one_left :
    (n taken : ℕ)
    → (suc n ≡ 0) ⊎ (taken ≤ suc n)
    → (ltb 0 (suc n) && taken == suc n) ≡ false
    → suc n - taken ≡ suc (suc n - suc taken)
one_left n taken h e = ground (arith, h, e)

still-all :
    (limit taken : ℕ) (t : Text) (ts : List Text)
    → (ltb 0 limit && taken == limit) ≡ true
    → (still limit taken (t ∷ ts) ≡ []) × (still limit taken ts ≡ [])
still-all zero taken t ts h = absurd (ground (arith, h))
still-all (suc n) taken t ts h = rw (none_left n taken h) (refl, refl)

still-next :
    (limit taken : ℕ) (t : Text) (ts : List Text)
    → ((limit ≡ 0) ⊎ (taken ≤ limit))
    → (ltb 0 limit && taken == limit) ≡ false
    → still limit taken (t ∷ ts) ≡ t ∷ still limit (suc taken) ts
still-next zero taken t ts h e = refl
still-next (suc n) taken t ts h e = ap (λ k. take k (t ∷ ts)) (one_left n taken h e)

-- A line after the last one that is taken.
skip_line :
    (name : Text) (offset limit : ℕ) (t : Text) (ts : List Text) (r : Range)
    → (ltb (suc r.line) offset || (ltb 0 limit && r.taken == limit)) ≡ true
    → range_lines name offset limit (t ∷ ts) r
      ≡ range_lines name offset limit ts (record r { line = suc r.line })
unfolding range_lines range_line
skip_line name offset limit t ts r h = rw h refl

line_taken :
    (name : Text) (offset limit : ℕ) (t : Text) (ts : List Text) (r : Range)
    → (ltb (suc r.line) offset || (ltb 0 limit && r.taken == limit)) ≡ false
    → ltb max_bytes (length r.body) ≡ false
    → range_lines name offset limit (t ∷ ts) r
      ≡ range_lines name offset limit ts
          (record { line = suc r.line; taken = suc r.taken; body = r.body ++ (t ++ 0x0A ∷ []) })
unfolding range_lines range_line
line_taken name offset limit t ts r h fits = rw (h, fits) refl

stop_line :
    (name : Text) (offset limit : ℕ) (t : Text) (ts : List Text) (r : Range)
    → (ltb (suc r.line) offset || (ltb 0 limit && r.taken == limit)) ≡ false
    → ltb max_bytes (length r.body) ≡ true
    → range_lines name offset limit (t ∷ ts) r ≡ err (range_too_large name offset (suc r.line))
unfolding range_lines range_line
stop_line name offset limit t ts r h big = rw (h, big) refl

after_skip :
    (r : Range) (n : ℕ) (chosen : List Text)
    → after (record r { line = suc r.line }) n chosen ≡ after r (suc n) chosen
after_skip r n chosen = same_range (omega arith) refl refl

after_take :
    (r : Range) (n : ℕ) (t : Text) (chosen : List Text)
    → after
        (record { line = suc r.line; taken = suc r.taken; body = r.body ++ (t ++ 0x0A ∷ []) })
        n
        chosen
      ≡ after r (suc n) (t ∷ chosen)
after_take r n t chosen = same_range (omega arith) (omega arith) (
    append_assoc r.body (t ++ 0x0A ∷ []) (joined chosen)
    ∙ ap (λ s. r.body ++ s) (append_assoc t (0x0A ∷ []) (joined chosen)))

after-nil : (r : Range) → after r 0 [] ≡ r
after-nil r = same_range (omega arith) (omega arith) (append-nil r.body)

too_long : (s t : Text) → ltb max_bytes (length s) ≡ true → ltb max_bytes (length (s ++ t)) ≡ true
too_long s t h = ground (arith, h, length-append s t)

transported :
    {run run' : Result Text Range} {end end' : Range}
    → run ≡ run'
    → end' ≡ end
    → Outcome run' end'
    → Outcome run end
transported {run} {run'} {end} {end'} e f o =
    subst (λ x. Outcome x end) (sym e) (subst (Outcome run') f o)

take-nil : (n : ℕ) → take {A = Text} n [] ≡ []
take-nil zero = refl
take-nil (suc n) = refl

still-nil : (limit taken : ℕ) → still limit taken [] ≡ []
still-nil zero taken = refl
still-nil (suc n) taken = take-nil (suc n - taken)

all_taken :
    (offset line limit taken : ℕ)
    → offset ≤ suc line
    → (ltb (suc line) offset || (ltb 0 limit && taken == limit)) ≡ true
    → (ltb 0 limit && taken == limit) ≡ true
all_taken offset line limit taken h e = ground (arith, h, e)

not_all_taken :
    (offset line limit taken : ℕ)
    → ((limit ≡ 0) ⊎ (taken ≤ limit))
    → (ltb (suc line) offset || (ltb 0 limit && taken == limit)) ≡ false
    → ((ltb 0 limit && taken == limit) ≡ false) × ((limit ≡ 0) ⊎ (suc taken ≤ limit))
not_all_taken offset line limit taken h e = ground (arith, h, e)

-- From the first line that is asked for on.
lines_taken :
    (name : Text) (offset limit : ℕ) (ts : List Text) (r : Range)
    → offset ≤ suc r.line
    → ((limit ≡ 0) ⊎ (r.taken ≤ limit))
    → Outcome (range_lines name offset limit ts r) (after r (length ts) (still limit r.taken ts))
unfolding range_lines
lines_taken name offset limit [] r h k =
    inl (ap ok (sym (ap (after r 0) (still-nil limit r.taken) ∙ after-nil r)))
lines_taken name offset limit (t ∷ ts) r h k =
    elim (Bool-cases (ltb (suc r.line) offset || (ltb 0 limit && r.taken == limit))) [
      | inl skip ↦
          let (nothing, nothing_after) =
            still-all limit r.taken t ts (all_taken offset r.line limit r.taken h skip) in
          transported (skip_line name offset limit t ts r skip)
            (after_skip r (length ts) (still limit r.taken ts)
              ∙ ap (after r (suc (length ts))) (nothing_after ∙ sym nothing))
            (lines_taken name offset limit ts (record r { line = suc r.line }) (omega arith) k)
      | inr wanted ↦ elim (Bool-cases (ltb max_bytes (length r.body))) [
        | inl big ↦ inr (
          range_too_large name offset (suc r.line),
          stop_line name offset limit t ts r wanted big,
          too_long r.body (joined (still limit r.taken (t ∷ ts))) big,
        )
        | inr fits ↦
            let (more, room) = not_all_taken offset r.line limit r.taken k wanted in
            transported (line_taken name offset limit t ts r wanted fits)
              (after_take r (length ts) t (still limit (suc r.taken) ts)
                ∙ ap (after r (suc (length ts))) (sym (still-next limit r.taken t ts k more)))
              (lines_taken name offset limit ts
                (record {
                  line = suc r.line;
                  taken = suc r.taken;
                  body = r.body ++ (t ++ 0x0A ∷ []);
                })
                (omega arith) room)
      ]
    ]

before_first :
    (offset line k : ℕ) (b : Bool)
    → offset ≡ line + suc (suc k)
    → (ltb (suc line) offset || b) ≡ true
before_first offset line k b e = ground (arith, e)

-- Up to the first line that is asked for.
lines_skipped :
    (name : Text) (offset limit k : ℕ) (ts : List Text) (r : Range)
    → r.taken ≡ 0
    → offset ≡ r.line + suc k
    → Outcome (range_lines name offset limit ts r) (after r (length ts) (still limit 0 (drop k ts)))
unfolding range_lines
lines_skipped name offset limit zero ts r h e =
    subst
      (λ n. Outcome (range_lines name offset limit ts r) (after r (length ts) (still limit n ts))) h
      (lines_taken name offset limit ts r (omega (arith, e)) (inr (omega (arith, h))))
lines_skipped name offset limit (suc k) [] r h e =
    inl (ap ok (sym (ap (after r 0) (still-nil limit 0) ∙ after-nil r)))
lines_skipped name offset limit (suc k) (t ∷ ts) r h e =
    transported
      (skip_line name offset limit t ts r
        (before_first offset r.line k (ltb 0 limit && r.taken == limit) e))
      (after_skip r (length ts) (still limit 0 (drop k ts)))
      (lines_skipped name offset limit k ts (record r { line = suc r.line }) h (omega arith))

all_left : (n : ℕ) → suc n - 0 ≡ suc n
all_left n = omega arith

still-limited : (limit : ℕ) (ts : List Text) → still limit 0 ts ≡ limited limit ts
still-limited zero ts = refl
still-limited (suc n) ts = ap (λ k. take k ts) (all_left n)

-- The lines that a range asks for.
abbrev pub range_chosen : ℕ → ℕ → List Text → List Text
range_chosen offset limit ts = limited limit (drop (offset - 1) ts)

abbrev range_end : ℕ → ℕ → List Text → Range
range_end offset limit ts = record {
  line = length ts;
  taken = length (range_chosen offset limit ts);
  body = joined (range_chosen offset limit ts);
}

range_lines-chosen :
    (name : Text) (offset limit : ℕ) (ts : List Text)
    → 1 ≤ offset
    → Outcome (range_lines name offset limit ts no_lines) (range_end offset limit ts)
range_lines-chosen name offset limit ts h =
    transported refl
      (ap (after no_lines (length ts)) (still-limited limit (drop (offset - 1) ts))
        ∙ same_range (omega arith) (omega arith) refl)
      (lines_skipped name offset limit (offset - 1) ts no_lines refl (omega (arith, h)))

range_of_known :
    (name : Text) (offset limit : ℕ) (run : Result Text Range) (end : Range) (e : Option Text)
    → Outcome run end
    → ((run >>= range_text name offset e) ≡ range_text name offset e end)
      ⊎ ((refused : Text) × ((run >>= range_text name offset e) ≡ err refused)
          × (ltb max_bytes (length end.body) ≡ true))
range_of_known name offset limit run end e (inl same) =
    inl (ap (λ r. r >>= range_text name offset e) same)
range_of_known name offset limit run end e (inr (refused, same, big)) =
    inr (refused, ap (λ r. r >>= range_text name offset e) same, big)

-- For an offset of at least 1, what `readRangeUnder` makes of the lines of a file and of the scanner's
-- error is what its last part makes of: the number of all the lines, the number of the lines from the
-- offset on, at most `limit` of them (or all of them if the limit is 0), and these lines, each with
-- its end. Or it is an error, and then these lines have more than `maxRangeBytes` bytes.
pub range_of-chosen :
    (name : Text) (offset limit : ℕ) (ts : List Text) (e : Option Text)
    → 1 ≤ offset
    → (range_of name offset limit (ts, e) ≡ range_text name offset e (range_end offset limit ts))
      ⊎ ((refused : Text) × (range_of name offset limit (ts, e) ≡ err refused)
          × (ltb max_bytes (length (joined (range_chosen offset limit ts))) ≡ true))
unfolding range_of
range_of-chosen name offset limit ts e h =
    range_of_known name offset limit (range_lines name offset limit ts no_lines)
      (range_end offset limit ts) e (range_lines-chosen name offset limit ts h)
