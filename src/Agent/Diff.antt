-- ===== src/Agent/Diff.antt =====
-- pkg/agentloop/diff.go: the line diff that an operator approves. An index into a slice is the
-- suffix from there on; the table of `lcs` is the list of its rows.
pub mod Rebuild
pub mod Context
use Prim.Native.Nat.{max}
use leartech_go_common.Base.{
  ℕ, zero, suc, ◌+◌, ◌-◌, Bool, true, false, not, ◌&&◌, ◌||◌, List, [], ◌∷◌, ◌++◌, map, Text, codes,
  text_eq, has_prefix, decimal, length, take, is_empty, get_or, ltb, leb, ◌==◌, if◌then◌else◌,
}

abbrev diff_context : ℕ
diff_context = 3

abbrev max_diff_lines : ℕ
max_diff_lines = 120

abbrev newline : ℕ
newline = 0x0A

-- `strings.TrimSuffix(s, "\n")`
unfoldable pub trim_suffix : Text → Text
trim_suffix [] = []
trim_suffix (c ∷ []) = if c == newline then [] else c ∷ []
trim_suffix (c ∷ d ∷ s) = c ∷ trim_suffix (d ∷ s)

-- `strings.Split(s, "\n")`, with the part read so far.
unfoldable pub split_from : Text → Text → List Text
split_from part [] = part ∷ []
split_from part (c ∷ s) =
    let cut = split_from [] s in
    let on = split_from (part ++ c ∷ []) s in if c == newline then part ∷ cut else on

unfoldable pub split_lines : Text → List Text
unfolding trim_suffix split_from
split_lines s = if is_empty s then [] else split_from [] (trim_suffix s)

-- One row of the table, from the row below it.
unfoldable pub table_row : Text → List Text → List ℕ → List ℕ
table_row x [] below = 0 ∷ []
table_row x (y ∷ b) [] = 0 ∷ []
table_row x (y ∷ b) (n ∷ below) =
    let row = table_row x b below in
    (if text_eq x y then get_or below 0 0 + 1 else max n (get_or row 0 0)) ∷ row

zeros : List Text → List ℕ
zeros [] = 0 ∷ []
zeros (y ∷ b) = 0 ∷ zeros b

-- The rows of the suffixes of `a`, the longest first.
unfoldable pub lcs_table : List Text → List Text → List (List ℕ)
unfolding table_row zeros
lcs_table [] b = zeros b ∷ []
lcs_table (x ∷ a) b = let below = lcs_table a b in table_row x b (get_or below 0 []) ∷ below

-- `table[i][j]`
unfoldable pub entry : List (List ℕ) → ℕ → ℕ → ℕ
entry table i j = get_or (get_or table i []) j 0

-- The walk from the top left corner, at `i` and `j`.
unfoldable pub walk : List (List ℕ) → List Text → List Text → ℕ → ℕ → List Text
walk table [] b i j = []
walk table (x ∷ a) [] i j = []
walk table (x ∷ a) (y ∷ b) i j =
    let both = walk table a b (suc i) (suc j) in
    let down = walk table a (y ∷ b) (suc i) j in
    let right = walk table (x ∷ a) b i (suc j) in
    if text_eq x y
    then x ∷ both
    else if leb (entry table i (suc j)) (entry table (suc i) j)
    then down
    else right

unfoldable pub lcs : List Text → List Text → List Text
unfolding lcs_table walk entry
lcs a b = if is_empty a || is_empty b then [] else walk (lcs_table a b) a b 0 0

-- The three kinds of lines: `"- " + l`, `"+ " + l` and `"  " + l`.
abbrev pub removed_line : Text → Text
removed_line l = 0x2D ∷ 0x20 ∷ l

abbrev pub added_line : Text → Text
added_line l = 0x2B ∷ 0x20 ∷ l

abbrev pub same_line : Text → Text
same_line l = 0x20 ∷ 0x20 ∷ l

-- The lines up to the first one that is `c`, and the rest from there on.
unfoldable pub lines_before : Text → List Text → List Text
lines_before c [] = []
lines_before c (x ∷ a) = let rest = lines_before c a in if text_eq x c then [] else x ∷ rest

unfoldable pub lines_after : Text → List Text → List Text
lines_after c [] = []
lines_after c (x ∷ a) = let rest = lines_after c a in if text_eq x c then a else rest

-- The loop over the common lines, and the two loops after it.
unfoldable pub emit : List Text → List Text → List Text → List Text
unfolding lines_before lines_after
emit a b [] = map removed_line a ++ map added_line b
emit a b (c ∷ common) =
    map removed_line (lines_before c a)
    ++ (map added_line (lines_before c b)
        ++ (same_line c ∷ emit (lines_after c a) (lines_after c b) common))

unfoldable pub diff_lines : Text → Text → List Text
unfolding split_lines lcs emit
diff_lines old new = let a = split_lines old in let b = split_lines new in emit a b (lcs a b)

-- `strings.HasPrefix(l, "  ")` is the test for an unchanged line.
unfoldable pub is_change : Text → Bool
is_change l = not (has_prefix l (0x20 ∷ 0x20 ∷ []))

-- `keep` with the window around index `i` set; the flags start at index `k`.
unfoldable pub mark : ℕ → ℕ → List Bool → List Bool
mark i k [] = []
mark i k (flag ∷ flags) =
    (flag || (leb i (k + diff_context) && leb k (i + diff_context))) ∷ mark i (suc k) flags

-- The first loop of `trimContext`, over the lines from index `i` on.
unfoldable pub mark_changes : ℕ → List Text → List Bool → List Bool
unfolding mark is_change
mark_changes i [] keep = keep
mark_changes i (l ∷ ls) keep = mark_changes (suc i) ls (if is_change l then mark i 0 keep else keep)

unfoldable pub none_kept : List Text → List Bool
none_kept [] = []
none_kept (l ∷ ls) = false ∷ none_kept ls

-- `"  …"`, in UTF-8.
abbrev pub gap_line : Text
gap_line = 0x20 ∷ 0x20 ∷ 0xE2 ∷ 0x80 ∷ 0xA6 ∷ []

-- The second loop, with `skipping`.
unfoldable pub keep_lines : List Text → List Bool → Bool → List Text
keep_lines [] keep skipping = []
keep_lines (l ∷ ls) [] skipping = []
keep_lines (l ∷ ls) (flag ∷ keep) skipping =
    let rest = keep_lines ls keep (not flag) in
    if flag then (if skipping then gap_line ∷ l ∷ rest else l ∷ rest) else rest

unfoldable pub trim_context : List Text → List Text
unfolding mark_changes none_kept keep_lines
trim_context lines = keep_lines lines (mark_changes 0 lines (none_kept lines)) false

unfoldable pub count_prefix : Text → List Text → ℕ
count_prefix prefix [] = 0
count_prefix prefix (l ∷ ls) =
    let rest = count_prefix prefix ls in if has_prefix l prefix then suc rest else rest

unfoldable pub write_lines : List Text → Text
write_lines [] = []
write_lines (l ∷ ls) = l ++ (newline ∷ write_lines ls)

-- `strings.TrimRight(s, "\n")`
unfoldable pub trim_right : Text → Text
trim_right [] = []
trim_right (c ∷ s) =
    let rest = trim_right s in if is_empty rest && (c == newline) then [] else c ∷ rest

unfoldable pub cut_note : ℕ → Text
cut_note cut =
    if ltb 0 cut
    then newline
      ∷ (codes "… "
          ++ (decimal cut
              ++ codes
                  " more diff line(s) not shown. A change this large is one to read with git, not to approve from a prompt.\n"))
    else []

unfoldable pub render : List Text → Text
unfolding count_prefix write_lines trim_right cut_note
render lines =
    let added = count_prefix (added_line []) lines in
    let removed = count_prefix (removed_line []) lines in
    trim_right (
      decimal added
      ++ (codes " line(s) added, "
          ++ (decimal removed
              ++ (codes " removed\n"
                  ++ (write_lines (take max_diff_lines lines)
                      ++ cut_note (length lines - max_diff_lines))))))

unfoldable pub unified_diff : Text → Text → Text
unfolding diff_lines trim_context render
unified_diff old new = if text_eq old new then [] else render (trim_context (diff_lines old new))
