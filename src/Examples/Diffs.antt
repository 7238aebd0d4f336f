-- ===== src/Examples/Diffs.antt =====
-- pkg/agentloop/diff.go at two concrete files.
use leartech_go_common.Base.{◌≡◌, refl, [], ◌∷◌, Text, codes, text_eq, select, has_prefix, decimal}
use leartech_go_common.Agent.Diff.{diff_lines, split_lines, trim_context, unified_diff}
use leartech_go_common.Agent.Diff.Rebuild.{old_side, new_side, diff_lines-sides}
use leartech_go_common.Agent.Diff.Context.{changed, trim_context_changes}

abbrev old_file : Text
old_file = codes "one\ntwo\nthree\n"

abbrev new_file : Text
new_file = codes "one\n2\nthree\n"

diff_lines-sides_example :
    (old_side (diff_lines old_file new_file) ≡ split_lines old_file)
    × (new_side (diff_lines old_file new_file) ≡ split_lines new_file)
diff_lines-sides_example = diff_lines-sides old_file new_file

trim_context_changes_example :
    select changed (trim_context (diff_lines old_file new_file))
    ≡ select changed (diff_lines old_file new_file)
trim_context_changes_example = trim_context_changes (diff_lines old_file new_file)

diff_lines_run :
    diff_lines (codes "a\nb\nc\n") (codes "a\nx\nc")
    ≡ codes "  a" ∷ codes "- b" ∷ codes "+ x" ∷ codes "  c" ∷ []
unfolding diff_lines codes text_eq
diff_lines_run = refl

-- Two files that differ only in the line end of the last line: the diff shows no change.
trailing_newline_run : unified_diff (codes "a\n") (codes "a") ≡ codes "0 line(s) added, 0 removed"
unfolding unified_diff codes text_eq has_prefix decimal
trailing_newline_run = refl
