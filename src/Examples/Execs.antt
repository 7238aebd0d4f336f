-- ===== src/Examples/Execs.antt =====
-- The registry of running scripts with two files: one of a shell that lives, one of a shell that is
-- gone. The state is the list of the groups signalled and the list of the files removed.
use leartech_go_common.Base.{
  ◌≡◌, refl, true, false, none, some, List, [], ◌∷◌, Text, codes, text_eq, if◌then◌else◌,
}
use leartech_go_common.Base.Int.{ℤ, pos, negsuc, ◌-ℤ◌, eq_ℤ}
use leartech_go_common.Base.Results.{ok}
use leartech_go_common.Agent.Exec.{Entry, ExecPorts, killed, kill_failed, kill_entry, unknown_pid}
use leartech_go_common.Agent.Exec.Known.{kill_entry-frame}

abbrev script : ℤ → ℤ → Entry
script pid shell = record {
  pid = pid;
  shell_pid = shell;
  session_id = [];
  tool = codes "local__bash";
  what = codes "make";
  started = pos 5;
}

abbrev World : Type 0
World = List ℤ × List Text

abbrev machine : ExecPorts World
machine = record {
  make_dir = λ w. (true, w);
  write_file = λ name b w. (true, w);
  remove = λ name w. (w.0, name ∷ w.1);
  read_dir =
      λ w. ok ((codes "42.json", false) ∷ (codes "43.json", false) ∷ (codes "x", false) ∷ []);
  read_file = λ name w. some name;
  marshal = λ e. none;
  unmarshal = λ b.
      if text_eq b (codes "42.json")
      then some (script (pos 42) (pos 7))
      else some (script (pos 43) (pos 8));
  probe = λ pid w. if eq_ℤ pid (pos 7) then killed else kill_failed (codes "no such process");
  kill = λ pid signal w. (killed, (pid ∷ w.0, w.1));
}

-- The script of the living shell is signalled, and the other entry is removed.
kills_live :
    kill_entry machine (pos 42) false ([], []) ≡ (none, (negsuc 41 ∷ [], codes "43.json" ∷ []))
unfolding kill_entry codes text_eq ◌-ℤ◌
kills_live = refl

refuses_gone :
    kill_entry machine (pos 43) true ([], [])
    ≡ (some (unknown_pid (pos 43)), ([], codes "43.json" ∷ []))
unfolding kill_entry codes text_eq ◌-ℤ◌
refuses_gone = refl

abbrev OnlyGroup : ℤ → List ℤ → Type 0
OnlyGroup z [] = Unit
OnlyGroup z (x ∷ xs) = (x ≡ z) × OnlyGroup z xs

kill_entry-frame_example :
    OnlyGroup (pos 0 -ℤ pos 42) (kill_entry machine (pos 42) false ([], [])).1.0
kill_entry-frame_example =
    kill_entry-frame machine (λ w. OnlyGroup (pos 0 -ℤ pos 42) w.0) (pos 42) false ([], [])
      (λ name u json h. h) (λ e signal u live same h. (refl, h)) tt
