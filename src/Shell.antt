-- ===== src/Shell.antt =====
-- shell_loop of src/kernel.c: how a line is read as a command, with its arguments. A line is the list
-- of its bytes before the NUL; a byte that is looked at behind it reads 0.
pub mod Parse
pub mod Demo
pub mod Run
pub mod Room
pub mod Loop
pub mod Separate
pub mod Steady
pub mod Tests
use os_itsc.Base.{
  ℕ, zero, suc, ◌+◌, ◌-◌, ◌*◌, Bool, true, false, not, ◌&&◌, ◌||◌, List, [], ◌∷◌, ◌++◌, ℤ, pos,
  negsuc, ◌-ℤ◌, length, get_or, take, drop, ltb, leb, ◌==◌, if◌then◌else◌,
}
use os_itsc.Console.{text}
use os_itsc.Proc.Pipeline.{is_equal}
use os_itsc.Strings.{strncmp, is_pipeline}

-- What the branches of the loop call, with their arguments.
pub data Command : Type 0 where
  run_pipeline exec : List ℕ → Command
  make_dir touch change_dir remove cat : List ℕ → Command
  kill : ℤ → Command
  wait : ℤ → ℕ → Command
  write : List ℕ → List ℕ → Command
  ps ls time yield_now preempt coop help mem pmem save demo exit : Command
  no_text bad_syntax unknown : Command

-- `strncmp(cmd_buf, word, length of word) == 0`
unfoldable pub is_prefix : List ℕ → List ℕ → Bool
unfolding strncmp
is_prefix word cmd = elim (strncmp cmd word (length word)) [ pos n ↦ n == 0 | negsuc _ ↦ false ]

abbrev pub is_digit : ℕ → Bool
is_digit c = leb b'0' c && leb c b'9'

-- The loop over the digits, with the number so far.
unfoldable pub digits_from : List ℕ → ℕ → ℕ
digits_from [] ticks = ticks
digits_from (c ∷ cs) ticks =
    let rest = digits_from cs (ticks * 10 + (c - b'0')) in if is_digit c then rest else ticks

-- The branch of `wait `.
unfoldable pub parse_wait : List ℕ → Command
unfolding digits_from
parse_wait cmd =
    wait (pos (get_or cmd 5 0) -ℤ pos b'0')
      (if get_or cmd 6 0 == b' ' then digits_from (drop 7 cmd) 0 else 0)

-- The loop over the name of the file, of at most as many bytes: the name and what stands behind it.
unfoldable pub name_part : ℕ → List ℕ → List ℕ × List ℕ
name_part n [] = ([], [])
name_part zero (c ∷ cs) = ([], c ∷ cs)
name_part (suc n) (c ∷ cs) =
    let (name, rest) = name_part n cs in if c == b' ' then ([], c ∷ cs) else (c ∷ name, rest)

-- The content up to the end of the line.
unfoldable pub line_part : List ℕ → List ℕ
line_part [] = []
line_part (c ∷ cs) = let rest = line_part cs in if c == 13 || c == 10 then [] else c ∷ rest

abbrev pub write_of : List ℕ → List ℕ → Command
write_of name [] = no_text
write_of name (c ∷ cs) = write name (c ∷ cs)

abbrev pub write_behind : List ℕ → List ℕ → Command
write_behind name [] = bad_syntax
write_behind name (c ∷ cs) = if c == b' ' then write_of name (line_part cs) else bad_syntax

-- The branch of `write `.
unfoldable pub parse_write : List ℕ → Command
unfolding name_part line_part
parse_write args = let (name, rest) = name_part 31 args in write_behind name rest

-- The branches from `preempt` on.
unfoldable pub parse_later : List ℕ → Command
unfolding is_prefix is_equal parse_write
parse_later cmd =
    if is_equal cmd (text "preempt")
    then preempt
    else if is_equal cmd (text "coop")
    then coop
    else if is_prefix (text "exec ") cmd
    then exec (drop 5 cmd)
    else if is_equal cmd (text "help")
    then help
    else if is_equal cmd (text "mem")
    then mem
    else if is_equal cmd (text "pmem")
    then pmem
    else if is_prefix (text "write ") cmd
    then parse_write (drop 6 cmd)
    else if is_prefix (text "cat ") cmd
    then cat (drop 4 cmd)
    else if is_equal cmd (text "save")
    then save
    else if is_equal cmd (text "demo")
    then demo
    else if is_equal cmd (text "exit")
    then exit
    else unknown

unfoldable pub parse_command : List ℕ → Command
unfolding is_prefix is_equal is_pipeline parse_wait parse_later
parse_command cmd =
    if is_pipeline cmd && not (is_prefix (text "exec ") cmd)
    then run_pipeline cmd
    else if is_equal cmd (text "ps")
    then ps
    else if is_equal cmd (text "ls")
    then ls
    else if is_prefix (text "mkdir ") cmd
    then make_dir (drop 6 cmd)
    else if is_prefix (text "touch ") cmd
    then touch (drop 6 cmd)
    else if is_prefix (text "cd ") cmd
    then change_dir (drop 3 cmd)
    else if is_prefix (text "rm ") cmd
    then remove (drop 3 cmd)
    else if is_prefix (text "kill ") cmd
    then kill (pos (get_or cmd 5 0) -ℤ pos b'0')
    else if is_prefix (text "wait ") cmd
    then parse_wait cmd
    else if is_prefix (text "time") cmd
    then time
    else if is_prefix (text "yield") cmd
    then yield_now
    else parse_later cmd
