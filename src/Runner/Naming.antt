-- ===== src/Runner/Naming.antt =====
-- src/re_harness/runner.py: the name of an agent's directory and of a run in it. Paths are POSIX paths.
-- `Disk` holds what is asked of the file system and of the clock.
use re_takehome_submission.Common.{
  ℕ, ◌+◌, Bool, true, false, not, ◌&&◌, ◌||◌, Option, none, some, List, [], ◌∷◌, ltb, leb, ◌==◌,
  if◌then◌else◌, length, take, any, is_empty, map, ◌-◌, keep, ◌++◌,
}
use re_takehome_submission.Common.Text.{
  Text, codes, text_eq, text_ltb, strip, starts_with, join, decimal,
}
use re_takehome_submission.Common.Lines.{is_letter, is_digit, split_once, ends_with, cons_head}
use re_takehome_submission.Common.Results.{Result, ok, err}

-- `-._`
unfoldable pub is_mark : ℕ → Bool
is_mark c = (c == b'-') || ((c == b'.') || (c == b'_'))

-- `[A-Za-z0-9._-]`
unfoldable pub is_slug_char : ℕ → Bool
unfolding is_letter is_digit is_mark
is_slug_char c = is_letter c || (is_digit c || is_mark c)

-- `re.sub(r"[^A-Za-z0-9._-]+", "-", s)`; the flag tells that the run has its dash already.
unfoldable pub dash_runs : Bool → Text → Text
unfolding is_slug_char
dash_runs inside [] = []
dash_runs inside (c ∷ s) =
    let kept = dash_runs false s in
    let dropped = dash_runs true s in
    if is_slug_char c then c ∷ kept else if inside then dropped else b'-' ∷ dropped

-- `s.strip("-._")`, first on the left, then on the right.
unfoldable pub lstrip_marks : Text → Text
unfolding is_mark
lstrip_marks [] = []
lstrip_marks (c ∷ s) = let rest = lstrip_marks s in if is_mark c then rest else c ∷ s

abbrev pub cons_unless_mark : ℕ → Text → Text
cons_unless_mark c [] = if is_mark c then [] else c ∷ []
cons_unless_mark c (d ∷ s) = c ∷ d ∷ s

unfoldable pub rstrip_marks : Text → Text
unfolding is_mark
rstrip_marks [] = []
rstrip_marks (c ∷ s) = cons_unless_mark c (rstrip_marks s)

-- `str.lower` on ASCII.
unfoldable pub lower_ascii : ℕ → ℕ
lower_ascii c = if leb b'A' c && leb c b'Z' then c + 32 else c

-- `s or other`
abbrev pub or_else : Text → Text → Text
or_else [] other = other
or_else (c ∷ s) other = c ∷ s

-- `_slug`
unfoldable pub slug : Text → Text
unfolding dash_runs lstrip_marks rstrip_marks lower_ascii strip
slug value =
    or_else (map lower_ascii (rstrip_marks (lstrip_marks (dash_runs false (strip value)))))
      (codes "agent")

-- `name.rsplit(".", 1)[-1]`
unfoldable pub last_part : Text → Text
last_part [] = []
last_part (c ∷ s) =
    let rest = last_part s in
    if any (λ d. d == b'.') s then rest else if c == b'.' then s else c ∷ s

-- `name.removesuffix(suffix)`
unfoldable pub remove_suffix : (suffix : Text) → Text → Text
unfolding ends_with
remove_suffix suffix s = if ends_with suffix s then take (length s - length suffix) s else s

-- `_agent_name`
unfoldable pub agent_name : Text → Text
unfolding slug last_part remove_suffix split_once text_eq starts_with
agent_name agent =
    let module_name = (split_once (codes ":") agent).0 in
    let name = last_part module_name in
    if text_eq module_name (codes "baselines.simple_agent")
    then codes "baseline"
    else if text_eq module_name (codes "submission.agent")
    then codes "submission"
    else if starts_with (codes "baselines.") module_name
    then slug (or_else (remove_suffix (codes "_agent") name) name)
    else slug (if is_empty module_name then agent else name)

-- A directory with a file `run.json`, relative to the agent's directory, and the file's time.
pub record FoundRun : Type 0 where
  pub mtime : ℕ
  pub path : Text

pub record Disk : Type 0 where
  pub has_agent_dir : Text → Bool
  pub runs_of : Text → List FoundRun
  pub has_run : (agent_name run_name : Text) → Bool
  -- The time as a text.
  pub base_timestamp : Text
  -- The first suffix with which no directory is there, or `none` if there is none without.
  pub free_suffix : (agent_name : Text) → Option ℕ

-- `_new_timestamp`
unfoldable pub new_timestamp : Disk → (agent_name : Text) → Text
unfolding decimal
new_timestamp d agent = elim (d.free_suffix agent) [
  | none ↦ d.base_timestamp
  | some n ↦ d.base_timestamp ++ (b'-' ∷ decimal n)
]

-- `s.split("/")`
unfoldable pub split_slash : Text → List Text
split_slash [] = [] ∷ []
split_slash (c ∷ s) = let rest = split_slash s in if c == b'/' then [] ∷ rest else cons_head c rest

-- `Path(s).is_absolute()`
unfoldable pub is_absolute : Text → Bool
is_absolute [] = false
is_absolute (c ∷ s) = c == b'/'

-- `Path(s).parts` of a relative path, without empty parts and dots.
unfoldable pub path_parts : Text → List Text
unfolding split_slash text_eq
path_parts s = keep (λ p. not (is_empty p || text_eq p (codes "."))) (split_slash s)

-- `str` of a relative path with these parts.
unfoldable pub path_of : List Text → Text
unfolding join
path_of [] = codes "."
path_of (p ∷ ps) = join (codes "/") (p ∷ ps)

-- The order of the sort: the time, then the path.
unfoldable pub is_later : FoundRun → FoundRun → Bool
unfolding text_ltb
is_later a b = ltb b.mtime a.mtime || ((a.mtime == b.mtime) && text_ltb b.path a.path)

-- `_latest_run_path`: the last one of the sorted list.
unfoldable pub latest_run : List FoundRun → Option FoundRun
unfolding is_later
latest_run [] = none
latest_run (a ∷ rest) = elim (latest_run rest) [
  | none ↦ some a
  | some b ↦ if is_later a b then some a else some b
]

pub data ResumeError : Type 0 where
  missing_agent_dir no_runs unsafe_path missing_run : ResumeError

-- `part in {"", ".", ".."}`
unfoldable pub is_unsafe_part : Text → Bool
unfolding text_eq
is_unsafe_part p = is_empty p || (text_eq p (codes ".") || text_eq p (codes ".."))

abbrev pub existing : Disk → (agent run : Text) → Result ResumeError (Text × Text × Bool)
existing d agent run = if d.has_run agent run then ok (agent, run, true) else err missing_run

-- `resolve_output_dir`: the agent's directory, the run's name in it, and whether it is resumed.
unfoldable pub resolve_output_dir :
    Disk → (agent : Text) → (resume : Option Text) → Result ResumeError (Text × Text × Bool)
unfolding agent_name latest_run is_unsafe_part text_eq new_timestamp is_absolute path_parts path_of
resolve_output_dir d agent none = ok (agent_name agent, new_timestamp d (agent_name agent), false)
resolve_output_dir d agent (some resume) =
    if text_eq resume (codes "latest")
    then if not (d.has_agent_dir (agent_name agent))
      then err missing_agent_dir
      else elim (latest_run (d.runs_of (agent_name agent))) [
        | none ↦ err no_runs
        | some found ↦ existing d (agent_name agent) found.path
      ]
    else if is_absolute resume || any is_unsafe_part (path_parts resume)
    then err unsafe_path
    else existing d (agent_name agent) (path_of (path_parts resume))
