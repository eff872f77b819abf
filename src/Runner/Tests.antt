-- ===== src/Runner/Tests.antt =====
-- Two problems with one worker at a time: the first ends by itself, the second runs out of time.
use re_takehome_submission.Common.{
  ℕ, zero, suc, ◌*◌, ◌≡◌, refl, ap, sym, ◌∙◌, is_empty, true, none, some, List, [], ◌∷◌, arith,
  if◌then◌else◌,
}
use re_takehome_submission.Common.Int.{pos}
use re_takehome_submission.Common.Text.{Text, codes, text_eq, join}
use re_takehome_submission.Common.Json.{obj, end, get}
use re_takehome_submission.Common.Results.{Result, ok, OnOk}
use re_takehome_submission.Runner.{
  World, RunError, RunnerState, terminated, recorded, turn, run_loop, start_state, start_workers,
  poll_workers, poll_worker, time_out, recover, outcome,
}
use re_takehome_submission.Runner.Recovery.{recovered_result}
use re_takehome_submission.Runner.Ending.{IsClock, Sleeps}
use re_takehome_submission.Runner.Reached.{here, next, IsSound, Reach-IsSound}
use re_takehome_submission.Runner.Live.{IsWorking, IsComplete, run_loop-completes}
use re_takehome_submission.Runner.Naming.{
  Disk, agent_name, slug, dash_runs, lstrip_marks, rstrip_marks, lower_ascii, last_part,
  remove_suffix, resolve_output_dir, is_absolute, path_parts, path_of, split_slash, is_unsafe_part,
}
use re_takehome_submission.Runner.Below.{IsPlain, IsConfined, resolve_output_dir-IsConfined}
use re_takehome_submission.Common.Lines.{is_letter, is_digit}

-- The first round leaves no worker running and takes no time.
abbrev clock : ℕ → ℕ
clock zero = 0
clock (suc r) = r * 100

abbrev world : World
world = record {
  artifacts_ok = λ r p. true;
  started_at = λ r p. clock r;
  poll = λ r p. if text_eq p (codes "a") then some (pos 0) else none;
  polled_at = λ r p. clock r;
  stop = λ r p. terminated;
  recovered_at = λ r p. clock r;
  events = λ r p. some [];
  result_file = λ r p. recorded (obj end);
}

abbrev problems : List Text
problems = codes "a" ∷ codes "b" ∷ []

is_clock : IsClock world clock
is_clock = (λ r p. omega arith, λ r p. omega arith)

is_working : IsWorking world
unfolding outcome get
is_working = (λ r p. refl, λ r p e. cc, λ r p. ([], refl), λ r p. tt)

abbrev after_one : RunnerState
after_one = record {
  pending = codes "b" ∷ [];
  running = [];
  completed = 1;
  results = (codes "a", recorded (obj end)) ∷ [];
}

one_turn : turn world 1 250 (codes "0.2") 0 (start_state problems) ≡ ok after_one
unfolding turn start_workers poll_workers poll_worker outcome get text_eq
one_turn = refl

is_sleeping : Sleeps world 1 250 (codes "0.2") clock problems
is_sleeping zero s (next here e) q =
    let k : Path (Result RunError RunnerState) (ok s) (ok after_one) = sym e ∙ one_turn in
    let h : s ≡ after_one = cc in
    absurd (let h' = ap (λ (t : RunnerState). is_empty t.running) h in cc)
is_sleeping (suc r) s h q = omega arith

run_loop-completes_example :
    (s : RunnerState) × (run_loop world 1 250 (codes "0.2") 504 0 (start_state problems)
      ≡ some (ok s))
    × IsComplete problems s
run_loop-completes_example =
    run_loop-completes world 1 250 (codes "0.2") is_working clock is_clock problems 504 is_sleeping
      (omega arith) (omega arith)

Reach-IsSound_example : IsSound world 1 250 (codes "0.2") problems after_one
Reach-IsSound_example = Reach-IsSound world 1 250 (codes "0.2") (next here one_turn)

-- The second worker is stopped in the fourth round.
ends_test :
    run_loop world 1 250 (codes "0.2") 8 0 (start_state problems)
    ≡ some (
        ok (record {
          pending = [];
          running = [];
          completed = 2;
          results =
              (codes "a", recorded (obj end))
              ∷ (
                codes "b",
                recorded (
                    recovered_result
                      (codes "b")
                      (codes "timed_out")
                      (codes "problem exceeded 0.2s wall-clock limit")
                      []
                      300),
              )
              ∷ [];
        }))
unfolding run_loop turn start_workers poll_workers poll_worker outcome get text_eq time_out recover
    recovered_result
ends_test = refl

abbrev disk : Disk
disk = record {
  has_agent_dir = λ a. true;
  runs_of = λ a. record { mtime = 3; path = codes "r1" } ∷ [];
  has_run = λ a r. true;
  base_timestamp = codes "20260101T000000Z";
  free_suffix = λ a. some 2;
}

is_plain : IsPlain disk
unfolding is_letter is_digit is_unsafe_part path_of join text_eq
is_plain = (
  refl,
  (
    refl,
    (
      refl,
      (
        refl,
        (
          refl,
          (
            refl,
            (
              refl,
              (refl, (refl, (refl, (refl, (refl, (refl, (refl, (refl, (refl, (refl, tt)))))))))),
            ),
          ),
        ),
      ),
    ),
  ),
  λ a. ((codes "r1" ∷ [], refl, ((refl, (refl, (refl, tt))), tt)), tt),
)

-- A dot is no part of a path, so the agent's own directory is resumed.
resumes_itself :
    resolve_output_dir disk (codes "my.agent:run") (some (codes "./"))
    ≡ ok (codes "agent", codes ".", true)
unfolding resolve_output_dir agent_name slug dash_runs lstrip_marks rstrip_marks lower_ascii
    last_part is_absolute path_parts path_of split_slash text_eq
resumes_itself = refl

agent_name_test : agent_name (codes "baselines.Lemma Agent_agent:create") ≡ codes "lemma-agent"
unfolding agent_name slug dash_runs lstrip_marks rstrip_marks lower_ascii last_part remove_suffix
agent_name_test = refl

resolve_output_dir-IsConfined_example :
    OnOk
      (IsConfined disk (codes "my.agent:run") (some (codes "./r1")))
      (resolve_output_dir disk (codes "my.agent:run") (some (codes "./r1")))
resolve_output_dir-IsConfined_example =
    resolve_output_dir-IsConfined disk (codes "my.agent:run") (some (codes "./r1")) is_plain
