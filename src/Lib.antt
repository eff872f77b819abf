-- ===== src/Lib.antt =====
-- A theorem-proving harness with two collaborating models: its core, modelled from the Python code.
--
-- The harness gives one problem to a worker, which runs an agent under a time and a money budget and
-- has the result checked by Lean and by Comparator. The agent modelled here runs two tracks of model
-- calls, one for each model; a finished call is checked by a warm Lean service, a failed proof is
-- salvaged to a skeleton that compiles up to `sorry`, and packets carry skeletons and failures from
-- one track to the other. A proposal that Lean accepts is verified again in a fresh container.
--
-- Which file models which code:
--   Budget      src/re_harness/budget.py: `BudgetLedger`
--   Llm         src/re_harness/llm.py and models.py: `LLMClient.complete`. Asking has the checks of
--               a request and its body, Answering what is read from the answer, Failures the
--               exceptions; Accounting and Reserve are about the ledger and the bill
--   Strategies  collaboration_engine_v2/strategies.py: the packet strategies; Excerpt is about lengths
--   Salvage     collaboration_engine_v2/salvage.py: Message has Lean's messages, Source the lines of
--               the file, the parent `propose_sorrifications`; Shape and Cuts are about the lines cut
--   Engine      collaboration_engine_v2/agent.py: State has the records, Packets
--               `_install_packets`, Schedule `schedule`, Verify the verification queue, Decompose
--               `_update_decomposition`, Salvaging `_attempt_salvage`, Observe the check of a proposal
--               and the best candidate, Finish the rest of what follows a finished call, Create the
--               constructor, Retry `_call`
--   Uplift      uplift_pilot/agent.py: the text functions that the engine shares; Prompts has the
--               messages, Track the variables and the restarts, Loop the loop of the agent
--   Baseline    baselines/simple_agent.py: the loop with its messages; Extract takes the Lean file
--               from an answer
--   Submission  submission/agent.py: two loops of the baseline side by side; Implements compares them
--   Collaboration  collaboration_engine/agent.py and strategies.py, the first version of the engine:
--               Sharing has the strategies, Track the restarts and packets, the parent the loop
--   Worker      src/re_harness/worker.py: the agent's time, the end of a run, and in Writing the result
--   Scoring     src/re_harness/evaluator.py: the second scoring of a result
--   Runner      src/re_harness/runner.py: the loop over the workers; Recovery has the result of a worker
--               that did not write one, Naming the output directory, which Below confines
--   Events      src/re_harness/events.py: the redaction, the log and how it is read
--   Config      src/re_harness/config.py: the settings from the environment
--   Transcript  src/re_harness/artifacts.py: the transcript of the model calls
--   Lean        src/re_harness/lean.py: the mask of comments, with their grammar in Lexing; Warm has the
--               import block and when a file is accepted
--   Tactics     collaboration_engine_v2/tactics.py: canonicalize_imports
--   Manifest    src/re_harness/manifest.py: the checks of a problem set
--   Common      what all of them share: lists, texts, lines, JSON values, numbers
-- A module Tests holds concrete runs.
--
-- The parts meet as in the code: `complete` reserves, settles and releases on the ledger of Budget;
-- Engine/Packets installs what a strategy of Strategies returns; Engine/Salvaging tries what Salvage
-- proposes; Transcript takes the events that Events reads; Worker reads the snapshot of Budget, and
-- Scoring the result of Worker; Collaboration and Uplift/Loop take the Lean file from an answer as
-- Baseline does.
--
-- A method that mutates its object is a function from the state to the state; one that raises
-- returns a `Result` next to the state, since what was written before a raise stays written. A task
-- that runs is a value in the state, and its outcome an argument of the function that follows it, so
-- every order of events is a list of steps. A text is the list of its code points. Money is a whole
-- number of 10^-10 dollars and time a whole number of microseconds, in Worker and Runner of
-- milliseconds; the rounding of floats is not modelled.
--
-- Loops are structural recursions, but for those on fuel: `decimal`, where a number has fewer digits
-- than its successor; the loop over block comments in Salvage/Source, where each round shortens the
-- line; the loop of Runner, with fuel for every millisecond of every problem's time limit; the loops of
-- Collaboration and Uplift/Loop, with fuel for every call that the agent may make.
--
-- Not modelled: the provider's HTTP transport, the JSON encoder and decoder, the digest, `\w` beyond
-- ASCII, Lean, Comparator and the file system, which are arguments; containers, processes, files and
-- logs, but for what they show to the code; tactics.py beyond the imports, whose results are arguments
-- of Engine/Finish;
-- the loop of the second engine's `solve` and its prompts;
-- the scripts and the definitions of experiments, which start and collect runs.
pub mod Common
pub mod Budget
pub mod Llm
pub mod Strategies
pub mod Engine
pub mod Config
pub mod Events
pub mod Transcript
pub mod Runner
pub mod Baseline
pub mod Submission
pub mod Collaboration
pub mod Salvage
pub mod Uplift
pub mod Worker
pub mod Scoring
pub mod Lean
pub mod Tactics
pub mod Manifest
