-- ===== src/Lib.antt =====
-- The study agent service: which study material and quizzes a trainee sees, which topics are open
-- to the trainee, how an attempt at a quiz runs, and what reading, a submission or a change of the
-- content does to stored progress.
--
-- Parts and files. Paths are from the repository's root.
--
-- Lifecycle models src/api/utils/content_lifecycle and the publish operations of
-- src/api/data/repositories/study_agent_repositories/study_material_repository.py and
-- src/api/data/repositories/quiz_repositories/quiz_repository.py. Model holds the rows and the
-- constants; Transitions the functions of transitions.py, each from a row to a row; Visibility the
-- predicates of visibility.py; Store the operations on tables of rows: unpublish_other_versions,
-- publish_version, discard_draft_versions_for_node, abandon_in_progress_attempts_for_quizzes,
-- publish_quiz, cascade_node_delete_content, and the guards of _load_publish_target and
-- archive_study_material_version in
-- src/api/core/services/study_agent_services/study_material_service.py. Layers, Publish and Delete
-- hold theorems.
--
-- Progress models src/api/utils/trainee_progress_utils. Completion is completion.py; Tree is the
-- tree context of unlocking.py with learning_units.py; Store holds the tables and the queries of
-- src/api/data/repositories/progress_repositories and of the trainee repositories; Unlocking is
-- unlocking.py, with the operations that write grants in Unlocking/Granting; Resets is
-- progress_resets.py; Writes holds the writes of a trainee's own row, Rollup the counters of a space
-- (space_progress_snapshot.py and trainee_space_progress_repository.py), and Service the calls of
-- src/api/core/services/progress_services/trainee_progress_service.py over them. The modules below
-- them hold theorems, and so do Written and Submitted.
--
-- Llm models src/api/utils/LLM_utils: KeyPool is groq_key_pool.py, Retry the loop
-- call_groq_with_rotation of groq_retry.py. The loop is a client of the pool and uses what
-- KeyPool/Rotation shows of it.
--
-- Routing models the graphs of src/api/control: Study, Quiz and Hint hold, for each agent, the
-- fields that the routers read, the edges of the graph and resolve_resume_next_node.
--
-- Attempt models src/api/utils/quiz_utils/trainee_attempt_navigation.py and, below it, the life of an
-- attempt in src/api/core/services/trainee_quiz_services/trainee_quiz_service.py: Tables holds the
-- rows and the reads and writes of
-- src/api/data/repositories/trainee_quiz_repositories/trainee_quiz_repository.py; Starting is
-- start_attempt, Answers patch_attempt_state and submit_response, Submission submit_attempt with
-- _finalize_skipped_responses, Views get_attempt. Accepted and Started say what an accepted call has
-- tested; the other modules hold theorems.
--
-- Guards models src/api/utils/space_node_utils/node_role_assert.py, and names the exceptions that the
-- services raise: a handler returns one on the left, or its answer and the new tables on the right.
--
-- Qc models
-- src/api/utils/study_agent_utils/quality_check_utils/results/scoring.py; a score is rounded as a
-- fraction.
--
-- Generation models the durable runs of the agents: Generation and Profiles hold the steps of
-- src/api/utils/generation_progress/store.py, Runs the table and its repository
-- (src/api/data/repositories/generation_run_repository.py), Worker the calls of a job
-- (src/api/utils/generation_progress/db_store.py and src/api/core/services/generation_run_service.py)
-- and Service the calls of a mentor in that service. Machine makes every call a step on the table;
-- the other modules hold theorems. Names of nodes and labels are texts. The fingerprint of a request,
-- the outcome of the advisory lock, the entry node of a resume and the outcome of the clean-up of
-- artifacts are arguments; the release of a lock and the type of a resource are left out.
--
-- How the parts meet: publishing and deleting (Lifecycle) decide which nodes have published
-- material and quizzes; the tree of Progress reads these ids, the access decision reads the tree,
-- the progress rows and the grants; the resets rewrite the progress rows and call the granting
-- operations. An attempt is started behind the access decision and the publication of quiz and
-- material, frozen by publishing and deleting, and its submission writes the progress row, which may
-- grant the children and renews the counters of the space.
--
-- State. A table is a list of rows, an operation takes the tables and returns the new ones with
-- its answer. A mutation of a row object is a map over the table. An id and a time are numbers,
-- the clock's answer is an argument. A set of ids is a list that is only asked for membership.
-- Commits, flushes and refreshes have no counterpart: one operation is one transaction, and a call
-- that raises leaves the tables as they were. Calls follow one another; concurrent sessions are not
-- modelled. A generated id is an argument, and new where a theorem says so.
--
-- Bounds and fuel. The recursive walk over the tree takes the number of calls that the
-- interpreter's recursion limit leaves, and `none` is the RecursionError. Any limit above the
-- height of the tree is enough, and on a cycle none is. A score is a fraction and the threshold
-- test is multiplied out, where the source compares floats.
--
-- The retry loop takes its number of rounds as fuel; one round more than the pool has keys is
-- enough, as long as the rate limits that attempts in these rounds would record end after the last of
-- them starts. The model's answers and the clock are functions of the round, the key and the attempt.
--
-- Not modelled: the mentor's role checks, the bulk renewal of counters in
-- src/api/utils/mentor_progress_utils, the mentor's quiz editing, logging, HTTP routes, schemas, prompts and the text of
-- answers, the parsing of documents, the nodes of the graphs, hydrate_checkpoint_state.
pub mod Prelude
pub mod Lifecycle
pub mod Progress
pub mod Llm
pub mod Routing
pub mod Attempt
pub mod Qc
pub mod Guards
pub mod Generation
