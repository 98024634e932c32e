-- ===== src/Lib.antt =====
-- Nexus ARC: an engine that runs multi-step workflows of AI agents for the issues of a project. The
-- library models the parts of nexus/core that decide what is run, how often and when, and proves them.
--
-- The workflow engine (nexus/core/workflow.py, models.py, approval.py, events.py and workflow_engine/)
-- stands in Engine:
--   Engine/Values, Model      the values of a step's outputs; Workflow, WorkflowStep, Agent, gates,
--                             routes (models.py), a step object being its index in `steps`
--   Engine/Gates              Workflow.apply_approval_gates and ApprovalGateEnforcer (approval.py)
--   Engine/Retry              compute_retry_backoff_seconds, apply_retry_transition
--   Engine/Routing            evaluate_condition, _build_step_context, _slugify, _find_step_by_name,
--                             resolve_route_target
--   Engine/Serde              workflow_to_dict, step_to_dict and dict_to_workflow of
--                             nexus/adapters/storage/_workflow_serde.py, which the backends share
--   Engine/World              the storage as a map, the audit log, the event bus and the callbacks as a
--                             trace of effects; the settings of WorkflowEngine.__init__
--   Engine/Advance            reset_step_for_goto and advance_after_success with its while loop
--   Engine/Control            create_, get_, start_, pause_, resume_ and cancel_workflow
--   Engine/Complete           complete_step with apply_step_completion_result,
--                             finalize_terminal_success and finalize_step_completion_tail
--   Engine/Runnable           get_runnable_steps
-- The other files of Engine prove: Measure, Termination, Moves, Search, Kept, Activation and
-- RouteChoice are about the search for the next step; Stored, Completes, Cases and Calls about one
-- call; Written about what the storage writes and reads; Invariant, ControlInv and Reach about all
-- reachable worlds; Transitions, Lifecycle and Acceptance about the states of a workflow; Retrying and
-- Gating about retries and gates. Samples, Tests and PartTests run the engine.
-- A call loads the workflow from the storage, changes it, saves it and tells of it; complete_step asks
-- Advance for the next step, which asks Routing at routers and conditions.
--
-- Two parts stand on the engine:
--   Loader                    workflow_engine/workflow_definition_loader.py and WorkflowDefinition
--     Fields, Build, Resolve  the fields of a parsed definition; build_workflow_steps and from_dict;
--                             resolve_workflow_steps_list, the successors of an agent, the choice of a
--                             proposed next agent
--     Named, Successors       the agents that may follow an agent as a relation, with their proofs
--     Built, Loaded, NextAgents  the other proofs; Tests
--   StatePlugin               nexus/plugins/builtin/workflow_state_engine_plugin.py
--     Refs, Outputs           references to steps; _normalize_completion_outputs
--     Completion              complete_step_for_issue, which checks a report, asks IdempotencyLedger,
--                             calls the engine's complete_step and records the event
--     Creation, Manual        create_workflow_for_issue; recovery, reset, start, pause, resume
--     Status                  get_workflow_status
--     Cases, Numbered, Sound, Applied, Reported, Redelivery, Refused and Delivered are about reports;
--     Rewound, Operations and Runs about all operations; FreshIds and Forced about creations; Tests
--     and ManualTests run the plugin.
-- A creation loads a definition by Loader and hands the workflow to create_workflow.
--
-- The merge queue takes the pull requests of a finished workflow:
--   MergeQueue                enqueue_merge_candidate, update_merge_candidate (nexus/core/state_manager.py)
--                             and enqueue_merge_queue_prs (nexus/core/merge_queue.py)
--     Urls, Worker            the parsers of urls; the worker that merges what is pending
--     Inline                  handle_merge_queue_inline_action, the buttons by which a person approves,
--                             retries and merges (nexus/core/callbacks/callback_inline_service.py)
--     History                 sequences of enqueueings, presses and runs of the worker
--     Kept, Approved, Pressed, Calls and Allowed are about what is merged; Settled, Worked and Taken about what
--     a run leaves; Tests.
-- An enqueueing, a press and a run of the worker are one step each: each loads and saves the file of the
-- queue, and what another process writes in between is not modelled.
--
-- Around the engine stand six parts that do not call each other:
--   RateLimit                 nexus/core/rate_limiter.py (in RateLimit: Times, Window, Exact, Tests)
--   LaunchGuard               nexus/core/guards.py (in LaunchGuard: Cooldown, Counts, Tests)
--   IdempotencyLedger         nexus/core/idempotency.py (in IdempotencyLedger: Keys, Seen, Tests)
--   EventBus                  the bus of nexus/core/events.py (in EventBus: Delivery, Tests)
--   PromptBudget              nexus/core/prompt_budget.py (in PromptBudget: Bounds, Tests)
--   Router                    nexus/core/router.py (in Router: Tiers, Tests)
-- Base has what they share: Boolean tests, lists over the native numbers, and texts.
--
-- Conventions. A call gets the instant at which it runs as `now`: two reads of the clock in one call
-- are one instant. Times are ticks; the delays of retries, floats in the source, are milliseconds;
-- the exponential one is none where the power of two has no float, which raises OverflowError.
-- The calls of the storage return normally. A load gives what Engine/Serde writes and reads of the
-- workflow that was saved: a field without a key gets the default of the data class. What the bus, the
-- audit log and the callbacks raise is caught by the source, and they do not change the workflow that they
-- are handed. Texts are ASCII where they are put in lower case or stripped. Python's `eval` of a
-- condition is a parameter, which may also raise; so are SHA-256, fnmatch, and the custom guard of
-- the launch guard. The environment variable NEXUS_STRICT_APPROVALS is part of the policy of Engine/Gates.
--
-- Fuel. Only `advance_loop` has fuel, for the while loop of advance_after_success. `advance_fuel` is
-- the number of re-activations that all steps have left, times the greatest step number plus two, plus
-- that once more: each round either uses up a re-activation or goes on to a greater number. The other
-- loops are structural recursion, but for `fresh_from`, the while loop that looks for a free workflow id: its
-- fuel is one more than the number of stored workflows.
--
-- Parameters of Loader and StatePlugin are the parsed content of a file, the steps that routes lead to in
-- other files, Python's float and ast.parse, and the text of a list or a dictionary. A field of a
-- definition that has not the type that the source expects counts as absent, but for the id, the name
-- and the entries of `parallel` of a step and the name of a workflow, from which a name or an id is made:
-- there what is no text raises, as in `_slugify`.
--
-- Parameters of MergeQueue are the configured platforms (none for a project that is not configured, where
-- the source raises KeyError), the test of Python's urlparse on a host in brackets, the project's
-- configuration, the interval, the tokens of requesters and the platform's merge call.
--
-- Not modelled: the following of routes into other definition files, the dry run and the prompt text of a
-- definition, the approvals of the plugin (which call methods that the engine does not have), the
-- rendering of prompts, the Redis and database backends and the saved state of the rate limiter, and the
-- rest of the program, which is glue around files, chat platforms, Git platforms and agent processes.
pub mod Base
pub mod Engine
pub mod RateLimit
pub mod LaunchGuard
pub mod EventBus
pub mod Router
pub mod Loader
pub mod MergeQueue
pub mod StatePlugin
pub mod PromptBudget
pub mod IdempotencyLedger
