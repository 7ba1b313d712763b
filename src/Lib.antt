-- ===== src/Lib.antt =====
-- A verification library of MewCode, a coding agent for the terminal that can lead a team of
-- agents.
--
-- The parts, from the bottom up. Prelude holds what all share: Python's str as a list of code
-- points, a dict as an association list in the order of insertion, and exceptions as the values
-- of Outcome. Glob (src/mewcode/matching.py) compiles the glob patterns of rules. Permissions
-- (src/mewcode/permissions) uses them: Models for models.py, Rules for rules.py, Controller for
-- controller.py and Challenge for the question put to the user. Teams (src/mewcode/teams) is the
-- persistent state of a team: Models for models.py; Dependencies, Approvals, Tasks, TaskFlow and
-- Members for domain.py, one function for each function of the source with its name, a private
-- name without its underscore; Repository and Creation for repository.py, Leases for leases.py,
-- TaskService for tasks.py and ApprovalService for approvals.py, with Outbox for the messages of
-- both. Tools (src/mewcode/tools/base.py) is the registry of tools and the check of a call;
-- Agent (src/mewcode/agent/scheduler.py) runs the calls of one turn: Calls and Prepare for what
-- a call comes to before it runs, Schedule for the batches and their end. Capacity
-- (src/mewcode/agent/capacity.py) is the pool that bounds how many agents run. Mcp
-- (src/mewcode/mcp/jsonrpc.py) is the table of requests of a session with a server. Context
-- (src/mewcode/context/estimator.py and tool_results.py) measures texts and requests and makes
-- the preview of a long result. Hooks (src/mewcode/hooks/conditions.py) decides whether an event
-- fires a hook.
--
-- They interact as in the source. TeamMutationRunner.run loads a state from the disk, applies an
-- operation of domain.py to it and swaps it in under the lead's lease, which TeamLeaseService
-- hands out; what other processes write between these steps, what the lease file holds when the
-- fence is checked, and how the write of the file ends are arguments. The services of tasks.py
-- and approvals.py hand their transformations to it. A schedule asks the registry, the policy,
-- the hooks and the permission controller before a call runs. The controller asks the rule
-- store, which asks the patterns.
--
-- An operation takes the state and returns the new one or the failure that the source raises. A
-- time is a number of microseconds, a lock is free or busy, a file is the state that its bytes
-- decode to, whose mappings are in the order of their keys once it is written, and each reading
-- of the clock is an argument. The search of the task graph recurses on fuel, the number of the
-- tasks and one more, which is enough since a path visits no task twice: the end of the fuel,
-- Failure.recursion, is never what validate_dependencies returns. The order of a batch recurses
-- on the number of its tasks, which is enough since each round takes one at least. A uuid4 of
-- the capacity pool is the next number. A coroutine is cut where it waits: JsonRpcPeer.request
-- is start_request, interrupt where its wait is cancelled, and end_request; the runs of a
-- session are the sequences of such steps. What the tools, the policy and the hooks do at a call
-- of a schedule, how the task of a call ends outside its tool, and the order in which the tasks
-- of a batch end, are arguments.
--
-- Not modelled: the JSON codecs but the order of the keys, the paths, the locks themselves and
-- the asyncio loop; the library re, whose escape and match are the parameter Platform of Glob,
-- and the library regex, a parameter of Hooks; str.casefold, a parameter of the task service;
-- the mailbox, the roster and the scheduler of a team; the agent's turn loop, the hook runtime,
-- with what it raises before a call runs, MCP but its requests, subagents, worktrees, the
-- providers and the terminal.
pub mod Prelude
pub mod Glob
pub mod Permissions
pub mod Tools
pub mod Teams
pub mod Capacity
pub mod Agent
pub mod Mcp
pub mod Context
pub mod Hooks
