-- ===== src/Lib.antt =====
-- Josu is a local daemon and command line that hands parts of a coding task to language models. An
-- orchestrator runs a coding agent in a git worktree; the agent asks the daemon for graph context and
-- delegates sub-tasks, which the daemon carries out over a chain of candidates, local models first.
--
-- The parts, and the files that model them (paths of the repository):
--
--   src/josu/config/delegate.py        Config/Delegate.antt   load_delegate_config
--   src/josu/config/chains.py          Config/Chains.antt     the chains, default_chain_order,
--                                      resolve_chain, resolve_proactive_check_chain
--                                      Config/Chains/Load.antt   load_chains_config
--   src/josu/config/graph_engines.py   Config/GraphEngines.antt  load_graph_engines_config
--   src/josu/config/__init__.py        Config/Settings.antt   the numbers of the document
--                                      Config/Load.antt       check_permissions, load_config
--   src/josu/models/curated.py         Models.antt            preflight_check
--   src/josu/delegate/cooldown.py      Delegate/Cooldown.antt CandidateCooldownStore
--   src/josu/delegate/client.py        Delegate/Client.antt   OpenAICompatibleDelegateClient.complete;
--                                      its errors are in Delegate/Errors.antt
--   src/josu/delegate/local_model.py   Delegate/LocalModel.antt  delegate, with its one retry
--   src/josu/delegate/queue.py         Delegate/Queue.antt    the loop of DelegateQueue.run_chain
--   src/josu/delegate/chain.py         Delegate/Chain.antt    execute_chain
--   src/josu/orchestrator/circuit_breaker.py  Orchestrator/CircuitBreaker.antt  the stopwatch of a run
--   src/josu/orchestrator/merge.py     Orchestrator/Merge.antt   find_diverged_paths and merge
--   src/josu/orchestrator/worktree.py  Orchestrator/Worktree.antt  the parser of git's list, the orphans
--   src/josu/orchestrator/run.py       Orchestrator/Run.antt  run_task
--   src/josu/proactive/watchers.py     Proactive.antt         the local-only projection and
--                                      run_proactive_check
--                                      Proactive/Hook.antt    install_commit_hook
--                                      Proactive/Debounce.antt  DebouncedSaveWatcher
--   src/josu/config/orchestrator.py    Config/Orchestrator.antt  the loader of the adapters and its gates
--   src/josu/orchestrator/adapter.py   Orchestrator/Adapter.antt  invoke_adapter up to its subprocess,
--                                      extract_fields
--   src/josu/orchestrator/adapters/claude_code.py  Orchestrator/ClaudeCode.antt  parse_stream_json
--                                      Orchestrator/ClaudeCode/Run.antt  the checks of a run, and run
--   src/josu/graph/router.py           Graph/Router.antt      RoutingEngine
--   src/josu/internal_route_http.py    Daemon/Body.antt       read_bounded_json_body
--   src/josu/daemon_auth.py            Daemon/Auth.antt       the token file, DaemonAuthMiddleware
--   src/josu/delegate/internal_api.py  Daemon/DelegateRoute.antt  the handler of POST /delegate/internal
--   src/josu/observability/runlog.py   Runlog.antt            the records of a run
--                                      Runlog/Codec.antt      to_dict and from_dict
--                                      Runlog/Directory.antt  save_run, load_run, latest_run
--                                      Runlog/Events.antt     the records that a session adds
--                                      Runlog/Render.antt     render_run
--   src/josu/fallback/quota.py         Fallback.antt          bounded requests, markers of abandoned worktrees
--   src/josu/cli.py                    Cleanup.antt           the scan for orphans, josu cleanup
--
-- They interact as the code does: load_config runs the loaders of all sections, and its numbers go to
-- the cooldown store and the circuit breaker. execute_chain resolves a task type by Config.Chains, asks the
-- cooldown store and the preflight check about each candidate, calls delegate, which calls the client,
-- and runs under the loop of the queue; the store outlives the call. A proactive check projects the
-- configuration to local candidates and runs execute_chain on it. A request to the daemon passes
-- DaemonAuthMiddleware, then read_bounded_json_body, then the handler, which runs execute_chain on the
-- configuration or on a chain made of the candidates of the request. run_task ends with the merge of
-- Orchestrator/Merge.antt, whose errors it records. The run of Claude Code is prepared by the adapter's
-- invoke_adapter, and its output is parsed and checked; a run that fails leaves a marker (Fallback.antt),
-- and the cleanup reads the markers, adds one for each orphan of git's list and removes what it is told.
--
-- State. Python's objects are records and an operation returns the new record. A dict is an
-- association list in insertion order (Common/Dict.antt). An exception is a value: its class and what
-- it carries, without the message. Floats are whole clock ticks or tenths of a gigabyte, so that
-- rounding is left out; inf and nan are kept where a value comes from a caller.
--
-- The environment is a parameter: what the clock reads, how each HTTP exchange goes, how the two
-- timeouts round a call end, the measured memory, json.loads and str, pydantic's validation, the
-- output of git, which files the operating system lets be written, and how each step of a run ends. A theorem holds for every such environment, or names what it needs of it.
--
-- There is no fuel: every loop runs over a list that it is given.
--
-- Not modelled: the MCP manifest, the MCP servers and the graph
-- engines behind the router, the daemon's processes and sockets, the client of the daemon, and the
-- printing and the other subcommands of the command line, whose cores are input and output; the exact
-- texts of most messages; what one holder of the queue's lock excludes, as each chain is one step here.
pub mod Common
pub mod Models
pub mod Config
pub mod Delegate
pub mod Daemon
pub mod Orchestrator
pub mod Proactive
pub mod Fallback
pub mod Cleanup
pub mod Runlog
pub mod Graph
