-- ===== src/Lib.antt =====
-- Agamemnon: the orchestration service of the HMAS pipeline.
--
-- The service takes task briefs, breaks each down into a tree of tasks on four layers, publishes the
-- tasks to workers over NATS, and follows what the workers report through a state machine. The tasks
-- are kept in memory and written through to GitHub issues.
--
-- Which file models what (children of a module stand in the folder named after it):
--   HmasTypes          include/agamemnon/hmas_types.hpp, src/hmas_types.cpp: layers, states, tasks and
--                      briefs, their names and JSON forms (Codec, BriefCodec).
--   StateMachine       state_machine.hpp, state_machine.cpp: the table that the constructor fills is the
--                      list `table`; try_transition runs over the bucket of its key.
--   PlanningBreakdown  planning_breakdown.cpp: parse_impl_ref (ImplRef), decompose as `tree` and, for
--                      its post-pass, Wiring. The loops over repositories, modules and implementations
--                      are l1_tasks, l2_tasks and l3_tasks.
--   Store              store.hpp, store.cpp: the collections of HMAS tasks and briefs with their
--                      operations (HmasTasks, Briefs), the index hmas_tasks_by_brief_ (ByBrief), the issue
--                      bodies (Issue); the four collections of JSON entities: what their operations share
--                      (Collections), what they build (Entities), the operations (Agents, Teams, Tasks,
--                      Faults), the pages of their listings (Listing), and apply_github_event and
--                      reconcile_from_github (Sync). Requests has all their calls as one type.
--   Orchestrator       orchestrator.cpp: what all methods share is in the parent; Delegation has
--                      delegate, escalate and delegate_unblocked_children, Messages the three handlers of
--                      worker messages, Submission, Epics, Plans and Splitting the other methods.
--   CircuitBreaker     circuit_breaker.hpp, circuit_breaker.cpp.
--   DeadLetterQueue    dead_letter_queue.hpp, dead_letter_queue.cpp.
--   NatsClient         nats_client.hpp, nats_client.cpp: publish and publish_log.
--   LeadAgents         lead_agent_base.hpp, lead_agent_base_impl.hpp: processMessage, its parts, and the
--                      virtual methods as a record of hooks; coordination_state.hpp (Coordination), the
--                      messages of core/message.hpp and message.cpp (Message), the hooks of
--                      module_lead_agent.cpp (ModuleLead) and component_lead_agent.cpp (ComponentLead).
--   TaskAgent          task_agent.cpp: processMessage and executeBash; the patterns of validateCommand
--                      and the command line for bash are in Command.
--   Uuid               generate_uuid of store.cpp.
--   Json               the interface of the JSON library; Json.Sample is a concrete one.
--   Base               shared names: tests, lists, integers, maps, and methods that may throw (Exec).
-- Further children hold the theorems, under the name of what they prove, and examples (Examples, and
-- Sample for their data). The files named .hpp are in include/agamemnon, those named .cpp in src.
--
-- State and operations. A component's state is a record, and a method a function of it. A method that
-- may throw is an `Exec`: it gives `none` for the exception together with the state at that point, so
-- what was written before a throw stays written. The state of the orchestrator is a World: the store,
-- the publications so far, and the draws of the random generator. The orchestrator calls the store, the
-- store the GitHub client, which is a parameter: a record of calls over a state of its own, each of
-- which may throw. The JSON library is a parameter too, with the laws that the code relies on. The clock
-- is read through arguments, one value for a call of a method; so are the message ids, the shell and
-- std::regex_replace.
--
-- Concurrency. A method of the store, the queue or the breaker is one step; the mutexes make it so,
-- except that a collection is loaded outside its mutex, by call_once, and that the breaker's calls are
-- several atomic operations. A method of the orchestrator is a sequence of such steps with no other
-- thread in between. An agent handles one message after the other.
--
-- Bounds. The loop over the attempts of a publication runs on the number of rounds left, which is
-- kMaxRetries; the post-pass of decompose on the number of tasks left. Every other loop is by recursion
-- on a list. The int of the failure counter wraps around. The delay between attempts is an int of 32
-- bits: a publication whose delay overflows has no result, as the source's behaviour is undefined there.
--
-- Not modelled: the HTTP routes, authentication, rate limiting, metrics, the webhook, peer discovery
-- and the programs around them; connecting and subscribing to NATS; of the agents the chief architect,
-- synthesizeResults of the module lead, the message queues and what is compiled in only with
-- ENABLE_GRPC; the message bus, the failure injector and the concurrency library, which schedule and carry the messages.
mod Base
pub mod Json
pub mod CircuitBreaker
pub mod DeadLetterQueue
pub mod NatsClient
pub mod Store
pub mod Uuid
pub mod PlanningBreakdown
pub mod Orchestrator
pub mod HmasTypes
pub mod LeadAgents
pub mod TaskAgent
pub mod StateMachine
