-- ===== src/Lib.antt =====
-- A model of agnet's Go daemons, and what is proved of it.
--
-- agentd runs coding agents on a machine: it starts or attaches to them, types into them, follows
-- their output, and keeps a numbered history of each conversation. agentgw connects to the agentd of
-- every node through an SSH tunnel and a WebSocket proxy. Clients call agentd's handlers, which read
-- and change agents; every event goes into the agent's buffer, into the store, and to all clients.
--
-- The parts, each with the code that it models:
--   Common            lists, bytes of a text, UTF-8, JSON values, maps: what Go's library is used for.
--   Agentd.EventBuf   agentd/internal/eventbuf/eventbuf.go: `push` is the body of `Append`,
--                     `update_or_append` is `UpdateOrAppend`, `since` is `Since`, and so on.
--   Agentd.Tmux       agentd/internal/agent/agent.go, sendTmuxInput, sendTmuxLiteral, sendTmuxKey.
--   Agentd.Permission agentd/internal/agent/permission.go.
--   Agentd.Agent      agentd/internal/agent/agent.go, the agent, WriteInput, ValidateNonShellPane.
--   Agentd.State      agentd/internal/agent/manager.go, DeriveAgentState.
--   Agentd.Provider   agentd/internal/provider/capabilities.go, lifecycle.go, and
--                     agentd/internal/ws/send_strategy.go.
--   Agentd.Store      agentd/internal/store/store.go, the table conversation_events.
--   Agentd.Hub        agentd/internal/agent/event_manager.go: the state that the handlers work on.
--   Agentd.Handler    agentd/internal/ws/handler.go: Key (conversationKey), History
--                     (conversationHistory, conversationClear), Answer
--                     (conversationPermissionResponse); and
--                     agentd/internal/ws/send_strategy_exec.go: Send (handleSendTmux), Terminal
--                     (handleSendPTY).
--   Agentd.Interactive agentd/internal/agent/event_kinds.go.
--   Agentd.Stream     agentd/internal/agent/manager.go, handleStreamJSONEvent: Message, Tool, Session
--                     and Control are the cases of its switch, Dispatch the switch.
--   Agentd.Watched    agentd/internal/agent/event_normalizer.go, and makeWatcherCallback of
--                     agentd/internal/agent/manager.go.
--   Agentd.Attach     agentd/internal/agent/manager.go, ClassifyAttachCandidate, AutoAttachExisting.
--   Agentd.Cleanup    agentd/internal/agent/manager.go, CleanupDeadAgents.
--   Agentd.Scanner    agentd/internal/scanner/scanner.go; Ancestors is the filter of parent agents,
--                     Pane the search of a tmux pane, Linux is scanner_linux.go.
--   Gateway           agentgw/internal/node/node.go; Registry is registry.go, Link is
--                     tunnel_manager.go and proxy_manager.go; Sanitize is
--                     agentgw/internal/ws/sanitize.go. Manager is agentgw/internal/node/manager.go:
--                     Connect, Restart, ConnectAll, the health check, and the loss of a proxy;
--                     Shell is the commands that a restart sends.
--
-- State is passed on: a method that mutates its receiver returns the new value beside its result, and
-- a record update stands for the fields that it writes. A mutex makes a method one step; what other
-- goroutines do between two steps of a handler is not modelled. Numbers are natural; the counter of
-- the buffer keeps its wrap at 2 ^ 64. A text is a String where it is compared and a list of bytes
-- where it is taken apart.
--
-- A Go map has no order. Where the order in which a range meets its items shows in the result, the
-- range is an argument `ranged`, which meets each item once. The field `changes` of the hub lists the
-- changes of status that the callbacks of the agents are told; `broadcasts` is the rest of what the
-- handlers push.
--
-- Outside the model, and parameters of it: tmux, processes, the clock, UUIDs, the opening of tunnels
-- and proxies, and the text that a time is written as. SQLite is outside too: a table is the list of
-- its rows, and a statement does what its SQL says or fails.
--
-- The loop of sendTmuxInput is structural recursion on a number of rounds. A round that takes a piece
-- takes at least one byte, so a round for every byte is enough for a text that it can take.
--
-- The walk of the scanner up the parents of a process marks what it has seen, and gets one round for
-- each process of its map and one more. The walk to a tmux client has no such marks; it gets `rounds`,
-- and `none` says that they were too few.
--
-- What the network answers the gateway's attempts to connect is a record of functions of the attempt's
-- number. `ConnectAll` makes three attempts and `Restart` ten, as the code does.
--
-- The looks of handleSendPTY at the permission prompt are an argument, one Boolean for each.
--
-- Not modelled: conversationSend's decoding of images, the starting of agents, the rest of the
-- manager of agents, the gateway's deployment and forwarding of calls, the scanner's search for session
-- files, the watchers, and the servers; they are I/O for the most part. The Flutter application is not Go.
pub mod Common
pub mod Agentd
pub mod Gateway
