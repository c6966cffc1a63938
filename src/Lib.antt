-- ===== src/Lib.antt =====
-- TcpRedirector sends the TCP connections of chosen processes through a proxy. A Windows kernel
-- driver (src/driver) can redirect connections at the filtering platform; the service
-- (src/service/TcpRedirectorService) redirects packets with WinDivert to a relay of its own, which
-- talks to the proxy. This library models the driver's core, and of the service the rule engine,
-- the connection table, the packet capture, the relay, the connection tracker, the statistics, the
-- provider of Kerberos tokens, the configuration, the schedule of the log rotation and the Base64
-- coding, and the store of security contexts of the authentication agent (src/auth-agent).
--
-- Driver (src/driver/TcpRedirectorDriver). Driver.Entities has the records of
-- domain/entities/RedirectInfo.h. Driver.Service models domain/services/RedirectService.c:
-- RedirectService is REDIRECT_SERVICE, and initialize, cleanup, enqueue, dequeue, peek_batch,
-- acknowledge, add_rule, clear_rules, match_rule, identify_process and get_stats are the functions
-- RedirectService_Initialize and so on. Driver.Ioctl is IoctlHandler_DeviceControl of
-- infrastructure/ioctl/IoctlHandler.c, one function per request, Driver.Callout is
-- TcpRedirectClassify of infrastructure/wfp/WfpCallout.c, and Driver.Lifecycle is DriverEntry and
-- DriverUnload of adapters/driving/DriverEntry.c with what they call to create and delete objects.
-- Driver.Reach lets requests and connections arrive in any order. The functions run under spin
-- locks, so each is one step; a block of pool is a value with the tag of its allocation, and a
-- free names a tag. What the kernel answers is a parameter: ProcessApi, Replies, LoadReplies, and
-- the function that says which allocations succeed.
--
-- Rule engine (src/service/TcpRedirectorService/domain/services/RuleEngine.h). RuleEngine has
-- add_rule, remove_rule, update_rule, set_rules, match_rules (Match), should_redirect and
-- wildcard_match. The sort of the C++ library is the parameter Sorter: its result is a permutation
-- in the order of the priorities.
--
-- Connection table (infrastructure/relay/ConnectionTable.h). ConnectionTable has a list of chains;
-- add, get, get_proxy_config_id, is_tracked, remove, set_process_info, add_bytes, get_info and
-- clear are the methods. The number of buckets is a parameter of the build, and the theorems ask
-- that it is not zero. ConnectionTable.View is the abstract view, a list of entries for each port,
-- and ConnectionTable.Calls has the methods as calls.
--
-- Capture (infrastructure/capture/WinDivertCapture.cpp and .h). Capture.Ports has the two bitmaps
-- of decisions, Capture.Process has CheckProcessRule with FindPidBySourcePort, FindTargetPid and
-- the walk of the process tree, and Capture.Step has capture_packet, the body of CaptureLoop for
-- one TCP packet. The capture asks the rule engine (match_rules) and keeps its connections in the
-- table. What Windows answers is the parameter Os.
--
-- Base64 has the encoders, relay_encode of infrastructure/relay/TcpRelayServer.h, basic_encode of
-- infrastructure/auth/BasicAuthenticationProvider.cpp and config_encode of
-- infrastructure/config/ConfigManager.cpp (Base64.Stored), and in Base64.Decoders the decoders,
-- config_decode of ConfigManager.cpp, sspi_decode of infrastructure/auth/auth_sspi.cpp and
-- agent_decode of src/auth-agent/TcpRedirectorAuthAgent/SspiEngine.cpp.
--
-- ConnectionTracker (domain/services/ConnectionTracker.h) has the map of the connections that are
-- shown, with one function per method; a call of the callback is the second component of a result.
-- The order of the map is left open.
--
-- Relay (infrastructure/relay/TcpRelayServer.h). Relay.connection_handler is ConnectionHandler: a
-- machine that stands at the labels retry_proxy_connect and retry_connect of the source, with one
-- function for each part of the code between them; events records what it does to sockets,
-- contexts and counters, and the parameter World answers it, each answer as a function of the
-- events so far. Its fuel is 28 jumps, which Relay.Termination shows to be enough; Relay.Budget
-- counts connections and requests. Relay.Replies has the tests of the proxy's reply and
-- Parse407Challenge of infrastructure/auth/auth_sspi.cpp. Relay.Accept is HandleNewConnection,
-- which asks the connection table. Relay.Listening is Start, Stop and a round of AcceptLoop.
-- Relay.Bridge is OneWayRelay, as a function of what recv gives and send takes, and StartBridge,
-- as two threads whose steps come in any order, a step being a round of the loop or a call after
-- it.
--
-- ContextStore (src/auth-agent/TcpRedirectorAuthAgent/ContextStore.cpp and .h) has create, get,
-- close, cleanup_expired and clear; the lock makes each a step, the clock is an argument, and a
-- history is a list of calls.
--
-- Config (infrastructure/config/ConfigManager.cpp) has the methods of ConfigManager on a Store:
-- the manager, the content of its file and its listeners. Config.Entities has the settings of
-- infrastructure/config/Config.h, Config.Document what SaveImpl writes and Config.Load what
-- LoadImpl makes of it, with the assignments that an exception leaves. The JSON library is the
-- interface of Config.Json, whose laws are hypotheses; Config.Coded is a library that meets them.
-- DPAPI, the conversions of utf8_convert.h and the file system are the parameters Windows and
-- FileApi.
--
-- Ipc (adapters/driving/IpcHandler.h) has the requests get_config, set_config and get_stats:
-- set_config parses its text with the interface of Config.Json, sets the proxy of Config and
-- saves, get_stats asks the callbacks and the connection tracker. Ipc.Requests has what
-- set_config, set_rules, set_log_level and a reload (adapters/driving/ServiceMain.h) do to the
-- configuration, the rule engine and the logger.
--
-- Logger (infrastructure/logging/Logger.cpp and .h) has the calls of the logger and its thread,
-- which Logger.Writer takes in turns: a call of Log, the taking of a batch and the writing of an
-- entry are one turn each. Logger.Ring is the ring of the last 2000 entries, Logger.Files the log
-- file with its backups and RotateLogFile. The parameters Disk and Windows answer for the file
-- system, strftime and text mode.
--
-- LogRotator (infrastructure/logging/LogRotator.cpp and .h) has NeedRotate, the loop of
-- SchedulerThread on its rounds, each of sixty seconds and a delay, and DeleteOldArchives on the
-- entries of a directory; localtime_s is a parameter.
--
-- KerberosAgent (infrastructure/auth/KerberosAgentProvider.cpp and .h) has the calls of the
-- provider, create_context, continue_context, close_context and reset (disconnect_from_agent), and
-- keepalive, one round of KeepaliveLoop, taken one after another. KerberosAgent.Launch is
-- LaunchAuthAgentInUserSession and KerberosAgent.Results what the provider makes of an answer. The
-- parameter World answers for Windows, the pipe and the JSON library, each answer as a function of
-- the events so far. The loops over attempts have the numbers of the code as fuel: ten waits for
-- the pipe and twenty attempts after a launch.
--
-- Stats (infrastructure/stats/StatsCollector.cpp and .h) has on_packet, get_stats and reset; the
-- quotients of doubles are parameters. on_packet takes its loops on the smallest and the largest
-- size as undisturbed; Stats.Loop has these loops step by step, for several threads and under any
-- schedule.
--
-- Loops are recursion on the list that they walk; the walk of the process tree has as fuel the ten
-- rounds that the code allows, the loops over a batch the number of entries asked for. Machine
-- words are natural numbers with the wrap-around written out.
--
-- Not modelled: the rest of the authentication, RotateAndArchive and the start of its thread, the
-- other answers of IPC, pipes and service control, the rest of the authentication agent, the hook
-- DLL, the user interface and the vendored libraries. They are calls of Windows and of libraries
-- for the most part.
pub mod Prelude
pub mod Driver
pub mod RuleEngine
pub mod ConnectionTable
pub mod Capture
pub mod Base64
pub mod Relay
pub mod ContextStore
pub mod ConnectionTracker
pub mod Stats
pub mod KerberosAgent
pub mod Config
pub mod LogRotator
pub mod Logger
pub mod Ipc
