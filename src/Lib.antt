-- ===== src/Lib.antt =====
-- Verification of parts of ToCloud9: servers that split a World of Warcraft realm into services.
--
-- The parts modelled:
--   * The guid server (apps/guidserver/service) hands out ranges of GUIDs to the game servers. It keeps
--     lists of free ranges, and goroutines that merge refill requests and ask a storage for more.
--   * The group server (apps/groupserver/service, apps/groupserver/repo) keeps parties and raids: a
--     service over a cache in memory over MySQL, with events sent to a message bus.
--   * The servers registry (apps/servers-registry) distributes maps over the game servers that
--     register, and answers which of them handle a map.
--   * The matchmaking server (apps/matchmakingserver) queues groups for battlegrounds, picks the groups
--     that play together, and keeps who is invited and who is active.
--   * The chat server (apps/chatserver/service, apps/chatserver/repo) keeps the channels of chat in
--     memory over MySQL: members, owner, moderators, mutes, bans and passwords.
--   * The guild server (apps/guildserver/service, apps/guildserver/repo) keeps guilds with their members
--     and ranks: a service over a cache in memory over MySQL, with events sent to the message bus.
--   * The gateway (apps/gateway/packet) writes and reads the packets of the game's protocol.
--   These processes know each other only by calls and events; each is modelled by itself.
--
-- Files:
--   * Prelude and its children: names that all share. Machine words are numbers with the wrap-around
--     written out, Go maps are functions into Option, lists are indexed by native numbers.
--   * GuidServer/Diapasons: guid-diapasons.go. GuidsLeft, UseGuids, CleanupEmpty and AddDiapason are
--     guids_left, use_guids, cleanup_empty and add_diapason; the list of ranges is the state.
--   * GuidServer/Service, GuidServer/Middleware: guid.go. GetGuids is get_guids, over the snapshots of
--     the cache that its passes meet; the cases of the select are on_request and on_response, a worker
--     is request_processor, NewGuidService is new_guid_service. The storage and the floating-point
--     operations are the records MaxGuidStorage and Floats.
--   * GuidServer/Ranges, Issue, History, Merging, Waking, Refill, Startup: theorems on them. Merging has the
--     middleware as a step relation, History sequences of UseGuids and AddDiapason.
--   * Groups/Model: repo/group.go. Groups/Cells and Groups/Cache: service/group-cache_inmem.go, with
--     backing arrays, slices and pointers to members, since the cache shares them. Groups/World: the
--     memory, the environment (MySQL, the character service, the message bus, Go's choice of a new
--     capacity) and the monad of the handlers. Groups/Maps: service/map.go. Groups/Parts,
--     Groups/Membership and Groups/Settings: service/group.go, one function for each method.
--   * Groups/Arrays, Pointers, Presence, Removal, Rights, Uninvite, Lifecycle, Joining, Icons:
--     theorems on them.
--   * Registry/GameServer: repo/game-server.go. Registry/Weights, Packing, Distributor:
--     mapbalancing/binpack. Registry/Service: service/game-server.go, over a repository and the other
--     calls as the record GameServerRepo. Registry/Storage: repo/game-server_inmem.go, one such
--     repository. Registry/Lookup, Conservation, Balance, Distribution, Identity, Load, Pending,
--     Redistribution:
--     theorems.
--     Registry/Gateways: service/gateway-server.go over repo/gateway-server-inmem.go, the gateways of a
--     realm; Registry/Choice: theorems.
--   * Matchmaking/Battleground: battleground/battleground.go. Matchmaking/Selection and Queue:
--     service/battleground-queue.go, over a battleground service that is the record
--     BattleGroundService. Matchmaking/Links: the links of players in
--     service/battleground_service.go. Matchmaking/Fitting, Balanced, Membership, Slots, Leaving:
--     theorems.
--   * Chat/Model: repo/channels.go. Chat/Calls: the calls of MySQL and the environment, where a Moment
--     is the clock and the order in which Go goes over a map. Chat/Queries and Chat/Channel: the
--     methods of ActiveChannel. Chat/Manager, Commands and Sweeps: those of ChannelManager, both in
--     service/channel-manager.go. Chat/Guards, Members, Owners, Undo, Invariant, Transfers, Pruning, Roster,
--     History, Ownership, Entry, Refinement, Bans, Rights, Handover, Cleanup: theorems; Roster has the
--     abstract specification of a channel, Refinement that the commands implement it.
--   * Guilds/Model: repo/guilds.go. Guilds/World: the memory, the environment and the monad of the
--     handlers, where a nil pointer is a crash. Guilds/Cache: service/guilds-cache_inmem.go.
--     Guilds/Lookup, Service, Settings and Ranks: service/guilds.go. Guilds/Promotion, Membership, Accepting,
--     Consistency and Calls: theorems.
--   * Gateway/Packet: packet/writer.go, reader.go and packet.go. Gateway/Bytes, PackedGuids, Fields and
--     RoundTrip: theorems; Fields has what a caller writes and reads one after another.
--   * The module Examples of each part applies the theorems at concrete inputs.
--
-- Bounds and fuel: the one function on fuel is search_from, Go's binary search, with the length for its
-- fuel; each round shortens the interval. Every other loop goes over a list. GetGuids may call itself
-- for ever when other calls always take what was free, so it takes a list of snapshots.
--
-- Not modelled: contexts, timeouts, logging and gRPC; channels that are full; interleavings of two calls
-- of the group service (the cache's lock makes its methods atomic, the service's methods take several);
-- the SQL statements, which are the environment's; the rest of the battleground service; floats in
-- packets, and the connections that carry them; the gRPC
-- handlers and listeners of the chat and guild servers, and interleavings of their calls; the folding
-- of a channel's name to lower case, a parameter; the other servers.
pub mod Prelude
pub mod GuidServer
pub mod Groups
pub mod Registry
pub mod Matchmaking
pub mod Chat
pub mod Guilds
pub mod Gateway
