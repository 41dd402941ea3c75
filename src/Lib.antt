-- ===== src/Lib.antt =====
-- Goop, a bot that joins chat gateways (Battle.net, the Chat API, Discord, the console), relays the
-- events of each to the others, and executes commands that users send in chat.
--
-- Parts of the program, and the files that model them. Paths are from the repository's root.
--
-- - Gateway/Access (gateway/access.go): access levels. AccessLevel is an int32, here an integer whose
--   sums are wrapped to 32 bits. String is `to_string`, UnmarshalText is `unmarshal_text`.
-- - Gateway/Trigger (gateway/gateway.go): how a message is cut into a command and its arguments.
--   ExtractTrigger is `extract_trigger`, FindTrigger is `find_trigger`; the regular expression is the
--   matcher `match_at`, and FindAll is `find_all`.
-- - Gateway/Common, Gateway/Api, Gateway/Find, Gateway/Events (gateway/gateway.go, gateway/events.go):
--   users, channels, IDs, the interface of a gateway, the searches for users, and the events. A gateway
--   is seen through its answers, each of which may depend on the calls made before, so the state that
--   a command runs on is the history of those calls, with the newest first.
-- - Gateway/Bnet (gateway/bnet/bnet.go): the Battle.net gateway. Users and their access are in
--   Gateway/Bnet, the buffer of messages in Bnet/Queue (`say`), the handlers in Bnet/Handlers and Bnet/Bans,
--   whom a message addresses in Bnet/Address, and the text of relayed events in Bnet/Injection.
-- - Gateway/Capi (gateway/capi/capi.go): the Chat API gateway. Users, access and requests to the bot are
--   in Gateway/Capi, the map of user IDs with the handlers that keep it in Capi/Handlers, and the handler
--   of messages in Capi/Messages: onMessageEvent is `on_message_event`.
-- - Gateway/Reconnect: the method Run of bnet.go, capi.go and discord.go, as what it fires and waits for
--   a list of the outcomes of its attempts to connect.
-- - Gateway/Discord (gateway/discord/): Discord/JoinMode is const.go. Discord/Users has users and their
--   access; Discord/Presence is who is online, where updatePresence is `update_presence`;
--   Discord/Messages is onMessageCreate; Discord/Mentions is parse; Discord/Relay is what is sent for a
--   relayed event and the text of the list of users online, and Discord/Online is that list.
-- - Gateway/Stdio (gateway/stdio/stdio.go): the console. The method read is `read`, an input in and
--   events out; the method Relay is `relay_line`.
-- - Cmd (goop/cmd/): the commands. Cmd/Kick, Cmd/Ban (Ban and Unban), Cmd/Set, Cmd/Alias, Cmd/Listing
--   (List), Cmd/Where (Where, Who), Cmd/Settings, and Cmd/Say (Echo, Say, SayPrivate, Whois, Whoami, Ping,
--   Trigger);
--   the Execute method of each is `kick_execute` and so on, in the monad `M` of Gateway/Api. A loop
--   over users is a function on the list of users.
-- - Config/RelayTable and Config/Compact (config.go): GetRelay is `get_relay`; what Map writes of the relay
--   section, and how an empty configuration reads it, is `rewritten`. Config/Nested (structs.go):
--   DeleteEqual on nested maps is `delete_equal`. Config/Reflect (structs.go): FlatMap is `flat_map`, Find
--   is `find_key`, and Get is `get`, on values as `reflect` sees them. Config/Merge (structs.go): Merge is
--   `merge` between values of one type, and Copy is `copy`.
-- - Relay (goop/relay.go): the relay from one gateway to another, an event in and steps out.
-- - Goop (goop/goop.go, goop/events.go): the main object. AddGateway is `add_gateway`, AddCommand is
--   `add_command`, execTrigger is `exec_trigger`, autoKickChat and autoKickJoin are
--   `auto_kick_event`. What is started in a goroutine is a `Job`.
-- - Goop/Start (main.go, goop/cmd/cmd.go): what New makes of the configuration after the plugins, `start`.
--   AddTo is the loop `each step_command` over `command_fields`; the body of the loop over the Discord
--   gateways is `step_discord`.
-- - Golang: what the program uses of Go's standard library. Base: names and lemmas that all files
--   share. Examples: tests, and the theorems applied to concrete inputs.
--
-- How they interact: a gateway fires events; a relay turns them into calls of other gateways; the main
-- object turns a Trigger event into executions of commands; a command calls the gateway back.
--
-- Representation: a string is its list of code points; a map is an association list, in an order
-- that Go's `range` may take; a nil pointer is `none`; an error is a value of `Error`; letters are
-- folded in ASCII only. A text sent to Discord is the list of its bytes. Fuel: the scans of a text take the text's length, and a match takes at least
-- one character off; `fire_on` takes the depth of the calls.
--
-- Parameters: what the New of a gateway's package returns, and the main object that the plugins leave,
-- when the program starts; what a gateway answers to a command; what the Battle.net client, the Chat API bot and the
-- Discord session answer; the configuration that the settings command changes; `network.IsCloseError`; sort.Slice, which is taken to keep the entries; sort.Strings and sort.Sort; the relay
-- configuration that the main object asks for; reflect.DeepEqual, whose equal values agree at every
-- path.
--
-- Not modelled: setting, merging and saving the configuration, but for what is named above; plugins; the commands Time and Uptime,
-- which read the clock; goroutines, but for the reader of the buffer of messages and the waits of the
-- loops that connect; and the order in which the event library calls handlers.
mod Base
mod Golang
pub mod Gateway
pub mod Cmd
pub mod Relay
pub mod Goop
pub mod Config
mod Examples
