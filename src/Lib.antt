-- ===== src/Lib.antt =====
-- clawdh: the panel that lends Claude accounts to people, the gateway that serves them, and what a machine
-- keeps: its accounts, the moves of its sessions between them and its queue of remote-help requests.
--
-- The panel (panel/, panelpg/) keeps people, their machines, the accounts whose logins were handed up,
-- the shares that give a person a key to an account, and invites. Every change is a decision that
-- `Store.Mutate` takes on a read of the whole state and writes back if nobody else wrote in between.
-- The gateway (internal/gateway/) opens a share by its key, keeps each account's login fresh and forwards
-- a member's requests to Anthropic with the account's token in place of the key. A member's machine
-- holds the requests for remote help that its owner has not decided on (internal/remotejobs/). It also keeps
-- accounts of its own (internal/accounts/), moves a running session from one to another, at once or when a
-- share of the week is used (internal/switching/, internal/cli/), and has a block of its own in the startup
-- files of the shells (internal/shellrc/). What the gateway has to write to the panel's database waits in
-- queues that a background flush empties (cmd/clawdh-server/dbwriter.go). The installed program replaces itself
-- by a newer release (internal/updater/), and shows how much of each account's plan is used (internal/usage/).
--
-- Panel/Model: panel/model.go and the type Data of panel/store.go, a record of lists.
-- Panel/Roster: the methods of Data in panel/store.go, functions of the state.
-- Panel/Store: Store.Mutate and saveVersioned of panel/store.go over the Save of panelpg/panelpg.go. The
--   backend is a version and a state; what others write during an attempt, the clock's readings and
--   the faults are an environment, attempt by attempt. The loop is by recursion on the retries left, of
--   which the code has eight, so it needs no fuel.
-- Panel/Accounts, Panel/Lending, Panel/People: the decisions of panel/handlers.go and of IssueShareFor and
--   RevokeShare in panel/store.go, as functions from a state to a state or a refusal with its status
--   and sentence. The loops that filter a Go slice in place are modelled on the slots of its array
--   (Base/Scan), since pointers into the array are read afterwards.
-- Panel/Calls: those decisions as one type of calls, and the states that they lead to from an empty panel.
-- Panel/Presence: panel/presence.go, with the newest metered requests as an argument.
-- Panel/Builds, Panel/Updates: noteBuild and notUpdating of panel/builds.go.
-- Panel/Limits: panel/limits.go, with the table of the ceilings behind arguments.
-- Panel/Spans: humanDuration of panel/store.go and inWords of panel/loginend.go.
-- Panel/LoginEnds: the rest of panel/loginend.go, with the end of a stored login read by a parameter.
-- Gateway/Credentials: internal/gateway/refresh.go, the token manager as state passing; the token service
--   and the stored credential are arguments.
-- Gateway/Headers: the header functions of internal/gateway/gateway.go and withHourCache of
--   internal/gateway/cache.go.
-- Gateway/Proxy: the handler that New builds in internal/gateway/gateway.go. What a key resolves to, the
--   quotas, the renewal and Anthropic are arguments. The proxy calls itself for a replay, on fuel; the
--   handler starts it with two, which is enough since a replay is not replayed (Gateway/Serving).
-- Gateway/Metering: internal/gateway/metering.go, on bytes. JSON decoding is a parameter for each of the three
--   shapes that are decoded, and the white space trimmed from a line is that of ASCII. The fields seen, model
--   and u of usageScanner are one record, Found.
-- Server/Backoff: backoff of cmd/clawdh-server/dbwriter.go, its loop on fuel: the number of failures.
-- Server/Writer: the writer of cmd/clawdh-server/dbwriter.go and what flush does to it; Server/Writer/Run has
--   the interleavings: a request's call and each write of a flush is one step, with whether storeCredential
--   stored the login as an argument.
-- Server/Stored: storeCredential of cmd/clawdh-server/dbwriter.go, the decision it gives to Store.Mutate.
-- Server/Upstream: the dbUpstream of cmd/clawdh-server/db.go: snapshot, freshRead, Resolve and Renew with the
--   managers of Gateway/Credentials. What a read of the panel brings is an argument.
-- Local/Names, Local/Manager: internal/accounts/manager.go with model.go and the file of store.go. The disk is
--   the answers of the calls that make and delete a directory. The loops of uniqueSlug and uniqueAlias
--   have a step for each name that is there and one more, which is enough (Local/Free).
-- Shell/Block: internal/shellrc/block.go, a file as some bytes or missing.
-- Switching/Triggers, Switching/Relaunch: the prompts, rules and arguments of internal/switching/switching.go
--   and rule.go; strconv.ParseFloat is a parameter.
-- Switching/Rules: the hooks of internal/cli/cmd_hook.go and rule.go, on the two files of a supervisor. The
--   environment, the usage reading and whether a write succeeds are arguments.
-- Updating: internal/updater/updater.go, replace_unix.go and replace_windows.go. Release has the requests and
--   what is remembered of them, Checksums the published digest, Swap the renames, Install the check itself
--   and Schedule the timer's loop, on the checks that the environment lets it have. The network, the decoder
--   of the API's answer, the hash and what the file system answers are arguments.
-- Usage: internal/usage/client.go, service.go and store.go. Client has the report that is made of an answer,
--   Gateway the hook of internal/httpserver/gateway_usage.go on the windows that are cached, Service the cache and the cooldowns, Steps the calls, with a Get that asks Anthropic as two steps.
-- Jobs: internal/remotejobs/queue.go, with the requests run, the reports and the file as state.
-- Tests: a concrete panel, gateway, queue and machine.
--
-- Instants are nanoseconds from Go's zero time, as natural numbers; case is folded on ASCII letters.
-- The hash of a key or a code, what is drawn at random or sealed, and the end of a stored login are
-- arguments, as cryptography and encoding are not modelled. Of the gateway's handler the
-- window headers and the hop headers of net/http are left out. The rest of the repository, the rest of the
-- command line, the local web server, the platform glue, the panel's usage board and the web interface, is not
-- modelled. Nor are the texts that the usage cards show, and the environment variables of the updater.
pub mod Base
pub mod Panel
pub mod Jobs
pub mod Gateway
pub mod Local
pub mod Server
pub mod Shell
pub mod Switching
pub mod Updating
pub mod Usage
pub mod Tests
