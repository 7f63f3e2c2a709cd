-- ===== src/Lib.antt =====
-- xform: a panel for one xray server. This library models its core, in Go under internal/:
--
--   * Reconcile (internal/reconcile/reconcile.go): a raw traffic counter of xray becomes a total that
--     survives restarts of xray, and a speed. A uint64 wraps at 2^64.
--   * XrayConfig (internal/xrayconfig/view.go, xrayconfig.go): the inbound view of the xray config,
--     its rules of management and flow, the labels; XrayConfig.BuildView makes it of the decoded
--     config, XrayConfig.RosterParse is what a parse hands to the roster store. XrayConfig.Jsonc (render.go) is the scan of a JSONC document into a tree of
--     spans, XrayConfig.Render the edits that a plan makes in the clients arrays of a config and
--     their application to its bytes.
--   * Users (internal/users/users.go, store.go): the tables `roster` and `users` and the methods of
--     Store on them. A table is a list of rows, a statement of SQL a function on it (Users.Store.Sql),
--     a method its transaction: an error returns before the commit. SQLite's `lower` is a parameter.
--     Errors of the database itself are not answers of this model, but for a uint64 that an int64
--     column cannot hold and for a fault in the transaction of AddRosterUser, which is an argument of
--     its own and `none` in Roster.Panel. A total is a number, so the model is the store's while no total
--     passes 2^63, where SQLite would go over to REAL.
--   * Roster (internal/roster/service.go): the write path of the Roster. Roster has the planning of an
--     edit, Roster.Service the state behind the mutex and its critical sections, Roster.Plan the
--     functions on the view and the render plan, Roster.Apply the apply pass, Roster.Mutations Add
--     and Edit, Roster.Mutations.Leaving Disable, Delete, Enable and the recovery of deletes,
--     Roster.Converge one config parse against the Roster. The store, the config file and the running xray are reached through records
--     of operations (StoreApi, Outside); Roster.Panel fills StoreApi with the methods of Users.
--   * Users.Collector (internal/users/collector.go): the state between polls and the steps on it;
--     Users.Collector.Collect is one poll, over an interface to the store that Users.Collector.Panel
--     fills; Users.Collector.Accounts keeps the books of one user across polls.
--   * Advertisements (internal/advertisements/view.go, parse.go): the advertised settings and their
--     parse on the JSON value of a document, Json what that uses of encoding/json. Hosts is the check
--     of hosts in both packages, on what netip and idna answer.
--   * Profiles (internal/profiles/profiles.go): Profiles.Match and Profiles.Values are the checks of
--     one advertisement, Profiles.Candidate evaluateInbound, Profiles.Evaluate the evaluation of a
--     user on the inbound view and the advertisements. Profiles.Uri (uri.go) is the link, on bytes.
--   * FileSource (internal/filesource): a watched file and its last valid parse, the watch as a
--     sequence of events. SnapshotCache (internal/snapshot/snapshot.go): the cache in front of a
--     collector.
--   * Auth (internal/auth/auth.go): the admission gateway. Auth has the secrets and headers,
--     Auth.Sessions the store of Password Sessions, Auth.Gateway the handler before the application.
--     SHA-256, the cookie and the body of a login are parameters.
--
-- How they interact: a mutation of Roster writes Users, plans operations and queues a change; the
-- apply pass renders all queued changes into the config file, pushes each to xray and settles or
-- fails it; the collector's poll hands Users the deltas that Reconcile found, and the parse.
--
-- Maps of Go are association lists. Strings are the native text type, or lists of bytes where the
-- code walks them; the tables of upper and lower case and of simple folding are data of Go's library
-- and come in as `CaseTables`. Loops over slices are recursion on the list. The scan of a document
-- recurses on fuel: every byte costs two units at most, and XrayConfig.Jsonc.Enough says what 2n + 1
-- units decide for a document of n bytes. The digits of a port are at most five. Concurrency is an
-- explicit sequence of critical sections (Roster.Service.Queue); the apply pass is also modelled as
-- one run without interference (Roster.Apply).
--
-- Not modelled: the sources that wrap the watcher, the journal, the listener, the HTTP handlers, the
-- clients of xray, and what only calls the operating system. The timer of a wait and the logging have
-- no state here. JSON decoding and encoding of a single string, the decoding of the xray config, the tokens of a document of advertisements, the parse of addresses,
-- names and UUIDs, the canonical form of a JSON object and the division of floats in a speed are
-- parameters.
pub mod Base
pub mod Hosts
pub mod Json
pub mod Reconcile
pub mod XrayConfig
pub mod Users
pub mod Roster
pub mod Auth
pub mod Advertisements
pub mod Profiles
pub mod FileSource
pub mod SnapshotCache
pub mod Tests
