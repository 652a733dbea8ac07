-- ===== src/Lib.antt =====
-- A model of the user and service management server: users with roles, services with versions,
-- kept in PostgreSQL through gorm and offered over HTTP.
--
-- Parts, and where they are modelled:
--   * Errors, Models: internal/errors/errors.go and the structs and constants of internal/models.
--   * Gorm: the database, which is not the program's code. A `Database` is a record of calls on
--     an abstract `World`, each of which may fail; `tables` says what the tables hold. A chain of
--     statements with early returns is a `do` block of `Action`s, and `or_error` is
--     `if err != nil { return f(err) }`. Gorm/Laws.antt states what the program relies on
--     (`IsRelational`): what each call reads, writes and reports, unique indexes, the foreign key
--     of a version, and that a transaction is all or nothing. Gorm/Rules.antt has one proof rule
--     for each kind of statement. Gorm/Memory.antt is a database in memory, with a schedule of
--     faults, that satisfies the hypotheses; the tests run on it. What the operations do is stated
--     by the values that they should write, not by the helpers that they write them with.
--   * Users: internal/components/user/operations.go. Each method of `operations` is the function
--     of the same name in snake case (`CreateUser` is `create_user`).
--   * Services: internal/components/service/operations.go. A writing method has a database part
--     (`CreateService`: `insert_service`) and then raises the flag `toRefreshViews`
--     (`request_refresh`), by which it asks the background worker to refresh the sorted view;
--     `create_service` is both. The function that a method hands to `Transaction` is named for
--     the rows it writes (`create_version_rows`). Services/Operations/Pages.antt computes
--     `LIMIT` and `OFFSET` of the listings, Services/Operations/Slices.antt reverses a slice.
--   * Utils: internal/utils/utils.go, the check of a JSON payload against a template
--     (`EnsureFieldsStrictlyExists`), and the templates of internal/models.
--   * Middleware: internal/middleware/mid.go, and the routes of internal/components/*/routes.go
--     and cmd/api/api.go with the middleware in front of each.
--   * Handlers: internal/components/user/handlers.go and internal/components/service/handlers.go.
--     A handler is a chain of steps on the world, each of which goes on, responds or panics
--     (`x.(string)` on another type, or a listing that panicked). Where a handler has the name of its operation, it has
--     another here: `updateUser`, `deleteUser` and `fetchUsers` are `change_user`, `remove_user`
--     and `list_users`; `updateService`, `deleteService`, `fetchServices`, `getServiceVersion`,
--     `addServiceVersion`, `updateServiceVersion`, `deleteServiceVersion` and
--     `fetchServiceVersions` are `change_service_by_id`, `remove_service_by_id`, `list_services`,
--     `get_version`, `add_version`, `change_version`, `remove_version_by_tag`, `list_versions`.
--   * Services/Worker: `SyncDataWithSortedViews` of internal/components/service/operations.go. The
--     goroutine is a program counter with the live local variables (`Pc`), `worker_step` its next
--     step. Services/Worker/System.antt puts it among the operations: an operation writes in one
--     step and raises the flag in a later one, in any interleaving with the worker (`Reach`).
--     Services/Races.antt interleaves two requests to delete the same version.
--   * Auth: internal/auth/jwt.go and internal/auth/password.go. `JwtLibrary` is the JWT library,
--     `IsJwt` what the program relies on in it; Handlers/Users/Session.antt joins `login`, the token
--     and the middleware. Passwords are lists of bytes, and an index out of range is a panic.
--   * Roles, Handlers/Roles: internal/components/role, and internal/misc/user_roles.go
--     (`LoadUserRoles` is `load_user_roles`; the global map is passed in and returned).
--   * Migration: cmd/migration/migrate.go. The order in which Go ranges over the map of the default
--     roles is an argument. Configs: internal/configs/envs.go. Main: cmd/main.go up to the server's
--     start; `log.Fatal` is an error.
--   * Api: cmd/api/api.go. A request with its endpoint goes through the middleware to the handler
--     (`serve`); `serve_all` handles requests one after the other. Gorm/Kept.antt and
--     Handlers/Kept.antt carry a property of the tables through statements and handlers.
--   * Prelude: what the modules share: tests, 64-bit integers, lists, maps, segments of lists.
--
-- Choices: `int` and `int64` are ℤ, and their arithmetic wraps at 64 bits; `uint` ids and row
-- counts are ℕ; `version_count` is computed by the database, without wrap-around. The loop that
-- reverses a slice runs on fuel, the length of the slice, which is enough. A listing that panics, by
-- a division by 0 or an index out of range, has the result `none`. `Find` returns the rows in an order
-- that the database chooses at each call, since no query has an `ORDER BY`. A payload is an
-- association list with distinct keys, which is what a Go map is.
--
-- The loops that write the ranges of the password's characters run on fuel, the length of the
-- range, which is enough (`write_runes-once`).
--
-- Not modelled: the timestamps and the soft-delete column of `DBModel` (the deletions are
-- `Unscoped`, so no row is ever soft-deleted), logging, the mutex (a reading or a raising of the
-- flag is one step), sleeping and the length of the ticks, the JWT library, bcrypt, the source of
-- randomness and the validator (parameters), the texts of messages that are printed with arguments,
-- the JSON encoding of responses, the statements that define tables (parameters), sockets, signals
-- and the shutdown of the server, and the mocks of the tests.
pub mod Prelude
pub mod Errors
pub mod Models
pub mod Gorm
pub mod Middleware
pub mod Auth
pub mod Users
pub mod Services
pub mod Roles
pub mod Configs
pub mod Migration
pub mod Api
pub mod Main
pub mod Utils
pub mod Handlers
