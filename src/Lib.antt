-- ===== src/Lib.antt =====
-- GOFF Studio, a web studio for the flag files of GO Feature Flag: the rights, edits, diffs and
-- writes that its server decides.
--
-- The program. `internal/app` wires the parts together. A request comes in through
-- `internal/server` (server.go: the handlers; service.go: the operations on flags), which asks
-- `internal/permissions` what the session's groups may do, reads a flag file through
-- `internal/goff` (the adapter between YAML and the `Flag` record), changes the flag by a function
-- on `goff.Flag`, and writes the file through a backend of `internal/storage`: a directory
-- (file.go), a GitHub repository (github.go over `internal/githubapp`) or one of the cloud stores
-- of `backends`. A write names the version of the file that the editor saw; a backend whose file
-- has moved meanwhile asks `Changed` whether the edited flag is another one, and refuses then.
--
-- The modules.
--   Auth                     internal/auth/session.go: the session cookie and the sign-in state.
--                            Sealing: what a cookie gives back.
--   Permissions              internal/permissions/permissions.go: `Allowed` and its tests.
--     Decision               what a set of rules allows, apart from the order of the tests.
--     Reach                  the questions about all teams: `AllowedAnywhere`,
--                            `VisibleEnvironments`, `ActionsFor`.
--     Grants                 `GrantsFor`; Grants/Merged: its result by groups.
--     Validation             `New`, `NamedTeams`; what a valid rule is.
--   Config                   internal/config/config.go: teams, layout, protected environments.
--     Startup                the checks of a configuration; Declared: the teams that pass them.
--     Kinds                  the names of storage kinds, with internal/storage/registry.go;
--                            Agreement: the two places that read them.
--   Diff                     internal/server/diff.go. Longest: the table is that of the longest
--                            common subsequences; Script: the walk back through it; Hunks: what
--                            of the script is shown.
--   Goff                     internal/goff/model.go: the record of a flag and its parts.
--     Compile                internal/goff/condition.go and build.go: a condition as a query, and
--                            unquote of parse.go. Complete: which conditions give one; Quoting:
--                            values in quotes.
--   Rules                    internal/server/server.go: the edits of a flag's rules and the checks
--                            before them. Order, Reorder: `isPermutation`, `reorderRules`;
--                            Changes: `insertRule`, `removeRule`; Serving: `validOutcome`,
--                            `applyProgressive`.
--   Validate                 internal/server/validate.go. Segments: names and parts of a path;
--                            Bounds: counts and percentages.
--   Promote                  internal/server/promote.go and parts of compare.go: copying settings to
--                            another environment. Served: what the copy serves; Metadata: whose
--                            metadata it has.
--   Storage                  internal/storage/storage.go: what a backend takes and returns.
--     GitHub                 internal/githubapp/client.go, `Commit`, and
--                            internal/storage/github.go, `Write`. Swap: its effect;
--                            Progress: its success.
--     FileBackend            internal/storage/file.go. Confined: paths; Atomic:
--                            `writeAtomic`; Rewrite: writes.
--   Summary                  internal/server/summary.go: a flag as a sentence.
--   Service                  internal/server/service.go: the interfaces of the storage and of the
--                            YAML adapter, and the team of a file. Owned: whose a team's file is.
--     Memory                 the state: what was read, by file and version. Maps, Recall: what is
--                            recalled of it.
--     Checks, Edits          the checks of a change, and the functions on the text of a file that
--     and Contents           are given to the storage as `Apply` and `Changed`.
--     References             the variations that a flag names; Dangling: after `SaveVariations`.
--     Steps                  a method as a step on the state that ends with a value or an error.
--     Listing                `List` and `Get`; Visible: what they show.
--     Promises               what the service relies on in a storage; Files: file.go as one.
--     Writes, Creates        `Save`, `Create`, and `Delete`, `Rename`, `SaveVariations`. Rights,
--     and Removals           Fresh and Acting: what has held where they succeed; Refusals: what
--                            is left where `Save` fails.
--     Reviews                the diffs of the review dialog, `Attributes`, `Preview`.
--     History                the commits about a flag; Scans: its loop.
--     Environments, Teams    the folders and their index; internal/server/teams.go.
--     Comparing, Promoting   internal/server/compare.go and the methods of promote.go over the
--                            service: Compare, Promote and DiffPromote. Comparing/Seen: what a
--                            side shows; Promoting/Outcomes: what Promote does.
--     Granted, Standing,     what a right is, said of the rules; the flags that List and Get show, said
--     Keeps, Requests        of the texts of the files; the steps that only read; what Create
--                            checks and makes. Texts: what the others make of a text.
--   Base                     tests, lists, sorting, texts and results that all of them use.
--   Examples                 runs on inputs that can be followed in the source.
--
-- Conventions. A string is the list of its runes. A map is a function with the value of a missing
-- key, or the list of its entries in the order in which the code's loop meets them. A nil pointer
-- is `none`. A float64 of a percentage is a type `Number`, with the operations that the code
-- uses where it computes, and a value of any type a type `Value`, both parameters, and so
-- is strconv.ParseFloat accepting a text. An error is a constructor with
-- the arguments of the source's message. A function on a pointer to a flag is a function from flag
-- to flag. An out of range access of a Go slice is `none`, and the diff is shown to have none.
--
-- Bounds. The loop of `Commit` runs on the number of attempts that the code itself bounds; every
-- other loop runs over a list or over the index that it counts down, but the one of `History`,
-- which is given two turns: its second scan is of the most commits and ends it.
--
-- Time and the world. An operation that reads the clock takes the time as an argument, one for the
-- whole call. Every call of a storage backend takes the world and gives it back. That reading and
-- listing leave the files alone, so that nobody else writes between the calls of one method, is
-- a promise of the backend (Service/Promises), which the theorems about files take. A method of the
-- service is one step: its locks are not modelled. That a flag which is read knows its file is
-- what they take of the adapter (`KnowsFiles`).
--
-- Not modelled: HTTP and JSON, the sign-in with OIDC, the nodes of YAML documents (the adapter's
-- methods are an interface), the reading of the configuration and its URLs, the cloud backends, the
-- GitHub API (a parameter, with what the code relies on as a hypothesis), the folders of the
-- file backend, its hash and what the operating system refuses (parameters), and a failure of
-- os.ReadFile or os.Stat other than a missing file.
mod Base
pub mod Auth
pub mod Permissions
pub mod Config
pub mod Diff
pub mod Goff
pub mod Rules
pub mod Validate
pub mod Promote
pub mod Storage
pub mod Summary
pub mod Service
mod Examples
