-- ===== src/Lib.antt =====
-- The dns-update command: it finds the public addresses of a host with two HTTP probes and brings the A
-- and AAAA records of one name at Cloudflare in line with them.
--
-- The parts, and how they work together (internal/app drives the others):
-- - Provider: internal/provider/provider.go. Records, states, selections, operations and plans as
--   records of texts and numbers. Provider/Planning holds BuildObservedAddressPlan, BuildDeletePlan and
--   buildTypePlan, Provider/Verify the verification, Provider/Order the two sorts. Provider/Meaning is
--   the specification of Apply: what a plan means for the records of a name, without the order of its
--   operations; the modules below it are about that meaning.
-- - Retry: internal/retry/retry.go. The mark of a retryable error, the policy, the delay. Durations are
--   integers, with the wrap-around of an int64 where the code multiplies.
-- - Egress: internal/egress/probe.go. Lookup over an HTTP client that is a function, and parseResponse.
-- - Cloudflare: internal/provider/cloudflare. records.go and the batch of a plan; Cloudflare/Requests has
--   errors.go, ReadState and Apply over the list and batch calls, which are arguments, and
--   Cloudflare/Listing has listRecords over the SDK's pager.
-- - Config: internal/config/config.go and types.go, with internal/netutil/host.go and Config.validate of
--   the Cloudflare client. Names in Config, durations and URLs in Config/Urls, the sections of the file
--   in Config/Sections. Config/Loading has Load and LoadWithOptions of config.go, load.go and env.go:
--   the search for the file, its decoding, and the environment. url.Parse, time.ParseDuration,
--   net.ParseIP, encoding/json and os.ReadFile are parameters. Config/Taken says which entry of the file
--   each part of a configuration is taken from.
-- - SecureFile: internal/securefile/securefile.go and open_unix.go. Validate and ReadSingleToken over
--   Os, which has os, syscall and path/filepath as parameters; SecureFile/Windows has
--   platform_windows.go, the access control lists, over the Windows API. SecureFile/Way says which
--   directories are on the way to a file.
-- - App: internal/app/run.go. The runner over collaborators whose calls take a world to a result and the
--   next world; App/ProbeErrors has the errors of the probes, App/Construction newProvider and New, App/Formats
--   the parts of the log lines.
-- - Cli: cmd/dns-update. flags.go in Cli, main.go, inspect.go and version.go in Cli/Main, with the flag
--   package and the writes to the console as parameters; Buildinfo has internal/buildinfo.
-- - Program: productionDependencies of cmd/dns-update/main.go, where the parts above are put together
--   over one world, from the arguments of the command to the records of the zone.
-- - AgentDocs: internal/agentdocs and cmd/agentdocgen, the tool that generates the agents' documents from
--   docs/agents. types.go and render.go in AgentDocs, parse.go in AgentDocs/Parse, load.go and Plan in
--   AgentDocs/Sources, Check in AgentDocs/Files, Write in AgentDocs/Write, the command in
--   AgentDocs/Generator. RepoPolicy: internal/repopolicy/policy.go. The files are parameters.
-- - Failure, Text, Stdlib, Http: Go errors as values (a chain of wraps, joins and marks, which errors.Is
--   and errors.As search), strings as lists of bytes, the parts of net/netip and sort that are
--   parameters, the headers of a response, and in Http/Client internal/httpclient, the clients' settings.
--
-- Functions keep their Go names in snake case (buildTypePlan is build_type_plan). The body of a branch
-- or a loop stands in a helper beside its function.
--
-- Bounds and fuel: run_from takes the attempts of the normalized policy as fuel, which is enough for the
-- loop of Run. decimal takes one more than the number. All else is structural recursion. uint32 TTLs
-- are numbers, since the code compares and copies them only.
--
-- Not modelled: the log lines, the concurrency of the two probes (their answers are
-- read from the world in which collect starts), what net/http does with the settings of its clients,
-- the requests of the SDK's pager, and the regular expressions of internal/repopolicy: they are input and
-- output, or another library's work. A file system does not change while a function that only reads it
-- runs.
-- strings.ToLower and strings.TrimSpace are those of ASCII. Error texts are kept as data, and %q and %w
-- as their arguments.
pub mod Prelude
pub mod Text
pub mod Stdlib
pub mod Failure
pub mod Provider
pub mod Retry
pub mod Http
pub mod Egress
pub mod Cloudflare
pub mod Os
pub mod SecureFile
pub mod Config
pub mod Cli
pub mod Buildinfo
pub mod App
pub mod Program
pub mod AgentDocs
pub mod RepoPolicy
mod Tests
