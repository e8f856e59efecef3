-- ===== src/Buildinfo.antt =====
-- internal/buildinfo/buildinfo.go. Version, which the linker sets, and the version of the main module in
-- debug.ReadBuildInfo, none where there is no build information, are arguments.
use dns_update.Prelude.{Option, none, some, ◌++◌, if◌then◌else◌, is_empty}
use dns_update.Text.{Text, codes, text_eq}

abbrev pub product : Text
product = codes "dns-update"

-- versionString
abbrev pub read_version : Option Text → Text
read_version none = codes "(devel)"
read_version (some version) = if is_empty version then codes "(devel)" else version

unfoldable pub version_string : Text → Option Text → Text
version_string version info = if is_empty version then read_version info else version

unfoldable pub command_line : Text → Option Text → Text
unfolding version_string
command_line version info = product ++ (codes " " ++ version_string version info)

unfoldable pub user_agent : Text → Text
user_agent version =
    product ++ (codes "/" ++ (if text_eq version (codes "(devel)") then codes "devel" else version))
