-- ===== src/Cli/Tests.antt =====
-- The theorem about the client, at a concrete flag.
use mathlib.Core.Option.{map as option_map}
