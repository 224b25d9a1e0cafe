-- ===== src/MapGenerator/Command/Resolved.antt =====
-- The size of the rooms that a run takes from its configuration.
use maze_client.Prelude.{◌<◌, arith}
use maze_client.Prelude.Int.{ℤ, pos, negsuc}
use maze_client.MapGenerator.Random.{Rng}
use maze_client.MapGenerator.Config.{Config}
use maze_client.MapGenerator.Command.{Names, Numbers, Arguments, at_least_one, resolve, options_of}

at_least_one-pos : (z : ℤ) → 0 < at_least_one z
at_least_one-pos (pos n) = omega arith
at_least_one-pos (negsuc n) = omega arith

-- Rooms have at least one cell, whatever the configuration says.
pub options_of-room_size :
    (r : Rng) (n : Numbers r) (names : Names) (a : Arguments r) (config : Config)
    → 0 < (options_of r (resolve r n names a config)).room_size
unfolding options_of resolve
options_of-room_size r n names a config = at_least_one-pos _
