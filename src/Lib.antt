-- ===== src/Lib.antt =====
-- Maze client tools.
--
-- The repository's Python tools make the mazes that the client runs (tools/map_generator), serve the
-- recorded games to a page (tools/viz_player), and start and stop that server (scripts).
--
-- Prelude holds what the parts share: tests on numbers, lists, loops over ranges with their invariant
-- rules, and integers. In each part a module defines the code, and its children prove about it.
--
-- MapGenerator models tools/map_generator/generate_maze.py:
-- - Grid: the two-dimensional lists; Walls: `WallEdgeSet`, the walls between neighbouring rooms.
-- - Random: the random generator, floats and the clock, as a record that every definition which uses
--   them takes as an argument. `below_lt`, the only law, says that an index picked of n items is below n.
-- - Maze: `generate_maze_edges`, `extra_open_walls` and `clear_safe_zone`, on the rooms.
-- - Carve: `edges_to_blocked_grid`, from rooms to cells; Obstacles: `add_room_obstacles` and
--   `clear_blocked_safe_zone`, on the cells.
-- - Shortest: `shortest_action_steps`, breadth-first search on the cells with the eight moves.
-- - Reachable: `bfs_reachable`, breadth-first search on the rooms, through the gaps in the walls.
-- - Bitmap: `blocked_bitmap_bytes`; Segments: `blocked_to_wall_segments`.
-- - Ends: `generate_random_start_end` and the choice of the end rooms; Map: `generate_map` and
--   `generate_reachable_map`, which compose the others.
-- - Config: `load_config` and `get_config_value`, on the text of the file and its lines.
-- - Command: `main`, from the options and the configuration to the files of the output folder, which
--   are known by their seeds. A record holds what Python makes of texts and floats.
-- Coordinates are natural numbers where the code shows them to be at least 0, and integers where a
-- step or an offset can leave the grid. Floats are opaque.
--
-- VizServer models tools/viz_player/maze_viz_server.py:
-- - LineIndex: `_build_line_index` with its cache. What the file system answers (the times and sizes,
--   the bytes read and whether the reading fails) is an argument of each call.
-- - Disk: the file system during a call, a record over the types of frames and maps, and the server's
--   state; Queries: `list_files`, `load_frames_paged`, `get_frame_count`, `get_file_status` and `load_map`, on
--   the server's state: the index and map caches, and the list kept for two seconds.
-- - Http: the routes of `do_GET`, which call the queries; Pages: `_serve_html`, `_serve_asset` and
--   `get_status`.
-- - Ready: `write_ready_receipt` and `main`, by what they do to the receipt.
--
-- ReplayService models scripts/replay_service.py, which runs that server in the background:
-- - Config: `_strip_inline_comment`, `_strip_quotes` and `_parse_port`; Settings: the loop of
--   `_read_viz_config`. Texts are lists of characters.
-- - Command: what comes before the lock: `_resolve_replay_config`, `_state_directory`, the options and
--   `main`. A record holds what Python's paths and the environment answer.
-- - ProcessTable: `_process_is_live` and `_process_command`.
-- - Owner: the state file, `_owned_replay_pid` and `_cleanup_state`.
-- - Lifecycle: `_start_replay` and `_stop_replay` from the lock on, as functions of the world (the live
--   processes, the state file, the receipts, and the processes that were sent a signal). The processes
--   that are live after each wait are arbitrary, so a process may end, stay, or give its id to another
--   between two steps; a check and the signal that follows it are one step.
-- - Handshake: the server's receipt, as the script that waits for it reads it.
--
-- PublishReadiness models scripts/publish_readiness.py:
-- - Facts: the facts of the command line, the document and the receipt with its temporary file.
--
-- SyncSnapshot models scripts/sync_contract_snapshot.py:
-- - Tree: a folder as a function from paths to entries, and the file operations; Sync: `sync_snapshot` and
--   `sync_sdk`. What `copytree` walks over is a list of entries, a folder before its contents.
--
-- Loops without a bound in the code have fuel, and `none` is a run that needs more: the search of the
-- maze takes at most two rounds for each room, the search of the path one for each cell and the search on the
-- rooms one for each room, and the theorems show that this is enough. The scans of `blocked_to_wall_segments` move on in every round, so
-- one round for each cell of a column or row is enough.
--
-- The wait for the receipt is a list of rounds, as many as come before its deadline.
--
-- Not modelled: the C++ client, the protocol, the web pages and the shell scripts, which are in other
-- languages; the commands' printing; argparse, but for the options of the server, whose values may not begin
-- with a dash; floats that are infinite or no number; grids that are smaller than the dimensions passed with
-- them; where a symbolic link in the target of the snapshot leads; and the headers and bytes of HTTP replies.
pub mod Prelude
pub mod MapGenerator
pub mod VizServer
pub mod ReplayService
pub mod PublishReadiness
pub mod SyncSnapshot
