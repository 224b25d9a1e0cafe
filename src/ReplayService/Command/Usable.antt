-- ===== src/ReplayService/Command/Usable.antt =====
-- What holds of a configuration that `_resolve_replay_config` accepts.
use maze_client.Prelude.{
  OnSome-bind, OnSome-some, ℕ, ◌≤◌, ◌<◌, ◌≡◌, refl, true, Option, none, some, arith,
}
use maze_client.Prelude.Int.{ℤ, pos, negsuc}
use maze_client.Prelude.Text.{Text}
use maze_client.ReplayService.Config.{parse_port}
use maze_client.ReplayService.Settings.{read_viz_config}
use maze_client.ReplayService.Command.{
  Kind, absent, regular, directory, special, link, is_output, Machine, or_else, is_clean,
  absolute_from, open_config, read_config_file, check_dir, resolve_replay_config,
}

parse_port-bounds : (i : Option ℤ) (p : ℕ) → parse_port i ≡ some p → (0 < p) × (p ≤ 65535)
unfolding parse_port
parse_port-bounds none p h = ground arith
parse_port-bounds (some (negsuc n)) p h = ground arith
parse_port-bounds (some (pos n)) p h = ground arith

module _ (m : Machine) where
  check_dir-is_output :
      (config_path value dir : Text)
      → check_dir m config_path value ≡ some dir
      → (is_clean m value ≡ true) × (is_output (m.kind dir) ≡ true)
  unfolding check_dir
  check_dir-is_output config_path value dir h = ground arith

  open_config-regular :
      (k : Kind) (path : Text) (c : Text × Text × Text)
      → open_config m k path ≡ some c
      → (k ≡ regular) × (c.0 ≡ m.resolve path)
  unfolding open_config
  open_config-regular regular path c h = (
    refl,
    OnSome-some (λ x. x.0 ≡ m.resolve path) (open_config m regular path) c
        (OnSome-bind _ (m.lines (m.resolve path)) _
          λ lines e. OnSome-bind _ (read_viz_config m.isspace lines) _ λ values e'. refl)
        h,
  )
  open_config-regular absent path c h = ground arith
  open_config-regular directory path c h = ground arith
  open_config-regular special path c h = ground arith
  open_config-regular (link k) path c h = ground arith

  -- What is asked of the three values of a start.
  abbrev pub IsUsable : Text → Text × Text × ℕ → Type 0
  IsUsable config_argument (config_path, replay_dir, port) =
      (m.kind (absolute_from m m.cwd config_argument) ≡ regular)
      × (config_path ≡ m.resolve (absolute_from m m.cwd config_argument))
      × (is_output (m.kind replay_dir) ≡ true)
      × (0 < port)
      × (port ≤ 65535)

  -- If the configuration of a start is accepted, its file is a regular one and is the one that was
  -- named, with links resolved, the replay directory is a directory or does not exist, and the port
  -- is between 1 and 65535, wherever the directory and the port come from.
  pub resolve_replay_config-IsUsable :
      (config_argument : Text) (dir_override port_override : Option Text) (c : Text × Text × ℕ)
      → resolve_replay_config m config_argument dir_override port_override ≡ some c
      → IsUsable config_argument c
  unfolding resolve_replay_config read_config_file
  resolve_replay_config-IsUsable a dir port c =
      OnSome-some (IsUsable a) (resolve_replay_config m a dir port) c (
        OnSome-bind (IsUsable a) (read_config_file m a) _ λ x e.
          OnSome-bind (IsUsable a) (check_dir m x.0 (or_else dir x.1)) _ λ replay_dir checked.
            OnSome-bind (IsUsable a) (parse_port (m.int (or_else port x.2))) _ λ p parsed.
              let path = absolute_from m m.cwd a in
              let (file, resolved) = open_config-regular (m.kind path) path x e in
              let bounds = parse_port-bounds (m.int (or_else port x.2)) p parsed in
              (
                file,
                resolved,
                (check_dir-is_output x.0 (or_else dir x.1) replay_dir checked).1,
                bounds.0,
                bounds.1,
              ))
