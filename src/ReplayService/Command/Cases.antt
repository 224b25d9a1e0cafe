-- ===== src/ReplayService/Command/Cases.antt =====
-- `main` as a whole: when it reports a new service, and which one.
use Prim.Native.String.{String}
use mathlib.Core.Path.{subst}
use maze_client.Prelude.{
  ◌>>=◌, OnSome, OnSome-bind, OnSome-some, ℕ, ◌≡◌, refl, Option, none, some, List, Bool-cases, inl,
  inr,
}
use maze_client.Prelude.Text.{Text}
use maze_client.ReplayService.Owner.{stored, World, is_in}
use maze_client.ReplayService.Lifecycle.{
  Os, Request, Poll, Outcome, not_running, failed, stopped, started, already_running, state_of,
  start_replay, stop_replay,
}
use maze_client.ReplayService.Stop.{IsEnded, stop_replay-IsEnded}
use maze_client.ReplayService.Restart.{Leaves, start_replay-Leaves}
use maze_client.ReplayService.Command.{
  Machine, Arguments, resolve_replay_config, state_directory, check_service, prepare, start, stop,
  is_stop, main,
}
use maze_client.ReplayService.Command.Usable.{IsUsable, resolve_replay_config-IsUsable}

-- The request that accepted arguments make.
abbrev pub IsRequest : Machine → Arguments → Request → Type 0
IsRequest m a q =
    (c : Text × Text × ℕ) × IsUsable m a.config c
    × (q.config_path ≡ m.string_of c.0)
    × (q.replay_dir ≡ m.string_of c.1)
    × (q.port ≡ c.2)
    × (q.host ≡ m.string_of a.host)
    × (q.validation_id ≡ m.string_of a.validation_id)

prepare-IsRequest :
    (m : Machine) (a : Arguments) (q : Request) → prepare m a ≡ some q → IsRequest m a q
unfolding prepare
prepare-IsRequest m a q = OnSome-some (IsRequest m a) (prepare m a) q (
    OnSome-bind (IsRequest m a) (resolve_replay_config m a.config a.replay_dir a.replay_port) _
      λ c e. OnSome-bind (IsRequest m a) (check_service m a) _ λ state_dir e'. (
        c,
        resolve_replay_config-IsUsable m a.config a.replay_dir a.replay_port c e,
        refl,
        refl,
        refl,
        refl,
        refl,
      ))

module _ (m : Machine) (parse : List String → Option Arguments) (os : Os)
    (remaining : List String) where
  -- The request of the arguments that this command line is parsed to.
  abbrev IsAsked : Request → Type 0
  IsAsked q = (a : Arguments) × (parse remaining ≡ some a) × IsRequest m a q

  -- A new service has the next process id, and the state file names it and its request.
  abbrev IsStarted : Outcome × World → Type 0
  IsStarted (started pid, w) =
      (q : Request) × IsAsked q
      × (pid ≡ os.new_pid)
      × (w.state_file ≡ stored (state_of os q "running"))
  IsStarted (not_running, w) = Unit
  IsStarted (failed, w) = Unit
  IsStarted (stopped pid, w) = Unit
  IsStarted (already_running pid, w) = Unit

  IsEnded-IsStarted : (r : Outcome × World) → IsEnded r → IsStarted r
  IsEnded-IsStarted (started pid, w) h = absurd h
  IsEnded-IsStarted (not_running, w) h = tt
  IsEnded-IsStarted (failed, w) h = tt
  IsEnded-IsStarted (stopped pid, w) h = tt
  IsEnded-IsStarted (already_running pid, w) h = tt

  Leaves-IsStarted : (q : Request) (r : Outcome × World) → IsAsked q → Leaves os q r → IsStarted r
  Leaves-IsStarted q (started pid, w) u h = (q, u, h.0, h.1)
  Leaves-IsStarted q (not_running, w) u h = tt
  Leaves-IsStarted q (failed, w) u h = tt
  Leaves-IsStarted q (stopped pid, w) u h = tt
  Leaves-IsStarted q (already_running pid, w) u h = tt

  start-IsStarted :
      (polls : List Poll) (w : World) (o : Option Request)
      → OnSome IsAsked o
      → IsStarted (start os polls w o)
  unfolding start
  start-IsStarted polls w none h = tt
  start-IsStarted polls w (some q) h =
      Leaves-IsStarted q (start_replay os q polls w) h (start_replay-Leaves os q polls w)

  stop-IsStarted : (w : World) (o : Option Text) → IsStarted (stop os w o)
  unfolding stop
  stop-IsStarted w none = tt
  stop-IsStarted w (some dir) = IsEnded-IsStarted (stop_replay os w) (stop_replay-IsEnded os w)

  -- The request of the command line, if it is accepted.
  prepared : OnSome IsAsked (parse remaining >>= prepare m)
  prepared = OnSome-bind IsAsked (parse remaining) (prepare m) λ a e. checked a e (prepare m a) refl
    where
      checked :
          (a : Arguments)
          → parse remaining ≡ some a
          → (o : Option Request) → prepare m a ≡ o
          → OnSome IsAsked o
      checked a e none h = tt
      checked a e (some q) h = (a, e, prepare-IsRequest m a q h)

  run-IsStarted : (polls : List Poll) (w : World) → IsStarted (main m parse os polls remaining w)
  unfolding main
  run-IsStarted polls w = elim (Bool-cases (is_stop remaining)) [
    | inl stops ↦ rw stops (stop-IsStarted w (state_directory m))
    | inr starts ↦ elim (Bool-cases (is_in "-stop" remaining)) [
      | inl mixed ↦ rw (starts, mixed) tt
      | inr plain ↦
          rw (starts, plain) (start-IsStarted polls w (parse remaining >>= prepare m) prepared)
    ]
  ]

-- Whatever the environment and the processes do, a run of the command that reports a new service
-- was given arguments, as its command line is parsed, whose configuration is accepted: the file is
-- regular, the directory is one or does not exist, and the port is between 1 and 65535. The service
-- has the process id of the server that was started, and the state file names it as running, with
-- the file, directory and port of that configuration and the host and id of these arguments.
pub main-IsStarted :
    (m : Machine) (parse : List String → Option Arguments) (os : Os) (polls : List Poll)
    (remaining : List String) (w w' : World) (pid : ℕ)
    → main m parse os polls remaining w ≡ (started pid, w')
    → (q : Request) × ((a : Arguments) × (parse remaining ≡ some a) × IsRequest m a q)
      × (pid ≡ os.new_pid)
      × (w'.state_file ≡ stored (state_of os q "running"))
main-IsStarted m parse os polls remaining w w' pid begun =
    subst (IsStarted m parse os remaining) begun (run-IsStarted m parse os remaining polls w)
