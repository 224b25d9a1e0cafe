-- ===== src/ReplayService/Restart.antt =====
-- `_start_replay`: a second start finds the service that the first one left running.
use Prim.Native.String.{String}
use text.Mathlib.Text.{◌==◌ as str_eq}
use text.Mathlib.TextPositions.{eq_refl}
use maze_client.Prelude.{
  ℕ, suc, ◌≡◌, refl, ◌∙◌, ap, Bool, true, false, ◌&&◌, Bool-cases, Option, none, some, Option-cases,
  List, [], ◌∷◌, ◌++◌, ==_iff, if◌then◌else◌, inl, inr,
}
use maze_client.ReplayService.Owner.{
  State, StateFile, absent, unreadable, stored, Process, World, find_process, matches, is_in,
  identity_of, judge, check_command, owned_by, Owned, refused, gone, owned, owned_replay_pid,
  cleanup_state,
}
use maze_client.ReplayService.Lifecycle.{
  Os, Request, Poll, Outcome, failed, started, already_running, command_of, process_of, state_of,
  finish_start, launch, await_ready, is_same, start_owned, start_file, start_replay, abort_start,
  abort_kill,
}

-- What a start leaves behind that reports a new service.
abbrev pub Leaves : Os → Request → Outcome × World → Type 0
Leaves os q (started pid, w) =
    (pid ≡ os.new_pid) × (w.state_file ≡ stored (state_of os q "running"))
Leaves os q (_, w) = Unit {0}

is_in-append : (a : String) (xs ys : List String) → is_in a (xs ++ a ∷ ys) ≡ true
unfolding is_in
is_in-append a [] ys = rw (eq_refl a) refl
is_in-append a (x ∷ xs) ys = elim (Bool-cases (str_eq x a)) [
  | inl same ↦ rw same refl
  | inr differs ↦ rw differs (is_in-append a xs ys)
]

and-true : {a b : Bool} → a ≡ true → b ≡ true → (a && b) ≡ true
and-true h k = cc (h, k)

module _ (os : Os) (q : Request) where
  abort_kill-Leaves :
      (s : State) (pid : ℕ) (w : World) (o : Option Process) → Leaves os q (abort_kill os s pid w o)
  unfolding abort_kill
  abort_kill-Leaves s pid w none = tt
  abort_kill-Leaves s pid w (some p) =
      elim (Option-cases (find_process pid (os.after_kill w.processes))) [
        | inl away ↦ rw (abort_kill, away) tt
        | inr (r, stays) ↦ rw (abort_kill, stays) tt
      ]

  abort_start-Leaves :
      (s : State) (pid : ℕ) (w : World) (o : Option Process)
      → Leaves os q (abort_start os s pid w o)
  unfolding abort_start
  abort_start-Leaves s pid w none = tt
  abort_start-Leaves s pid w (some p) = abort_kill-Leaves s pid _ _

  finish_start-Leaves : (w : World) (b : Bool) → Leaves os q (finish_start os q w b)
  unfolding finish_start
  finish_start-Leaves w true = (refl, refl)
  finish_start-Leaves w false =
      abort_start-Leaves (state_of os q "starting") os.new_pid w
        (find_process os.new_pid w.processes)

  launch-Leaves : (polls : List Poll) (w : World) → Leaves os q (launch os q polls w)
  unfolding launch
  launch-Leaves polls w =
      finish_start-Leaves
        (record w {
          processes = os.after_start (process_of os q ∷ w.processes);
          state_file = stored (state_of os q "starting");
        })
        (await_ready os q polls)

  start_owned-Leaves :
      (polls : List Poll) (w : World) (s : State) (o : Owned)
      → Leaves os q (start_owned os q polls w s o)
  unfolding start_owned
  start_owned-Leaves polls w s refused = tt
  start_owned-Leaves polls w s gone = launch-Leaves polls (cleanup_state s w)
  start_owned-Leaves polls w s (owned p) =
      elim (is_same os q s)
        as (λ b. Leaves os q (if b then (already_running p.pid, w) else (failed, w))) [
          | true ↦ tt
          | false ↦ tt
        ]

  start_file-Leaves :
      (polls : List Poll) (w : World) (f : StateFile) → Leaves os q (start_file os q polls w f)
  unfolding start_file
  start_file-Leaves polls w absent = launch-Leaves polls w
  start_file-Leaves polls w unreadable = tt
  start_file-Leaves polls w (stored s) =
      start_owned-Leaves polls w s (owned_replay_pid os.script w s)

  pub start_replay-Leaves :
      (polls : List Poll) (w : World) → Leaves os q (start_replay os q polls w)
  unfolding start_replay
  start_replay-Leaves polls w = start_file-Leaves polls w w.state_file

  -- The command that a start runs is recognised by the check.
  command-matches : matches os.script os.token (command_of os q) ≡ true
  unfolding matches is_in
  command-matches =
      and-true
        (is_in-append os.script (os.python ∷ "-u" ∷ []) (
          "--dir"
          ∷ q.replay_dir
          ∷ "--host"
          ∷ q.host
          ∷ "--port"
          ∷ os.show q.port
          ∷ "--mode"
          ∷ "evaluation"
          ∷ "--validation-id"
          ∷ q.validation_id
          ∷ "--instance-id"
          ∷ os.token
          ∷ "--ready-file"
          ∷ os.ready_file
          ∷ []))
        (is_in-append os.token
          (os.python
            ∷ "-u"
            ∷ os.script
            ∷ "--dir"
            ∷ q.replay_dir
            ∷ "--host"
            ∷ q.host
            ∷ "--port"
            ∷ os.show q.port
            ∷ "--mode"
            ∷ "evaluation"
            ∷ "--validation-id"
            ∷ q.validation_id
            ∷ "--instance-id"
            ∷ [])
          ("--ready-file" ∷ os.ready_file ∷ []))

  is_same-state_of : (later : Os) → is_same later q (state_of os q "running") ≡ true
  unfolding is_same
  is_same-state_of later =
      rw
        (
          eq_refl q.config_path,
          eq_refl q.replay_dir,
          eq_refl q.host,
          (==_iff q.port q.port).1 refl,
          eq_refl q.validation_id,
        )
        refl

  identity_of-state_of :
      (n : ℕ)
      → os.new_pid ≡ suc n
      → str_eq os.token "" ≡ false
      → identity_of (state_of os q "running") ≡ some (os.new_pid, os.token)
  unfolding identity_of
  identity_of-state_of n e t = rw (e, t) refl

  owned_replay_pid-process_of :
      (n : ℕ) (w : World)
      → os.new_pid ≡ suc n
      → str_eq os.token "" ≡ false
      → find_process os.new_pid w.processes ≡ some (process_of os q)
      → owned_replay_pid os.script w (state_of os q "running") ≡ owned (process_of os q)
  unfolding owned_replay_pid
  owned_replay_pid-process_of n w positive named live =
      rw
        (
          owned_replay_pid,
          identity_of-state_of n positive named,
          owned_by,
          live,
          check_command,
          judge,
          command-matches,
        )
        refl

  start_owned-same :
      (later : Os) (polls : List Poll) (w : World)
      → start_owned later q polls w (state_of os q "running") (owned (process_of os q))
        ≡ (already_running os.new_pid, w)
  unfolding start_owned
  start_owned-same later polls w = rw (start_owned, is_same-state_of later) refl

  start_replay-running :
      (later : Os) (polls : List Poll) (n : ℕ) (t : World)
      → os.new_pid ≡ suc n
      → str_eq os.token "" ≡ false
      → later.script ≡ os.script
      → t.state_file ≡ stored (state_of os q "running")
      → find_process os.new_pid t.processes ≡ some (process_of os q)
      → start_replay later q polls t ≡ (already_running os.new_pid, t)
  unfolding start_replay start_file
  start_replay-running later polls n t positive named script kept live =
      let s = state_of os q "running" in
      ap (start_file later q polls t) kept
      ∙ ap (λ path. start_owned later q polls t s (owned_replay_pid path t s)) script
      ∙ ap (start_owned later q polls t s) (owned_replay_pid-process_of n t positive named live)
      ∙ start_owned-same later polls t

Leaves-started :
    (os : Os) (q : Request) (r : Outcome × World) (pid : ℕ)
    → r.0 ≡ started pid
    → Leaves os q r
    → (pid ≡ os.new_pid) × (r.1.state_file ≡ stored (state_of os q "running"))
Leaves-started os q (o, w) pid e l = rw e at l

-- Once a start has reported a new service, and while its process is live, a start with the same
-- configuration reports that service as running and changes nothing. The process has a positive id
-- and the instance a name.
pub start_replay-again :
    (os later : Os) (q : Request) (polls more : List Poll) (w : World) (n pid : ℕ)
    → os.new_pid ≡ suc n
    → str_eq os.token "" ≡ false
    → later.script ≡ os.script
    → (start_replay os q polls w).0 ≡ started pid
    → find_process pid (start_replay os q polls w).1.processes ≡ some (process_of os q)
    → start_replay later q more (start_replay os q polls w).1
      ≡ (already_running pid, (start_replay os q polls w).1)
start_replay-again os later q polls more w n pid positive named script begun live =
    let (same_pid, kept) =
      Leaves-started os q (start_replay os q polls w) pid begun
        (start_replay-Leaves os q polls w) in
    rw same_pid (
      start_replay-running os q later more n (start_replay os q polls w).1 positive named script
        kept (rw same_pid at live))
