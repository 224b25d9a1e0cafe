-- ===== src/ReplayService/Signals.antt =====
-- `_stop_replay`: the processes that are sent a signal.
use Prim.Native.String.{String}
use maze_client.Prelude.{
  ℕ, ◌≡◌, refl, sym, ◌∙◌, ap, true, false, Bool-cases, none, some, Option, Option-cases, List, [],
  ◌∷◌, ◌∈◌, ◌⊎◌, inl, inr, if◌then◌else◌, arith,
}
use maze_client.ReplayService.Owner.{
  State, stored, Process, World, find_process, matches, identity_of, judge, check_command, owned_by,
  Owned, refused, gone, owned, owned_replay_pid, cleanup_state,
}
use maze_client.ReplayService.Lifecycle.{
  Os, Outcome, failed, stopped, not_running, stop_kill, check_again, stop_term, stop_owned,
  stop_file, stop_replay,
}
use maze_client.ReplayService.Stop.{cleanup_state-signalled}

-- The process has the id in the state, and runs the server script under the instance there, unless its
-- command is empty.
pub record IsOwn (script : String) (s : State) (p : Process) : Type 0 where
  pub instance_id : String
  pub identified : identity_of s ≡ some (p.pid, instance_id)
  pub command_fits :
      (p.command ≡ some [])
      ⊎ (command : List String) × (p.command ≡ some command)
        × (matches script instance_id command ≡ true)

-- What the answer says of the process `p`, whose command this is.
abbrev Finds : String → String → Process → Option (List String) → Owned → Type 0
Finds script instance_id p command refused = Unit {0}
Finds script instance_id p command gone = command ≡ some []
Finds script instance_id p command (owned q) =
    (q ≡ p)
    × (arguments : List String) × (command ≡ some arguments)
    × (matches script instance_id arguments ≡ true)

judge-Finds :
    (script instance_id : String) (p : Process) (command : Option (List String))
    → Finds script instance_id p command (judge script instance_id p command)
unfolding judge
judge-Finds script instance_id p none = tt
judge-Finds script instance_id p (some []) = refl
judge-Finds script instance_id p (some (a ∷ as')) =
    elim (Bool-cases (matches script instance_id (a ∷ as'))) [
      | inl fits ↦ rw (judge, fits) (refl, a ∷ as', refl, fits)
      | inr differs ↦ rw (judge, differs) tt
    ]

find_process-pid :
    (pid : ℕ) (ps : List Process) (p : Process) → find_process pid ps ≡ some p → p.pid ≡ pid
unfolding find_process
find_process-pid pid [] p h = cc
find_process-pid pid (q ∷ ps) p h = ground (arith, find_process-pid pid ps p)

-- An answer that is not a refusal, about the process that was found.
Found : String → State → Process → Owned → Type 0
Found script s p refused = Unit {0}
Found script s p gone = IsOwn script s p
Found script s p (owned q) = (q ≡ p) × IsOwn script s p

Finds-Found :
    (script instance_id : String) (s : State) (p : Process) (o : Owned)
    → identity_of s ≡ some (p.pid, instance_id)
    → Finds script instance_id p p.command o
    → Found script s p o
unfolding Found
Finds-Found script instance_id s p refused e f = tt
Finds-Found script instance_id s p gone e f = record {
  instance_id = instance_id;
  identified = e;
  command_fits = inl f;
}
Finds-Found script instance_id s p (owned q) e f =
    (f.0, record { instance_id = instance_id; identified = e; command_fits = inr (f.1, f.2, f.3) })

-- The answer about a state whose identity is known, where the process is live.
owned_replay_pid-Found :
    (script : String) (w : World) (s : State) (pid : ℕ) (instance_id : String) (p : Process)
    → identity_of s ≡ some (pid, instance_id)
    → find_process pid w.processes ≡ some p
    → Found script s p (owned_replay_pid script w s)
unfolding owned_replay_pid owned_by check_command
owned_replay_pid-Found script w s pid instance_id p identified live =
    rw (owned_replay_pid, identified, owned_by, live)
      (Finds-Found script instance_id s p (check_command script instance_id p)
        (identified
          ∙ ap (λ i. some (i, instance_id)) (sym (find_process-pid pid w.processes p live)))
        (judge-Finds script instance_id p p.command))

owned_replay_pid-unknown :
    (script : String) (w : World) (s : State)
    → identity_of s ≡ none
    → owned_replay_pid script w s ≡ refused
unfolding owned_replay_pid
owned_replay_pid-unknown script w s e = rw (owned_replay_pid, e, owned_by) refl

owned_replay_pid-away :
    (script : String) (w : World) (s : State) (pid : ℕ) (instance_id : String)
    → identity_of s ≡ some (pid, instance_id)
    → find_process pid w.processes ≡ none
    → owned_replay_pid script w s ≡ gone
unfolding owned_replay_pid owned_by
owned_replay_pid-away script w s pid instance_id e away =
    rw (owned_replay_pid, e, owned_by, away) refl

Found-owned :
    (script : String) (s : State) (p q : Process) → Found script s q (owned p) → IsOwn script s p
unfolding Found
Found-owned script s p q (same, own) = rw same own

-- A process that the check gives is the service's own.
owned_replay_pid-IsOwn :
    (script : String) (w : World) (s : State) (p : Process)
    → owned_replay_pid script w s ≡ owned p
    → IsOwn script s p
owned_replay_pid-IsOwn script w s p answer = elim (Option-cases (identity_of s)) [
  | inl unknown ↦ absurd (cc (answer, owned_replay_pid-unknown script w s unknown))
  | inr ((pid, instance_id), identified) ↦ elim (Option-cases (find_process pid w.processes)) [
    | inl away ↦
        absurd (cc (answer, owned_replay_pid-away script w s pid instance_id identified away))
    | inr (q, live) ↦
        Found-owned script s p q
          (rw answer at (owned_replay_pid-Found script w s pid instance_id q identified live))
  ]
]

-- Every signal before, and the new ones to the service's own process.
abbrev OnlyOwn : String → State → List Process → Outcome × World → Type 0
OnlyOwn script s before (o, w) = (p : Process) → p ∈ w.signalled → (p ∈ before) ⊎ IsOwn script s p

OnlyOwn-cleanup :
    (script : String) (s : State) (before : List Process) (o o' : Outcome) (w : World)
    → OnlyOwn script s before (o, w)
    → OnlyOwn script s before (o', cleanup_state s w)
OnlyOwn-cleanup script s before o o' w h p m = h p (rw (cleanup_state-signalled s w) at m)

OnlyOwn-signal :
    (script : String) (s : State) (before : List Process) (o : Outcome) (w : World) (q : Process)
    → IsOwn script s q
    → OnlyOwn script s before (o, w)
    → (p : Process) → p ∈ (q ∷ w.signalled)
    → (p ∈ before) ⊎ IsOwn script s p
OnlyOwn-signal script s before o w q own h p (inl e) = inr (rw e own)
OnlyOwn-signal script s before o w q own h p (inr m) = h p m

module _ (os : Os) (s : State) (before : List Process) where
  -- The signals so far.
  abbrev Only : World → Type 0
  Only w = OnlyOwn os.script s before (failed, w)

  stop_kill-OnlyOwn :
      (p q : Process) (w : World)
      → IsOwn os.script s q
      → Only w
      → OnlyOwn os.script s before (stop_kill os s p q w)
  unfolding stop_kill
  stop_kill-OnlyOwn p q w own h =
      let w' = record w { processes = os.after_kill w.processes; signalled = q ∷ w.signalled } in
      let only = OnlyOwn-signal os.script s before failed w q own h in
      elim (Option-cases (find_process p.pid w'.processes)) [
        | inl away ↦
            rw (stop_kill, away) (OnlyOwn-cleanup os.script s before failed (stopped p.pid) w' only)
        | inr (r, stays) ↦ rw (stop_kill, stays) only
      ]

  check_again-OnlyOwn :
      (p q : Process) (w : World) (o : Owned)
      → Found os.script s q o
      → Only w
      → OnlyOwn os.script s before (check_again os s p q w o)
  unfolding check_again Found
  check_again-OnlyOwn p q w refused f h = h
  check_again-OnlyOwn p q w gone f h = stop_kill-OnlyOwn p q w f h
  check_again-OnlyOwn p q w (owned r) f h = stop_kill-OnlyOwn p q w f.1 h

  stop_term-OnlyOwn :
      (p : Process) (w : World)
      → IsOwn os.script s p
      → Only w
      → OnlyOwn os.script s before (stop_term os s p w)
  unfolding stop_term
  stop_term-OnlyOwn p w own h = elim (Option-cases (find_process p.pid w.processes)) [
    | inl away ↦
        rw (stop_term, away) (OnlyOwn-cleanup os.script s before failed (stopped p.pid) w h)
    | inr (q, stays) ↦
        rw (stop_term, stays)
          (check_again-OnlyOwn p q w (owned_replay_pid os.script w s)
            (owned_replay_pid-Found os.script w s p.pid own.instance_id q own.identified stays) h)
  ]

  stop_owned-OnlyOwn :
      (w : World) (o : Owned)
      → owned_replay_pid os.script w s ≡ o
      → Only w
      → OnlyOwn os.script s before (stop_owned os s w o)
  unfolding stop_owned
  stop_owned-OnlyOwn w refused e h = h
  stop_owned-OnlyOwn w gone e h = OnlyOwn-cleanup os.script s before failed not_running w h
  stop_owned-OnlyOwn w (owned p) e h =
      let own = owned_replay_pid-IsOwn os.script w s p e in
      let w' = record w { processes = os.after_term w.processes; signalled = p ∷ w.signalled } in
      elim os.signal_denied
        as (λ b. OnlyOwn os.script s before (if b then (failed, w) else stop_term os s p w')) [
          | true ↦ h
          | false ↦ stop_term-OnlyOwn p w' own (OnlyOwn-signal os.script s before failed w p own h)
        ]

-- A stop sends signals to no other process than the one of the id in the state file, and only while
-- its command runs the server script under the instance in the state file or is empty.
pub stop_replay-OnlyOwn :
    (os : Os) (w : World) (s : State)
    → w.state_file ≡ stored s
    → (p : Process) → p ∈ (stop_replay os w).1.signalled
    → (p ∈ w.signalled) ⊎ IsOwn os.script s p
unfolding stop_replay stop_file
stop_replay-OnlyOwn os w s e p m =
    stop_owned-OnlyOwn os s w.signalled w (owned_replay_pid os.script w s) refl (λ q n. inl n) p
      (rw (stop_replay, e, stop_file) at m)
