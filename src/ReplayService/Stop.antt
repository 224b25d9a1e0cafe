-- ===== src/ReplayService/Stop.antt =====
-- `_stop_replay`: what holds when it returns, and which processes it signals.
use maze_client.Prelude.{
  ℕ, ◌≡◌, refl, ◌∙◌, ap, true, false, none, Option-cases, ◌∷◌, inl, inr, if◌then◌else◌,
}
use maze_client.ReplayService.Owner.{
  State, StateFile, absent, unreadable, stored, Process, World, find_process, Owned, refused, gone,
  owned, owned_replay_pid, cleanup_state, missing, other, number, string,
}
use maze_client.ReplayService.Lifecycle.{
  Os, Outcome, not_running, failed, stopped, started, already_running, stop_kill, check_again,
  stop_term, stop_owned, stop_file, stop_replay,
}

-- A stop that reports success leaves no state file, and no process where it stopped one.
abbrev pub IsEnded : Outcome × World → Type 0
IsEnded (stopped pid, w) = (w.state_file ≡ absent) × (find_process pid w.processes ≡ none)
IsEnded (not_running, w) = w.state_file ≡ absent
IsEnded (failed, w) = Unit {0}
IsEnded (started pid, w) = ⊥
IsEnded (already_running pid, w) = ⊥

pub cleanup_state-file : (s : State) (w : World) → (cleanup_state s w).state_file ≡ absent
unfolding cleanup_state
cleanup_state-file s w =
    elim s.ready_file
      as (λ v. (cleanup_state (record s { ready_file = v }) w).state_file ≡ absent) [
        | missing ↦ refl
        | other ↦ refl
        | number n ↦ refl
        | string file ↦ refl
      ]

pub cleanup_state-processes : (s : State) (w : World) → (cleanup_state s w).processes ≡ w.processes
unfolding cleanup_state
cleanup_state-processes s w =
    elim s.ready_file
      as (λ v. (cleanup_state (record s { ready_file = v }) w).processes ≡ w.processes) [
        | missing ↦ refl
        | other ↦ refl
        | number n ↦ refl
        | string file ↦ refl
      ]

pub cleanup_state-signalled : (s : State) (w : World) → (cleanup_state s w).signalled ≡ w.signalled
unfolding cleanup_state
cleanup_state-signalled s w =
    elim s.ready_file
      as (λ v. (cleanup_state (record s { ready_file = v }) w).signalled ≡ w.signalled) [
        | missing ↦ refl
        | other ↦ refl
        | number n ↦ refl
        | string file ↦ refl
      ]

-- The end of a stop, once the wait is over.
cleanup-IsEnded :
    (s : State) (pid : ℕ) (w : World)
    → find_process pid w.processes ≡ none
    → IsEnded (stopped pid, cleanup_state s w)
cleanup-IsEnded s pid w h =
    (cleanup_state-file s w, ap (find_process pid) (cleanup_state-processes s w) ∙ h)

module _ (os : Os) where
  -- After the second signal, which goes to `q`.
  abbrev killed : World → Process → World
  killed w q = record w { processes = os.after_kill w.processes; signalled = q ∷ w.signalled }

  -- After the first.
  abbrev termed : World → Process → World
  termed w p = record w { processes = os.after_term w.processes; signalled = p ∷ w.signalled }

  stop_kill-IsEnded : (s : State) (p q : Process) (w : World) → IsEnded (stop_kill os s p q w)
  unfolding stop_kill
  stop_kill-IsEnded s p q w = elim (Option-cases (find_process p.pid (os.after_kill w.processes))) [
    | inl away ↦ rw (stop_kill, away) (cleanup-IsEnded s p.pid (killed w q) away)
    | inr (r, stays) ↦ rw (stop_kill, stays) tt
  ]

  check_again-IsEnded :
      (s : State) (p q : Process) (w : World) (o : Owned) → IsEnded (check_again os s p q w o)
  unfolding check_again
  check_again-IsEnded s p q w refused = tt
  check_again-IsEnded s p q w gone = stop_kill-IsEnded s p q w
  check_again-IsEnded s p q w (owned r) = stop_kill-IsEnded s p q w

  stop_term-IsEnded : (s : State) (p : Process) (w : World) → IsEnded (stop_term os s p w)
  unfolding stop_term
  stop_term-IsEnded s p w = elim (Option-cases (find_process p.pid w.processes)) [
    | inl away ↦ rw (stop_term, away) (cleanup-IsEnded s p.pid w away)
    | inr (q, stays) ↦
        rw (stop_term, stays) (check_again-IsEnded s p q w (owned_replay_pid os.script w s))
  ]

  stop_owned-IsEnded : (s : State) (w : World) (o : Owned) → IsEnded (stop_owned os s w o)
  unfolding stop_owned
  stop_owned-IsEnded s w refused = tt
  stop_owned-IsEnded s w gone = cleanup_state-file s w
  stop_owned-IsEnded s w (owned p) =
      elim os.signal_denied
        as (λ b. IsEnded (if b then (failed, w) else stop_term os s p (termed w p))) [
          | true ↦ tt
          | false ↦ stop_term-IsEnded s p (termed w p)
        ]

  stop_file-IsEnded : (w : World) (f : StateFile) → w.state_file ≡ f → IsEnded (stop_file os w f)
  unfolding stop_file
  stop_file-IsEnded w absent e = e
  stop_file-IsEnded w unreadable e = tt
  stop_file-IsEnded w (stored s) e = stop_owned-IsEnded s w (owned_replay_pid os.script w s)

-- Whatever the processes do, a stop that ends without an exception leaves no state file, and the
-- process that it reports as stopped is no longer live.
pub stop_replay-IsEnded : (os : Os) (w : World) → IsEnded (stop_replay os w)
unfolding stop_replay
stop_replay-IsEnded os w = stop_file-IsEnded os w w.state_file refl
