-- ===== src/ReplayService/ProcessTable/Agree.antt =====
-- The two sources of a process's state give the same answer.
use Prim.Native.Char.{Char}
use Prim.Native.String.append as append_laws
use Prim.Native.String.compare as compare_laws
use Prim.Native.String.{String, ◌++◌ as append}
use text.Mathlib.Text.{◌==◌ as str_eq, starts_with}
use text.Mathlib.TextLemmas.{head-eq_of_cons-eq}
use text.Mathlib.TextEquality.{eq_iff, starts_with_iff}
use maze_client.Prelude.{
  ℕ, suc, ◌≡◌, refl, sym, ap, ◌∙◌, Bool, true, false, not, some, List, ◌∷◌, arith,
}
use maze_client.Prelude.Int.{pos}
use maze_client.ReplayService.ProcessTable.{
  Answer, alive, no_file, not_run, parts, exited, check_ps, check_stat, check_signal,
  process_is_live,
}

abbrev z : Char
z = "Z"

cons-append :
    (d : Char) (flags : String) → append (String.◌∷◌ d String.[]) flags ≡ String.◌∷◌ d flags
cons-append d flags =
    append_laws.cons d String.[] flags ∙ ap (λ s. String.◌∷◌ d s) (append_laws.nil flags)

letter-starts :
    (d : Char) (flags : String)
    → str_eq (String.◌∷◌ d String.[]) "Z" ≡ true
    → starts_with (String.◌∷◌ d flags) "Z" ≡ true
letter-starts d flags e = (starts_with_iff (String.◌∷◌ d flags) "Z").1 (
  flags,
  ap (λ s. append s flags) (sym ((eq_iff (String.◌∷◌ d String.[]) "Z").0 e)) ∙ cons-append d flags,
)

starts-letter :
    (d : Char) (flags : String)
    → starts_with (String.◌∷◌ d flags) "Z" ≡ true
    → str_eq (String.◌∷◌ d String.[]) "Z" ≡ true
starts-letter d flags e =
    let (rest, whole) = (starts_with_iff (String.◌∷◌ d flags) "Z").0 e in
    (eq_iff (String.◌∷◌ d String.[]) "Z").1 (
      sym
        (ap (λ c. String.◌∷◌ c String.[]) (head-eq_of_cons-eq (sym (cons-append z rest) ∙ whole))))

both_true : (a b : Bool) → (a ≡ true → b ≡ true) → (b ≡ true → a ≡ true) → a ≡ b
both_true a b f g = ground arith

same_letter :
    (d : Char) (flags : String)
    → starts_with (String.◌∷◌ d flags) "Z" ≡ str_eq (String.◌∷◌ d String.[]) "Z"
same_letter d flags = both_true _ _ (starts-letter d flags) (letter-starts d flags)

is_status : (d : Char) (flags : String) → str_eq (String.◌∷◌ d flags) "" ≡ false
is_status d flags = rw (compare_laws.cons-nil d flags) refl

-- For a positive process id, a process that can be sent a signal, and a name without white space, so
-- that the state letter is the third field of /proc/<pid>/stat: with that file or without it, when
-- `ps` shows a status that begins with the same letter, the check gives the same answer.
pub process_is_live-agree :
    (n : ℕ) (again : Answer) (pid name : String) (d : Char) (fields : List String) (flags : String)
    → process_is_live (pos (suc n)) (record {
      signal = alive;
      stat = parts (pid ∷ name ∷ String.◌∷◌ d String.[] ∷ fields);
      ps_status = not_run;
      signal_again = again;
    })
      ≡ process_is_live (pos (suc n)) (record {
        signal = alive;
        stat = no_file;
        ps_status = exited 0 (String.◌∷◌ d flags);
        signal_again = again;
      })
unfolding process_is_live check_signal check_stat check_ps
process_is_live-agree n again pid name d fields flags =
    rw (is_status d flags) (ap (λ b. some (not b)) (sym (same_letter d flags)))
