-- ===== src/Tests/Watcher.antt =====
-- Runs of pkg/watcher/concrete/debouncer.go.
use skylark.Base.{all, ◌<◌, arith, ◌≡◌, refl, true, false, [], ◌∷◌, ℕ_eq, List_eq}
use skylark.Text.{Text, bytes}
use skylark.Base.Dict.{lookup, insert}
use skylark.Watcher.Debouncer.{
  new_debouncer, debounce, debounce_in, arm, expire, run_all, run_started, call_back,
}
use skylark.Watcher.Debouncer.Counts.{times}
use skylark.Watcher.Debouncer.Quiet.{debounce_runs}
use skylark.Watcher.Events.{new_watcher, wanted, happen_all, changes, ticks, calls, notice, happen}
use skylark.Watcher.Events.Jobs.{happen_all-wanted}
use skylark.Watcher.Debouncer.Bursts.{event, clock, callbacks, act, act_all, burst, burst_starves}

abbrev note : Text
note = bytes "note.md"

-- The function runs once, after the second event has been quiet for the delay.
settles :
    (act_all
      (event note 0
        ∷ clock 5
        ∷ callbacks 5
        ∷ event note 7
        ∷ clock 12
        ∷ callbacks 12
        ∷ clock 17
        ∷ callbacks 18
        ∷ [])
      (new_debouncer 10 50)).ran
    ≡ note ∷ []
unfolding act_all act debounce debounce_in arm expire run_all run_started call_back new_debouncer
    lookup insert
settles = refl

burst_starves_example :
    (burst note 0 (9 ∷ 9 ∷ 9 ∷ 9 ∷ []) (debounce note 0 (new_debouncer 10 20))).ran ≡ []
burst_starves_example = burst_starves note 0 10 20 (9 ∷ 9 ∷ 9 ∷ 9 ∷ []) refl

open_again :
    (act_all (event note 0 ∷ clock 10 ∷ callbacks 10 ∷ []) (new_debouncer 10 50)).done ≡ false
unfolding act_all act debounce debounce_in arm expire run_all run_started call_back new_debouncer
    lookup insert
open_again = refl

debounce_runs_example :
    times note (act_all (event note 0 ∷ clock 10 ∷ callbacks 10 ∷ []) (new_debouncer 10 50))
    < times note (
        run_all 31 (
          expire 31 (
            debounce note 20
              (act_all (event note 0 ∷ clock 10 ∷ callbacks 10 ∷ []) (new_debouncer 10 50)))))
debounce_runs_example =
    debounce_runs 10 50 (event note 0 ∷ clock 10 ∷ callbacks 10 ∷ []) note 20 31 open_again
      (omega arith)

happen_all-wanted_example :
    all wanted
      (happen_all
        (changes (bytes "notes/a.md") 1 ∷ changes (bytes ".skai/b.md") 1 ∷ ticks 20 ∷ calls 20 ∷ [])
        (new_watcher 10 100)).debouncer.ran
    ≡ true
happen_all-wanted_example =
    happen_all-wanted 10 100
      (changes (bytes "notes/a.md") 1 ∷ changes (bytes ".skai/b.md") 1 ∷ ticks 20 ∷ calls 20 ∷ [])

-- A file deeper in the folder is sent.
deep_file_sent :
    (happen_all
      (changes (bytes ".skai/tools/b.md") 1
        ∷ changes (bytes ".skai/b.md") 1
        ∷ ticks 20
        ∷ calls 20
        ∷ [])
      (new_watcher 10 100)).debouncer.ran
    ≡ bytes ".skai/tools/b.md" ∷ []
unfolding happen_all happen notice wanted debounce debounce_in arm expire run_all run_started
    call_back new_watcher new_debouncer lookup insert
deep_file_sent = refl
