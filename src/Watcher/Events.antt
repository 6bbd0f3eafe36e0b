-- ===== src/Watcher/Events.antt =====
-- pkg/watcher/concrete/watcher.go: changes of files go through the debouncer, whose functions send a
-- job for the file each. The jobs that were sent are the keys that the debouncer has run.
pub mod Jobs
use skylark.Base.{
  ℕ, Bool, true, false, not, ◌&&◌, List, [], ◌∷◌, if◌then◌else◌, ◌==◌, List_eq, ℕ_eq,
}
use skylark.Text.{Text, bytes, has_suffix}
use skylark.Text.Split.{split_on, last_two}
use skylark.Watcher.Debouncer.{Debouncer, new_debouncer, debounce, expire, run_all, stop}

pub record FileWatcher : Type 0 where
  pub debouncer : Debouncer
  pub stopped : Bool

-- NewWatcher, once the paths are watched
unfoldable pub new_watcher : (debounce_delay max_delay : ℕ) → FileWatcher
unfolding new_debouncer
new_watcher debounce_delay max_delay = record {
  debouncer = new_debouncer debounce_delay max_delay;
  stopped = false;
}

-- A Markdown file that does not stand directly in a folder `.skai`.
unfoldable pub wanted : Text → Bool
wanted path =
    has_suffix path (bytes ".md") && not ((last_two [] [] (split_on 47 path)).0 == bytes ".skai")

-- A turn of the loop of `watch` on an event; a loop that has ended takes none.
unfoldable pub notice : Text → ℕ → FileWatcher → FileWatcher
unfolding wanted debounce
notice path now w =
    if w.stopped
    then w
    else if wanted path
    then record w { debouncer = debounce path now w.debouncer }
    else w

-- Stop
unfoldable pub stop_watcher : FileWatcher → FileWatcher
unfolding stop
stop_watcher w = if w.stopped then w else record { debouncer = stop w.debouncer; stopped = true }

-- What happens to a watcher: a change of a file, the clock and the turns of callbacks, and Stop.
pub data Happening : Type 0 where
  changes : (path : Text) → (now : ℕ) → Happening
  ticks calls : (now : ℕ) → Happening
  stops : Happening

unfoldable pub happen : Happening → FileWatcher → FileWatcher
unfolding notice stop_watcher expire run_all
happen (changes path now) w = notice path now w
happen (ticks now) w = record w { debouncer = expire now w.debouncer }
happen (calls now) w = record w { debouncer = run_all now w.debouncer }
happen stops w = stop_watcher w

unfoldable pub happen_all : List Happening → FileWatcher → FileWatcher
unfolding happen
happen_all [] w = w
happen_all (h ∷ happenings) w = happen_all happenings (happen h w)
