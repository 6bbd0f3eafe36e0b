-- ===== src/Watcher/Events/Jobs.antt =====
-- For which files the watcher sends jobs.
use skylark.Base.{
  ℕ, Bool, true, ◌||◌, List, [], ◌∷◌, ◌++◌, ◌≡◌, refl, all, all-append, keep, leb, arith, if-cases,
  Option, none, some, length, List_eq, ℕ_eq, ◌-◌,
}
use skylark.Base.Dict.{lookup}
use skylark.Text.{Text}
use skylark.Watcher.Debouncer.{
  Debouncer, Callback, stop_timer, arm, debounce_in, debounce, expire, call_back, run_started,
  run_all, stop, last_event,
}
use skylark.Watcher.Events.{
  FileWatcher, new_watcher, wanted, notice, stop_watcher, Happening, changes, ticks, calls, stops,
  happen, happen_all,
}

abbrev of_wanted : Callback → Bool
of_wanted cb = wanted cb.key

-- All timers, callbacks and jobs are of files that are wanted.
record AllWanted (d : Debouncer) : Type 0 where
  pending : all of_wanted d.pending ≡ true
  started : all of_wanted d.started ≡ true
  sent : all wanted d.ran ≡ true

all-keep :
    (p q : Callback → Bool) (cbs : List Callback) → all p cbs ≡ true → all p (keep q cbs) ≡ true
all-keep p q [] h = refl
all-keep p q (cb ∷ cbs) h = ground (arith, h, all-keep p q cbs)

all-both :
    {A : Type 0} (p : A → Bool) (xs ys : List A)
    → all p xs ≡ true
    → all p ys ≡ true
    → all p (xs ++ ys) ≡ true
all-both p xs ys h k = ground (arith, all-append p xs ys, h, k)

arm-AllWanted :
    (key : Text) (now context : ℕ) (d : Debouncer)
    → wanted key ≡ true
    → AllWanted d
    → AllWanted (arm key now context d)
unfolding arm
arm-AllWanted key now context d h a = record {
  pending =
      all-both of_wanted (stop_timer context d.pending) _ (all-keep of_wanted _ d.pending a.pending)
        (ground (arith, h));
  started = a.started;
  sent = a.sent;
}

debounce_in-AllWanted :
    (key : Text) (now : ℕ) (o : Option ℕ) (d : Debouncer)
    → wanted key ≡ true
    → AllWanted d
    → AllWanted (debounce_in key now o d)
unfolding debounce_in
debounce_in-AllWanted key now (some context) d h a = arm-AllWanted key now context d h a
debounce_in-AllWanted key now none d h a =
    arm-AllWanted key now (length d.last_events) _ h
      (record { pending = a.pending; started = a.started; sent = a.sent })

expire-AllWanted : (now : ℕ) (d : Debouncer) → AllWanted d → AllWanted (expire now d)
unfolding expire
expire-AllWanted now d a = record {
  pending = all-keep of_wanted _ d.pending a.pending;
  started = all-both of_wanted d.started _ a.started (all-keep of_wanted _ d.pending a.pending);
  sent = a.sent;
}

call_back-AllWanted :
    (cb : Callback) (now : ℕ) (d : Debouncer)
    → wanted cb.key ≡ true
    → AllWanted d
    → AllWanted (call_back cb now d)
unfolding call_back
call_back-AllWanted cb now d h a =
    if-cases AllWanted d.done _ _ (λ e. a)
      (λ e.
        if-cases AllWanted
          (leb d.max_delay (now - last_event cb.context d.last_events)
            || leb d.delay (now - last_event cb.context d.last_events))
          _ _
          (λ q. record {
            pending = a.pending;
            started = a.started;
            sent = all-both wanted d.ran (cb.key ∷ []) a.sent (ground (arith, h));
          })
          (λ q. a))

run_started-AllWanted :
    (cbs : List Callback) (now : ℕ) (d : Debouncer)
    → all of_wanted cbs ≡ true
    → AllWanted d
    → AllWanted (run_started cbs now d)
unfolding run_started
run_started-AllWanted [] now d h a = a
run_started-AllWanted (cb ∷ cbs) now d h a =
    run_started-AllWanted cbs now (call_back cb now d) (ground (arith, h))
      (call_back-AllWanted cb now d (ground (arith, h)) a)

stop-AllWanted : (d : Debouncer) → AllWanted d → AllWanted (stop d)
unfolding stop
stop-AllWanted d a =
    if-cases AllWanted d.done _ _ (λ e. a)
      (λ e. record {
        pending = all-keep of_wanted _ d.pending a.pending;
        started = a.started;
        sent = a.sent;
      })

abbrev Sends : FileWatcher → Type 0
Sends w = AllWanted w.debouncer

notice-AllWanted : (path : Text) (now : ℕ) (w : FileWatcher) → Sends w → Sends (notice path now w)
unfolding notice debounce
notice-AllWanted path now w a =
    if-cases Sends w.stopped _ _ (λ e. a)
      (λ e.
        if-cases Sends (wanted path) _ _
          (λ h.
            if-cases AllWanted w.debouncer.done _ _ (λ q. a)
              (λ q.
                debounce_in-AllWanted path now (lookup path w.debouncer.timers) w.debouncer h a))
          (λ h. a))

happen-AllWanted : (h : Happening) (w : FileWatcher) → Sends w → Sends (happen h w)
unfolding happen run_all stop_watcher
happen-AllWanted (changes path now) w a = notice-AllWanted path now w a
happen-AllWanted (ticks now) w a = expire-AllWanted now w.debouncer a
happen-AllWanted (calls now) w a =
    run_started-AllWanted w.debouncer.started now (record w.debouncer { started = [] }) a.started
      (record { pending = a.pending; started = refl; sent = a.sent })
happen-AllWanted stops w a =
    if-cases Sends w.stopped _ _ (λ e. a) (λ e. stop-AllWanted w.debouncer a)

happen_all-AllWanted :
    (happenings : List Happening) (w : FileWatcher) → Sends w → Sends (happen_all happenings w)
unfolding happen_all
happen_all-AllWanted [] w a = a
happen_all-AllWanted (h ∷ happenings) w a =
    happen_all-AllWanted happenings (happen h w) (happen-AllWanted h w a)

-- Whatever files change, a new watcher sends jobs only for Markdown files that do not stand directly in
-- a folder `.skai`.
pub happen_all-wanted :
    (delay max_delay : ℕ) (happenings : List Happening)
    → all wanted (happen_all happenings (new_watcher delay max_delay)).debouncer.ran ≡ true
unfolding new_watcher
happen_all-wanted delay max_delay happenings =
    (happen_all-AllWanted happenings (new_watcher delay max_delay)
      (record { pending = refl; started = refl; sent = refl })).sent
