-- ===== src/Tests/Process.antt =====
-- Runs of pkg/process/memory.
use skylark.Base.{◌∷◌, []}
use skylark.Base.Int.{pos, negsuc}
use skylark.Text.{bytes}
use skylark.Process.Memory.{Process, ResourceLimits, new_process, no_limits}
use skylark.Process.Memory.Runs.{
  starts, waits, expires, sets_limits, steps, IsSound, steps-new_process-IsSound,
}

abbrev bad_limits : ResourceLimits
bad_limits = record no_limits { max_files = negsuc 4 }

abbrev short_limits : ResourceLimits
short_limits = record no_limits { max_cpu_time = pos 5 }

steps-new_process-IsSound_example : IsSound (
    steps
      (starts ∷ sets_limits short_limits ∷ starts ∷ expires ∷ waits ∷ [])
      (new_process 1 (bytes "ls") [] bad_limits))
steps-new_process-IsSound_example =
    steps-new_process-IsSound 1 (bytes "ls") [] bad_limits
      (starts ∷ sets_limits short_limits ∷ starts ∷ expires ∷ waits ∷ [])

abbrev killed_process : Process
killed_process = record (new_process 1 (bytes "ls") [] no_limits) { exit_code = negsuc 0 }
