-- ===== src/Profiling.antt =====
-- class Profiler: software/libstf/profiling.hpp and profiling.cpp. Caliper is not part of the
-- repository: the state keeps the calls that were made of it, oldest first, and whether its manager
-- reports an error is given. Without LIBSTF_WITH_PROFILING the calls do nothing.
pub mod Nesting
use libstf.Base.{Bool, true, false, List, [], ◌∷◌, ◌++◌, if◌then◌else◌}
use libstf.Base.Action.{Action, ◌>>=◌, ◌>>◌, pure, modify, throw_if, runtime_error}
use libstf.Logging.{Text, text}

pub data Call : Type 0 where
  config_set : Text → Text → Call
  new_manager : Call
  add : Text → Call
  start : Call
  flush : Call
  mark_begin : Text → Call
  mark_end : Text → Call

pub record Profiler : Type 0 where
  pub calls : List Call

abbrev pub record_call : Call → Profiler → Profiler
record_call c p = record { calls = p.calls ++ (c ∷ []) }

abbrev pub profile : Text
profile = text "runtime-report(calc.inclusive=true,output=stdout),event-trace"

module _ (with_profiling : Bool) where
  -- What is compiled with LIBSTF_WITH_PROFILING only.
  abbrev pub compiled : Action Profiler (Unit {0}) → Action Profiler (Unit {0})
  compiled m = if with_profiling then m else pure tt

  unfoldable pub init : (List Call → Bool) → Action Profiler (Unit {0})
  init error = compiled (do
    modify (record_call (config_set (text "CALI_CALIPER_ATTRIBUTE_DEFAULT_SCOPE") (text "thread")))
    modify (record_call new_manager)
    modify (record_call (add profile))
    λ p. throw_if (error p.calls) runtime_error p)

  unfoldable pub start_manager : Action Profiler (Unit {0})
  start_manager = compiled (modify (record_call start))

  unfoldable pub flush_manager : Action Profiler (Unit {0})
  flush_manager = compiled (modify (record_call flush))

  -- The regions in order, and in reverse order.
  unfoldable pub open_regions : List Text → Profiler → Profiler
  open_regions [] p = p
  open_regions (region ∷ regions) p =
      open_regions regions (if with_profiling then record_call (mark_begin region) p else p)

  unfoldable pub close_regions : List Text → Profiler → Profiler
  close_regions [] p = p
  close_regions (region ∷ regions) p =
      let rest = close_regions regions p in
      if with_profiling then record_call (mark_end region) rest else rest
