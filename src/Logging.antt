-- ===== src/Logging.antt =====
-- software/libstf/logging.hpp and logging.cpp: the level filter, the sinks and the two ways to log.
-- A text is the list of its bytes. The process-wide sink and level are one record, which also keeps
-- what was written; `vsnprintf` of the C library is a parameter.
pub mod Formatting
use Prim.Native.Char.{code}
use Prim.Native.String.{String}
use libstf.Base.{
  ℕ, ◌+◌, Bool, List, [], ◌∷◌, ◌++◌, Option, none, some, leb, if◌then◌else◌, length, replicate,
}

abbrev pub Text : Type 0
Text = List ℕ

-- The bytes of an ASCII literal.
abbrev pub text : String → Text
text String.[] = []
text (String.◌∷◌ c s) = code c ∷ text s

pub data LogLevel : Type 0 where
  trace debug info warning error fatal off : LogLevel

-- The value of the enumerator, which `>=` compares.
abbrev pub severity : LogLevel → ℕ
severity trace = 0
severity debug = 1
severity info = 2
severity warning = 3
severity error = 4
severity fatal = 5
severity off = 6

abbrev pub to_string : LogLevel → Text
to_string trace = text "TRACE"
to_string debug = text "DEBUG"
to_string info = text "INFO"
to_string warning = text "WARNING"
to_string error = text "ERROR"
to_string fatal = text "FATAL"
to_string off = text "OFF"

-- The default sink, or one that the host application installed, by its number.
pub data LogSink : Type 0 where
  stderr_log_sink : LogSink
  host_sink : ℕ → LogSink

-- A record that a host's sink was given.
pub record LogRecord : Type 0 where
  pub sink : ℕ
  pub level : LogLevel
  pub message : Text

pub record Logger : Type 0 where
  pub g_sink : LogSink
  pub g_level : LogLevel
  -- What the default sink wrote.
  pub stderr : Text
  -- What the sinks of the host were given, oldest first.
  pub records : List LogRecord

-- At the start of the process.
abbrev pub init : Logger
init = record { g_sink = stderr_log_sink; g_level = info; stderr = []; records = [] }

-- The line that the default sink writes with a single fwrite.
unfoldable pub line : LogLevel → Text → Text
line level message = text "[libstf] [" ++ to_string level ++ text "] " ++ message ++ text "\n"

-- `sink->log(level, message)`
unfoldable pub sink_log : LogSink → LogLevel → Text → Logger → Logger
unfolding line
sink_log stderr_log_sink level message g = record g { stderr = g.stderr ++ line level message }
sink_log (host_sink n) level message g = record g {
  records = g.records ++ (record { sink = n; level = level; message = message } ∷ []);
}

-- `none` is the nullptr, which restores the default sink.
abbrev pub set_log_sink : Option ℕ → Logger → Logger
set_log_sink none g = record g { g_sink = stderr_log_sink }
set_log_sink (some n) g = record g { g_sink = host_sink n }

abbrev pub set_log_level : LogLevel → Logger → Logger
set_log_level level g = record g { g_level = level }

abbrev pub should_log : LogLevel → Logger → Bool
should_log level g = leb (severity g.g_level) (severity level)

-- `log(level, message)`
unfoldable pub log : LogLevel → Text → Logger → Logger
unfolding sink_log
log level message g = if should_log level g then sink_log g.g_sink level message g else g

-- The bytes of a buffer after others were written from its start on.
abbrev pub overwrite : Text → Text → Text
overwrite [] buffer = buffer
overwrite (c ∷ cs) [] = []
overwrite (c ∷ cs) (b ∷ bs) = c ∷ overwrite cs bs

-- `vsnprintf(buffer, size, fmt, args)`, where `F` has a format with its arguments: the result, `none`
-- where it is negative, and the bytes that it writes before the null terminator.
module _ {F : Type 0} (vsnprintf : ℕ → F → Option ℕ × Text) where
  -- After the first pass.
  abbrev pub emit_formatted : LogLevel → F → Option ℕ → Logger → Logger
  emit_formatted level fmt none g = g
  emit_formatted level fmt (some needed) g =
      let message = replicate needed 0 in
      sink_log g.g_sink level (overwrite (vsnprintf (length message + 1) fmt).1 message) g

  -- `log_formatted(level, fmt, ...)`, and the variadic `log`
  unfoldable pub log_formatted : LogLevel → F → Logger → Logger
  unfolding sink_log
  log_formatted level fmt g =
      if should_log level g then emit_formatted level fmt (vsnprintf 0 fmt).0 g else g
