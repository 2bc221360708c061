-- ===== src/Logging/Formatting.antt =====
-- What log_formatted emits (software/libstf/logging.cpp lines 64-101), and what reaches stderr over a
-- sequence of calls.
use libstf.Base.{
  ℕ, zero, ◌+◌, ◌-◌, ◌≡◌, refl, ap, ◌∙◌, [], ◌∷◌, Option, none, some, arith, length, replicate,
  length-replicate, take, take-length,
}
use libstf.Logging.{Text, LogLevel, Logger, log, overwrite, log_formatted}

-- What C documents of vsnprintf for a format that makes this text: it returns the length of the text
-- whatever the size, and writes what fits before the null terminator.
pub record Prints {F : Type 0} (vsnprintf : ℕ → F → Option ℕ × Text) (fmt : F) (message : Text)
    : Type 0 where
  pub measures : (size : ℕ) → (vsnprintf size fmt).0 ≡ some (length message)
  pub writes : (size : ℕ) → (vsnprintf size fmt).1 ≡ take (size - 1) message

overwrite_all : (cs : Text) → overwrite cs (replicate (length cs) 0) ≡ cs
overwrite_all [] = refl
overwrite_all (c ∷ cs) = ap (λ (t : Text). c ∷ t) (overwrite_all cs)

-- For a format that makes a text, log_formatted does what log does of that text: the buffer that the
-- first pass measures holds the whole of it. For a format that vsnprintf refuses it emits nothing.
pub log_formatted-log :
    {F : Type 0} (vsnprintf : ℕ → F → Option ℕ × Text) (fmt bad : F) (message : Text)
    (level : LogLevel) (g : Logger)
    → Prints vsnprintf fmt message
    → (vsnprintf 0 bad).0 ≡ none
    → (log_formatted vsnprintf level fmt g ≡ log level message g)
      × (log_formatted vsnprintf level bad g ≡ g)
unfolding log_formatted log
log_formatted-log vsnprintf fmt bad message level g prints refused = (
  rw (prints.measures 0) (
      let full : overwrite (vsnprintf (length (replicate (length message) (zero)) + 1) fmt).1
            (replicate (length message) 0)
          ≡ message =
        ap (λ (cs : Text). overwrite cs (replicate (length message) 0))
          (prints.writes (length (replicate (length message) 0) + 1)
            ∙ ap (λ (n : ℕ). take n message)
                (omega (arith, length-replicate (length message) (zero)))
            ∙ take-length message)
        ∙ overwrite_all message in
      rw full refl),
  rw refused (ground arith),
)
