-- ===== src/Examples/CommandLine.antt =====
-- How the three examples read their command lines: the loop around getopt_long, which is the same in
-- the three copies of parse_args. What getopt_long returns is given: each option with its argument,
-- and `?` for what it does not know.
use libstf.Base.{ℕ, List, [], ◌∷◌}
use libstf.Base.Action.{Failure, Result, ok, err}
use libstf.Logging.{Text}

-- `opt`, a character, and `optarg`.
pub record Opt : Type 0 where
  pub opt : ℕ
  pub optarg : Text

-- How a call that may end the program ends: it returns, it exits, or a conversion throws.
pub data Outcome (A : Type 0) : Type 0 where
  parsed : A → Outcome A
  exited : ℕ → Outcome A
  threw : Failure → Outcome A

module _ {A B : Type 0} where
  -- `member = conversion(optarg);`
  abbrev pub set_from : Result A → (A → B) → Outcome B
  set_from (ok a) f = parsed (f a)
  set_from (err e) f = threw e

  -- The rest of a function after a call that may end the program.
  abbrev pub and_then : Outcome A → (A → Outcome B) → Outcome B
  and_then (parsed a) f = f a
  and_then (exited n) f = exited n
  and_then (threw e) f = threw e

-- The loop, with the switch.
abbrev pub parse_options : {A : Type 0} → (Opt → A → Outcome A) → List Opt → A → Outcome A
parse_options switch [] args = parsed args
parse_options switch (o ∷ os) args = and_then (switch o args) (parse_options switch os)
