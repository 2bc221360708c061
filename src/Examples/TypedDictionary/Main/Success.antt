-- ===== src/Examples/TypedDictionary/Main/Success.antt =====
-- The runs of main of examples/02_typed_dictionary/src/main.cpp (lines 309-351), and main as a whole.
use libstf.Base.{ℕ, ◌+◌, ◌*◌, ◌<◌, ◌≤◌, ◌≡◌, refl, ap, ◌∙◌, ◌↔◌, List, arith, length, All}
use mathlib.Core.Path.{subst}
use libstf.Base.Word.{u64_mod}
use libstf.Base.Action.{Action, Result, ok, >>=-ok, pure}
use libstf.Buffer.{MemoryPool}
use libstf.Configuration.{StreamConfig}
use libstf.Examples.Session.{Session, repeat}
use libstf.Examples.Session.Returns.{bind_inversion}
use libstf.Examples.Session.Rounds.{Counts, GoodRuns, repeat-GoodRuns, GoodRuns-repeat}
use libstf.Examples.TypedDictionary.{Args}
use libstf.Examples.TypedDictionary.Main.{
  Host, Buffers, verify_run, exit_code, run, add_run, execute,
}
use libstf.Examples.TypedDictionary.Main.Lookups.{LookedUp, verify_run-LookedUp}

zero_ended :
    {S : Type 0} (n : ℕ) (s s' : S)
    → ◌≡◌ {A = Result ℕ × S} (ok (exit_code n), s) (ok 0, s')
    → (n ≡ 0) × (s ≡ s')
unfolding exit_code
zero_ended n s s' e = (let zero_code : exit_code n ≡ 0 = cc e in ground arith, cc e)

exit_code-zero : exit_code 0 ≡ 0
unfolding exit_code
exit_code-zero = refl

module _ {Double : Type 0} {pool : MemoryPool} (host : Host) (args : Args Double)
    (config : StreamConfig) (ids : List ℕ) (buffers : Buffers) where
  -- The runs of the program all return, and after each of them every value is looked up.
  abbrev pub LookingUp : Session pool → Session pool → Type 0
  LookingUp s s' =
      GoodRuns (run host args config buffers) (λ _ _. tt)
        (λ t. LookedUp args ids buffers.0 buffers.2 t.memory) args.num_runs s tt s' tt

  module _ (inside : All (λ id. id < args.num_values) ids) (room : length ids ≤ args.num_ids)
      (small : args.num_runs * length ids < u64_mod) where
    abbrev verify : Session pool → ℕ → ℕ
    verify t = verify_run args ids buffers.0 buffers.2 t.memory

    abbrev Good : Session pool → Type 0
    Good t = LookedUp args ids buffers.0 buffers.2 t.memory

    run-Counts :
        (s s1 : Session pool) (u : Unit {0})
        → run host args config buffers s ≡ (ok u, s1)
        → (n : ℕ) → n + length ids < u64_mod
        → Counts (Good s1) (length ids) n (verify s1 n)
    run-Counts s s1 u e n h =
        verify_run-LookedUp args ids inside room buffers.0 buffers.2 s1.memory n h

    abbrev all_runs : Action (Session pool) (ℕ × Unit {0})
    all_runs =
        repeat (run host args config buffers) (add_run host args ids buffers) args.num_runs (0, tt)

    runs_of_success :
        (s s1 s' : Session pool) (n : ℕ)
        → all_runs s ≡ (ok (n, tt), s1)
        → (n ≡ 0) × (s1 ≡ s')
        → LookingUp s s'
    runs_of_success s s1 s' n ran (right, same) =
        let runs =
          repeat-GoodRuns (run host args config buffers) verify (λ _ _. tt) Good (length ids)
            u64_mod run-Counts args.num_runs s tt n s1 tt small ran in
        subst (LookingUp s) same (runs.1 right)

    -- For ids within the dictionary, no more of them than the output has places for, and fewer than a
    -- size_t counts in all runs: the runs and what follows them return EXIT_SUCCESS in a state exactly
    -- if there are runs to it that all return, after each of which the output has at each index the
    -- value that the id at this index names.
    pub execute-LookingUp :
        (s s' : Session pool)
        → (execute host args config ids buffers s ≡ (ok 0, s')) ↔ LookingUp s s'
    unfolding execute
    execute-LookingUp s s' = (
      λ e.
          let (total, s1, ran, ended) =
            bind_inversion all_runs (λ totals. pure (exit_code totals.0)) s e in
          runs_of_success s s1 s' total.0 ran (zero_ended total.0 s1 s' ended),
      λ runs.
          >>=-ok all_runs (λ totals. pure (exit_code totals.0)) s
            (GoodRuns-repeat (run host args config buffers) verify (λ _ _. tt) Good (length ids)
              u64_mod run-Counts args.num_runs 0 s tt s' tt (omega arith) runs)
          ∙ ap (λ n. (ok n, s')) exit_code-zero,
    )
