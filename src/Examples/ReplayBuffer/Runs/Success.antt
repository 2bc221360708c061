-- ===== src/Examples/ReplayBuffer/Runs/Success.antt =====
-- When main of examples/03_replay_buffer/src/main.cpp (lines 330-427) ends with EXIT_SUCCESS.
use libstf.Base.{
  ℕ, ◌+◌, ◌*◌, ◌/◌, ◌%◌, ◌<◌, ◌≡◌, refl, sym, ap, ◌∙◌, ◌↔◌, List, arith, length, get_or,
}
use mathlib.Core.Path.{subst}
use native.Mathlib.Nat.{mod-eq_of_lt}
use libstf.Base.Word.{u64_mod, wrap_add}
use libstf.Base.Action.{Action, Result, ok, ◌>>=◌, >>=-post, >>=-ok, pure}
use libstf.Buffer.{MemoryPool}
use libstf.Coyote.{Call}
use libstf.Configuration.{Config, ReplayBufferConfig}
use libstf.Examples.ReplayBuffer.{Args, Memory, StreamProfile, read_profile, verify_output}
use libstf.Examples.ReplayBuffer.Output.{
  IsCopy, wrong_values, length-wrong_values, verify_output_lem,
}
use libstf.Examples.Session.{Device, Session, on_thread, wait_for_writes, repeat}
use libstf.Examples.Session.Rounds.{
  Counts, for_each-Counts, GoodRuns, repeat-GoodRuns, GoodRuns-repeat,
}
use libstf.Examples.Session.Returns.{bind_inversion}
use libstf.Examples.ReplayBuffer.Runs.{
  Profiles, Totals, zero_profile, output_of, verify_read, verify_run, add_profiles, exit_code,
  finish_run, start_run, run, add_run, execute,
}

-- Every read of every stream is a copy of the stream's input.
abbrev pub AllCopied : Args → List ℕ → List ℕ → Memory → Type 0
AllCopied args inputs outputs m =
    (stream : ℕ)
    → stream < args.num_streams
    → (read : ℕ) → read < args.num_reads
    → IsCopy m (output_of args outputs stream read) (get_or inputs stream 0) args.stream_bytes

-- How many values are compared after a run.
abbrev pub values_per_run : Args → ℕ
values_per_run args = args.num_streams * (args.num_reads * (args.stream_bytes / 8))

module _ (args : Args) (inputs outputs : List ℕ) (whole : args.stream_bytes % 8 ≡ 0) (m : Memory)
    (small : (a : ℕ) → m a < 256) where
  verify_read-Counts :
      (stream read n : ℕ)
      → n + args.stream_bytes / 8 < u64_mod
      → Counts
          (IsCopy m (output_of args outputs stream read) (get_or inputs stream 0) args.stream_bytes)
          (args.stream_bytes / 8)
          n
          (verify_read args inputs outputs m stream read n)
  verify_read-Counts stream read n h =
      let input = get_or inputs stream 0 in
      let output = output_of args outputs stream read in
      let wrong = length (wrong_values m input output (args.stream_bytes / 8) 0) in
      let (runs, exact) = verify_output_lem m input output args.stream_bytes small whole in
      let few = length-wrong_values m input output (args.stream_bytes / 8) 0 in
      let count : (verify_output m input output args.stream_bytes).0 ≡ wrong = ap (λ r. r.0) runs in
      let sum : verify_read args inputs outputs m stream read n ≡ n + wrong =
        ap (λ k. wrap_add u64_mod n k) count ∙ mod-eq_of_lt (omega (arith, few)) in
      record {
        grows = omega (arith, sum);
        bounded = omega (arith, sum, few);
        good = λ same. exact.0 (omega (arith, sum, same, count));
        bad = λ copy. omega (arith, sum, count, exact.1 copy);
      }

  verify_run-Counts :
      (n : ℕ)
      → n + args.num_streams * (args.num_reads * (args.stream_bytes / 8)) < u64_mod
      → Counts
          (AllCopied args inputs outputs m)
          (args.num_streams * (args.num_reads * (args.stream_bytes / 8)))
          n
          (verify_run args inputs outputs m n)
  unfolding verify_run
  verify_run-Counts n h =
      for_each-Counts _ (args.num_reads * (args.stream_bytes / 8)) u64_mod _
        (λ stream k l.
          for_each-Counts _ (args.stream_bytes / 8) u64_mod
            (verify_read args inputs outputs m stream) (verify_read-Counts stream) args.num_reads k
            l)
        args.num_streams n h

-- The exit code is zero just where nothing was wrong and the profiles are as expected.
abbrev pub AllProfiled : Args → Profiles → Type 0
AllProfiled args profiles =
    (profiles.0.num_streams ≡ args.num_streams * args.num_runs % u64_mod)
    × (profiles.1.num_streams
        ≡ args.num_streams * args.num_reads % u64_mod * args.num_runs % u64_mod)

exit_code_iff :
    (args : Args) (n : ℕ) (profiles : Profiles)
    → n + 1 < u64_mod
    → (exit_code args (n, profiles) ≡ 0) ↔ ((n ≡ 0) × AllProfiled args profiles)
unfolding exit_code
exit_code_iff args n profiles h = (λ e. ground arith, λ e. ground arith)

zero_ended :
    {S : Type 0} {n : ℕ} {s s' : S}
    → ◌≡◌ {A = Result ℕ × S} (ok n, s) (ok 0, s')
    → (n ≡ 0) × (s ≡ s')
zero_ended e = (cc, cc)

-- The memory after a run is what the device leaves.
finish_run-memory :
    {pool : MemoryPool} (device : Device) (profile_config : Config) (n : ℕ) (s : Session pool)
    → (finish_run device profile_config n s).1.memory
      ≡ device.memory_after s.tlb_manager.cthread.calls s.memory
unfolding finish_run
finish_run-memory {pool} device profile_config n s =
    let left = device.memory_after s.tlb_manager.cthread.calls s.memory in
    let KeptIn : Result Profiles × Session pool → Type 0 = λ r. r.1.memory ≡ left in
    let first : Action (Session pool) StreamProfile = on_thread (read_profile profile_config 0) in
    let second : Action (Session pool) StreamProfile = on_thread (read_profile profile_config 1) in
    >>=-post (λ r. r.1.memory ≡ left) (wait_for_writes device n)
      (λ _. first >>= λ i. second >>= λ o. pure (i, o)) s
      (λ _ _.
        >>=-post (λ r. r.1.memory ≡ left) first (λ i. second >>= λ o. pure (i, o))
          (wait_for_writes device n s).1
          (λ i _.
            >>=-post (λ r. r.1.memory ≡ left) second (λ o. pure (i, o)) _ (λ _ _. refl)
              (λ _ _. refl))
          (λ _ _. refl))
      (λ _ _. refl)

module _ {pool : MemoryPool} (device : Device) (max_transfer_size : ℕ) (args : Args)
    (config : ReplayBufferConfig) (profile_config : Config) (inputs outputs : List ℕ) where
  -- The runs of the program all return, and after each of them every output is a copy.
  abbrev pub CopyingRuns : Session pool → Session pool → Profiles → Type 0
  CopyingRuns s s' profiles =
      GoodRuns (run device max_transfer_size args config profile_config inputs outputs) add_profiles
        (λ t. AllCopied args inputs outputs t.memory) args.num_runs s (zero_profile, zero_profile)
        s' profiles

module _ {pool : MemoryPool} (device : Device) (max_transfer_size : ℕ) (args : Args)
    (config : ReplayBufferConfig) (profile_config : Config) (inputs outputs : List ℕ)
    (bytes : (calls : List Call) (m : Memory) (a : ℕ) → device.memory_after calls m a < 256)
    (whole : args.stream_bytes % 8 ≡ 0) where
  abbrev one_run : Action (Session pool) Profiles
  one_run = run device max_transfer_size args config profile_config inputs outputs

  abbrev Copying : Session pool → Session pool → Profiles → Type 0
  Copying = CopyingRuns device max_transfer_size args config profile_config inputs outputs

  run-bytes :
      (s s' : Session pool) (profiles : Profiles)
      → one_run s ≡ (ok profiles, s')
      → (a : ℕ) → s'.memory a < 256
  unfolding run
  run-bytes s s' profiles e a =
      let (n, s1, started, finished) =
        bind_inversion (start_run max_transfer_size args config inputs outputs)
          (finish_run device profile_config) s e in
      let left : s'.memory ≡ device.memory_after s1.tlb_manager.cthread.calls s1.memory =
        sym (ap (λ r. r.1.memory) finished) ∙ finish_run-memory device profile_config n s1 in
      rw left (bytes _ _ a)

  run-Counts :
      args.num_runs * values_per_run args + 1 < u64_mod
      → (s s1 : Session pool) (profiles : Profiles) → one_run s ≡ (ok profiles, s1)
      → (n : ℕ) → n + values_per_run args < u64_mod
      → Counts
          (AllCopied args inputs outputs s1.memory)
          (values_per_run args)
          n
          (verify_run args inputs outputs s1.memory n)
  run-Counts small s s1 profiles e n h =
      verify_run-Counts args inputs outputs whole s1.memory (run-bytes s s1 profiles e) n h

  abbrev all_runs : Action (Session pool) Totals
  all_runs =
      repeat one_run (add_run args inputs outputs) args.num_runs (0, (zero_profile, zero_profile))

  -- The runs of a program that ends with 0.
  runs_of_success :
      (s s1 s' : Session pool) (n : ℕ) (profiles : Profiles)
      → args.num_runs * values_per_run args + 1 < u64_mod
      → all_runs s ≡ (ok (n, profiles), s1)
      → s1 ≡ s'
      → exit_code args (n, profiles) ≡ 0
      → Copying s s' profiles × AllProfiled args profiles
  runs_of_success s s1 s' n profiles small ran same code =
      let (few, good) =
        repeat-GoodRuns one_run (λ t n. verify_run args inputs outputs t.memory n) add_profiles
          (λ t. AllCopied args inputs outputs t.memory) (values_per_run args) u64_mod
          (run-Counts small) args.num_runs s (zero_profile, zero_profile) n s1 profiles
          (omega arith) ran in
      let (right, profiled) = (exit_code_iff args n profiles (omega (arith, few))).0 code in
      (subst (λ t. Copying s t profiles) same (good right), profiled)

  success_of_runs :
      (s s' : Session pool) (profiles : Profiles)
      → args.num_runs * values_per_run args + 1 < u64_mod
      → Copying s s' profiles
      → all_runs s ≡ (ok (0, profiles), s')
  success_of_runs s s' profiles small =
      GoodRuns-repeat one_run (λ t n. verify_run args inputs outputs t.memory n) add_profiles
        (λ t. AllCopied args inputs outputs t.memory) (values_per_run args) u64_mod
        (run-Counts small) args.num_runs 0 s (zero_profile, zero_profile) s' profiles (omega arith)

  -- For streams of whole values, a device that leaves bytes in the memory and fewer values than a
  -- size_t counts: the runs and what follows them return EXIT_SUCCESS in a state exactly if there
  -- are runs to it that all return, after each of which every read of every stream is a copy of its
  -- input, and the profiles that were read add up to the numbers of streams that were written and
  -- read.
  pub execute-success :
      (s s' : Session pool)
      → args.num_runs * values_per_run args + 1 < u64_mod
      → (execute device max_transfer_size args config profile_config inputs outputs s ≡ (ok 0, s'))
        ↔ ((profiles : Profiles) × Copying s s' profiles × AllProfiled args profiles)
  unfolding execute
  execute-success s s' small = (
    λ e.
        let ((n, profiles), s1, ran, ended) =
          bind_inversion all_runs (λ totals. pure (exit_code args totals)) s e in
        let (code, same) = zero_ended ended in
        let (runs, profiled) = runs_of_success s s1 s' n profiles small ran same code in
        (profiles, runs, profiled),
    λ (profiles, runs, profiled).
        >>=-ok all_runs (λ totals. pure (exit_code args totals)) s
          (success_of_runs s s' profiles small runs)
        ∙ ap (λ n. (ok n, s')) ((exit_code_iff args 0 profiles (omega arith)).1 (refl, profiled)),
  )
