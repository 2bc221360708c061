-- ===== src/Examples/TypedDictionary/Main/Setup.antt =====
-- main of examples/02_typed_dictionary/src/main.cpp (lines 243-351) as a whole, with the ids of
-- generate_ids (lines 158-199).
use libstf.Base.{
  ℕ, ◌*◌, ◌<◌, ◌≡◌, refl, ap, ◌∙◌, List, [], ◌∷◌, suc, Bool-cases, inl, inr, arith, length, All,
}
use libstf.Base.Word.{u64_mod}
use libstf.Base.Action.{Result, ok, ◌>>=◌}
use libstf.Buffer.{MemoryPool}
use libstf.Configuration.{StreamConfig}
use libstf.Examples.Session.{Session, or_exit, on_thread, premap}
use libstf.Examples.Session.Returns.{bind_inversion, or_exit_inversion}
use libstf.Logging.{Text}
use libstf.Examples.CommandLine.{Opt, parsed}
use libstf.Examples.TypedDictionary.{Args, parse_args, generate_ids, spread}
use libstf.Examples.TypedDictionary.Ids.{generate_ids-distinct}
use libstf.Examples.TypedDictionary.Main.{
  Host, Buffers, allocate_all, start, with_config, connect, main, fill,
}
use libstf.Examples.TypedDictionary.Main.Success.{LookingUp, execute-LookingUp}

length-spread :
    (slots : ℕ) (drawn next_slot : List ℕ) → length (spread slots next_slot drawn) ≡ length drawn
unfolding spread
length-spread slots [] next_slot = refl
length-spread slots (id ∷ ids) next_slot = ap suc (length-spread slots ids _)

module _ {Double : Type 0} (args : Args Double) (drawn : List ℕ) where
  length-generated : length (generate_ids args drawn) ≡ length drawn
  unfolding generate_ids
  length-generated = elim (Bool-cases args.distinct) [
    | inl d ↦ simp d (length-spread _ drawn _)
    | inr d ↦ simp d refl
  ]

  generated-inside :
      (stoul : Text → Result ℕ) (stod : Text → Result Double) (zero_double : Double)
      (options : List Opt)
      → parse_args stoul stod zero_double options ≡ parsed args
      → All (λ id. id < args.num_values) drawn
      → All (λ id. id < args.num_values) (generate_ids args drawn)
  generated-inside stoul stod zero_double options passed inside = elim (Bool-cases args.distinct) [
    | inl d ↦ (generate_ids-distinct stoul stod zero_double options args drawn passed d).0
    | inr d ↦ unfold generate_ids in simp d inside
  ]

abbrev pub generated : {Double : Type 0} → Host → Args Double → List ℕ
generated host args = generate_ids args host.drawn

module _ {Double : Type 0} {pool : MemoryPool} (host : Host) (args : Args Double) where
  -- The memory with the values and the ids in their buffers.
  abbrev pub filled : Buffers → Session pool → Session pool
  filled buffers s = record s { memory = fill args (generated host args) buffers s.memory }

  -- main found its stream, allocated its buffers, filled them, and its runs all succeed.
  pub record Materializes (s s' : Session pool) : Type 0 where
    pub config : StreamConfig
    pub after : Session pool
    pub connects : on_thread connect s ≡ (ok config, after)
    pub buffers : Buffers
    pub ready : Session pool
    pub looking_up :
        LookingUp host args config (generated host args) buffers (filled buffers ready) s'

  -- For arguments that parse_args returned, as many ids as were asked for, drawn within the dictionary,
  -- and fewer than a size_t counts in all runs: main returns EXIT_SUCCESS only if it found its stream
  -- and, from buffers that hold the values and the ids, its runs all return, after each of which the
  -- output has at each index the value that the id at this index names.
  pub main-Materializes :
      (stoul : Text → Result ℕ) (stod : Text → Result Double) (zero_double : Double)
      (options : List Opt) (s s' : Session pool)
      → parse_args stoul stod zero_double options ≡ parsed args
      → All (λ id. id < args.num_values) host.drawn
      → length host.drawn ≡ args.num_ids
      → args.num_runs * args.num_ids < u64_mod
      → main host args s ≡ (ok 0, s')
      → Materializes s s'
  unfolding main with_config start
  main-Materializes stoul stod zero_double options s s' passed inside count small e =
      let (config, after, connects, e1) =
        bind_inversion (on_thread connect) (with_config host args) s e in
      let rest = start host args config in
      let (_, s1, _, e2) =
        bind_inversion (premap host.huge_pool)
          (λ _. allocate_all host args >>= λ buffers. or_exit buffers rest) after e1 in
      let (found, s2, _, e3) =
        bind_inversion (allocate_all host args) (λ buffers. or_exit buffers rest) s1 e2 in
      let (buffers, _, e4) = or_exit_inversion found rest s2 s' e3 in
      let many : length (generated host args) ≡ args.num_ids =
        length-generated args host.drawn ∙ count in
      let exact =
        execute-LookingUp host args config (generated host args) buffers
          (generated-inside args host.drawn stoul stod zero_double options passed inside)
          (omega (arith, many)) (rw many small) (filled buffers s2) s' in
      record {
        config = config;
        after = after;
        connects = connects;
        buffers = buffers;
        ready = s2;
        looking_up = exact.0 e4;
      }
