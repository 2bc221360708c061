-- ===== src/Tests/Runs/TypedDictionary.antt =====
-- examples/02_typed_dictionary/src/main.cpp on a device that looks its ids up.
use libstf.Base.{
  ℕ, ◌+◌, ◌-◌, ◌*◌, ◌/◌, ◌%◌, ◌≡◌, ◌↔◌, refl, ap, ◌&&◌, false, none, List, [], ◌∷◌, arith, leb, ltb,
  if◌then◌else◌, get_or,
}
use libstf.Base.Action.{ok}
use libstf.Logging.{Text}
use libstf.TlbManager.{ensure_tlb_mapping}
use libstf.Transfers.{enqueue_stream_output, enqueue_stream_input, post_transfers}
use libstf.Configuration.{
  StreamConfig, write_register, stream_config, enqueue_stream_config, stream_word,
}
use libstf.Configuration.Global.{
  global_config, add_configs, add_config, has_config, get_config, get_config_bounds,
}
use libstf.Examples.CommandLine.{Opt}
use libstf.Examples.Session.{Session}
use libstf.Examples.ReplayBuffer.{Memory}
use libstf.Examples.TypedDictionary.{Args, parse_args, verify_output}
use libstf.Examples.TypedDictionary.Main.{Host, main, verify_run, execute}
use libstf.Examples.TypedDictionary.Main.Success.{LookingUp, execute-LookingUp}
use libstf.Examples.TypedDictionary.Main.Setup.{Materializes, main-Materializes}
use libstf.Tests.Runs.{bump, fresh}

abbrev digit : Text → ℕ
digit t = get_or t 0 0 - 48

abbrev options : List Opt
options =
    (record { opt = b'v'; optarg = b'2' ∷ [] })
    ∷ (record { opt = b'i'; optarg = b'9' ∷ [] })
    ∷ (record { opt = b'r'; optarg = b'1' ∷ [] })
    ∷ []

-- The nine ids are rounded up to 16.
abbrev args : Args ℕ
args = record {
  value_bits = 32;
  num_values = 2;
  num_ids = 16;
  zipf = 0;
  num_runs = 1;
  seed = 42;
  distinct = false;
}

abbrev drawn : List ℕ
drawn = 0 ∷ 1 ∷ 1 ∷ 0 ∷ 0 ∷ 0 ∷ 1 ∷ 1 ∷ 0 ∷ 1 ∷ 0 ∷ 1 ∷ 1 ∷ 1 ∷ 1 ∷ 0 ∷ []

abbrev registers : List ℕ
registers = 0 ∷ 1 ∷ 10 ∷ 1 ∷ 1 ∷ []

-- The values are at 64, the ids at 72 and the output at 136.
abbrev look_up_ids : Memory → Memory
look_up_ids m a =
    if leb 136 a && ltb a 200
    then m (64 + 4 * get_or drawn ((a - 136) / 4) 0 + (a - 136) % 4)
    else m a

abbrev host : Host
host = record {
  device = record {
    completed = λ calls. 1 ∷ [];
    memory_after = λ calls m. look_up_ids m;
    get_csr_after = λ calls r. get_or registers r 0;
  };
  max_transfer_size = 64;
  drawn = drawn;
  huge_pool = none;
  uninitialised = (0, 0, 0);
}

abbrev start : Session bump
start = fresh registers 64

abbrev end : Session bump
end = (main host args start).1

-- The run looks the ids up, and main returns EXIT_SUCCESS.
materializes : main host args start ≡ (ok 0, end)
unfolding main verify_run verify_output global_config add_configs add_config has_config get_config
    get_config_bounds stream_config write_register enqueue_stream_config stream_word
    ensure_tlb_mapping enqueue_stream_output enqueue_stream_input post_transfers
materializes = let done : (main host args start).0 ≡ ok 0 = refl in ap (λ r. (r, end)) done

main-Materializes_example : Materializes host args start end
unfolding parse_args
main-Materializes_example =
    main-Materializes host args (λ t. ok (digit t)) (λ t. ok 0) 0 options start end refl
      (omega arith) refl (omega arith) materializes

abbrev config : StreamConfig
config = record { config = record { addr_offset = 3; num_regs = 7 }; num_streams = 1 }

execute-LookingUp_example :
    (execute host args config drawn (64, 72, 136) start ≡ (ok 0, end))
    ↔ LookingUp host args config drawn (64, 72, 136) start end
execute-LookingUp_example =
    execute-LookingUp host args config drawn (64, 72, 136) (omega arith) (omega arith) (omega arith)
      start end
