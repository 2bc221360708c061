-- ===== src/Tests/Examples.antt =====
-- The examples and the logging at concrete inputs.
use libstf.Base.{
  ℕ, ◌+◌, ◌-◌, ◌*◌, ◌/◌, ◌%◌, ◌<◌, ◌≡◌, refl, ◌↔◌, true, Option, none, some, List, [], ◌∷◌, arith,
  length, take, set, All, get_elem?,
}
use libstf.Base.Action.{Result, ok, err, assertion_failed}
use libstf.ErrorHandling.{status_ok}
use libstf.Buffer.{Buffer, MemoryPool}
use libstf.OutputHandle
use libstf.OutputHandle.{OutputHandle, no_streams, test}
use libstf.Examples.OutputBuffers.{Output, fetch, verify_buffers}
use libstf.MemoryPool.Bounds.{Region}
use libstf.MemoryPool.HugePage
use libstf.MemoryPool.HugePage.{HugePageMemoryPool}
use libstf.Coyote.{CThread}
use libstf.TlbManager.Pools.{HugePage-IsPaged}
use libstf.Logging.{Text, text, warning, init, log, log_formatted}
use libstf.Logging.Formatting.{log_formatted-log}
use libstf.Examples.CommandLine.{Opt}
use libstf.Examples.ReplayBuffer.{Memory, value_at, offload_to_card, verify_output}
use libstf.Examples.ReplayBuffer.Offload.{Offload, Offloaded, offload_to_card-Offloaded}
use libstf.Examples.ReplayBuffer.Output.{wrong_values, IsCopy, verify_output_lem}
use libstf.Examples.TypedDictionary.{Args, parse_args, generate_ids, num_banks}
use libstf.Examples.TypedDictionary.Ids.{count_of, placed, generate_ids-distinct}

-- A format without specifiers prints itself; `none` is one that cannot be encoded.
abbrev vsnprintf : ℕ → Option Text → Option ℕ × Text
vsnprintf size none = (none, [])
vsnprintf size (some t) = (some (length t), take (size - 1) t)

log_formatted-log_example :
    (log_formatted vsnprintf warning (some (text "no page")) init
      ≡ log warning (text "no page") init)
    × (log_formatted vsnprintf warning none init ≡ init)
log_formatted-log_example =
    log_formatted-log vsnprintf (some (text "no page")) none (text "no page") warning init
      (record { measures = λ size. refl; writes = λ size. refl }) refl

warning_line : (log warning (text "no page") init).stderr ≡ text "[libstf] [WARNING] no page\n"
unfolding log
warning_line = refl

abbrev pool : HugePageMemoryPool ℕ
pool = record {
  jemalloc = 0;
  tcache_ids = [];
  initial_address = 1073741824;
  total_capacity = 4294967296;
  total_bytes_allocated = 0;
  bytes_allocated = 0;
  num_allocs = 0;
  zero_size_pointer = 1;
}

abbrev pages : ℕ → Result Region
pages a = HugePage.get_page_boundaries a pool

abbrev thread : CThread
thread = record { calls = []; get_csr = λ r. 0 }

-- Two pages and a part of a third.
offload_to_card-Offloaded_example :
    (xs : List Offload) × Offloaded 134217728 pages 1073741824 3321225472 thread xs
      (offload_to_card 134217728 pages 1073741824 2247483648 thread)
unfolding HugePage.get_page_boundaries libstf.MemoryPool.Bounds.is_buffer_within_bounds
offload_to_card-Offloaded_example =
    offload_to_card-Offloaded 134217728 pages 1073741824 5368709120 (HugePage-IsPaged pool refl)
      (omega arith) 1073741824 2247483648 1073741824 thread (omega arith) (omega arith) refl

-- Bytes that repeat after 256 addresses.
abbrev memory : Memory
memory a = a % 256

verify_output_lem_example :
    (verify_output memory 0 100 16 ≡ (
      length (wrong_values memory 0 100 (16 / 8) 0),
      take 5 (wrong_values memory 0 100 (16 / 8) 0),
    ))
    × (((verify_output memory 0 100 16).0 ≡ 0) ↔ IsCopy memory 100 0 16)
verify_output_lem_example = verify_output_lem memory 0 100 16 (λ a. omega arith) refl

both_wrong : (verify_output memory 0 100 16).0 ≡ 2
unfolding verify_output
both_wrong = refl

-- A decimal number.
abbrev decimal : ℕ → Text → ℕ
decimal n [] = n
decimal n (c ∷ cs) = decimal (n * 10 + (c - 48)) cs

abbrev options : List Opt
options = (record { opt = b'd'; optarg = [] }) ∷ (record { opt = b'v'; optarg = text "40" }) ∷ []

abbrev args : Args ℕ
args = record {
  value_bits = 32;
  num_values = 40;
  num_ids = 16777216;
  zipf = 0;
  num_runs = 5;
  seed = 42;
  distinct = true;
}

abbrev drawn : List ℕ
drawn = 3 ∷ 19 ∷ 35 ∷ 4 ∷ []

generate_ids-distinct_example :
    All (λ id. id < 40) (generate_ids args drawn)
    × ((i id : ℕ)
        → get_elem? drawn i ≡ some id
        → get_elem? (generate_ids args drawn) i
          ≡ some
              (placed (40 / num_banks) (count_of (id % num_banks) (take i drawn)) (id % num_banks)))
unfolding parse_args
generate_ids-distinct_example =
    generate_ids-distinct (λ t. ok (decimal 0 t)) (λ t. ok 0) 0 options args drawn refl refl

-- The bank of 3 has two slots.
placed_ids : generate_ids args drawn ≡ 3 ∷ 19 ∷ 3 ∷ 4 ∷ []
unfolding generate_ids
placed_ids = refl

abbrev buffer_at : ℕ → Buffer
buffer_at ptr = record { ptr = ptr; size = 8; capacity = 8 }

-- Both streams are finished, the first with two buffers and the second with one.
abbrev uneven : OutputHandle
uneven = record (OutputHandle.init (set (set no_streams 0 true) 1 true) 2) {
  finished_streams = set (set no_streams 0 true) 1 true;
  output_buffers = (buffer_at 0 ∷ buffer_at 8 ∷ []) ∷ (buffer_at 16 ∷ []) ∷ [];
}

abbrev any_pool : MemoryPool
any_pool = record {
  State = ℕ;
  allocate = λ size out s. (ok (status_ok, out), s);
  reallocate = λ old_size size ptr s. (ok (status_ok, ptr), s);
  free = λ ptr size s. (ok tt, s);
  get_page_boundaries = λ a s. ok (0, 100);
}

abbrev uneven_output : Output
uneven_output = some (buffer_at 0) ∷ some (buffer_at 16) ∷ some (buffer_at 8) ∷ none ∷ []

-- The fetcher stores the nullptr of the stream that has no more output, through which the
-- verification then reads.
fetches_nullptr : (fetch any_pool 3 2 [] uneven).0 ≡ ok (some uneven_output)
unfolding fetch test OutputHandle.any_available OutputHandle.in_flight_from
fetches_nullptr = refl

reads_nullptr : verify_buffers memory uneven_output (0, 0) ≡ err assertion_failed
unfolding verify_buffers value_at
reads_nullptr = refl
