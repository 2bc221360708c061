-- ===== src/OutputHandle.antt =====
-- class OutputHandle: software/libstf/output_handle.hpp and output_handle.cpp. Its mutex makes each
-- call one step on the state. A call that waits on the condition variable is one step too: `none`
-- where its condition does not hold, so that it waits for a notification and is tried again.
pub mod Reading
pub mod Callbacks
pub mod Marking
pub mod Histories
pub mod AnyStream
use libstf.Base.{
  ℕ, zero, suc, ◌+◌, ◌≡◌, refl, Bool, true, false, not, ◌&&◌, ◌||◌, Option, none, some, List, [],
  ◌∷◌, ◌++◌, map, ltb, leb, if◌then◌else◌, length, get_elem?, get_or, set, replicate,
}
use libstf.Base.Action.{
  Action, Result, ok, err, invalid_argument, out_of_range, ◌>>=◌, ◌>>◌, pure, gets, lift, modify,
  throw_if,
}
use libstf.Buffer.{Buffer, MemoryPool, make_buffer}

-- `std::bitset<MAXIMUM_FPGA_NUM_STREAMS>`, from bit 0 on.
abbrev pub StreamMask : Type 0
StreamMask = List Bool

abbrev pub maximum_fpga_num_streams : ℕ
maximum_fpga_num_streams = 64

abbrev pub no_streams : StreamMask
no_streams = replicate maximum_fpga_num_streams false

-- `mask.test(i)`, which throws past the last bit.
unfoldable pub test : StreamMask → ℕ → Result Bool
test mask i = elim (get_elem? mask i) [ none ↦ err out_of_range | some b ↦ ok b ]

-- `mask.set(i)`
unfoldable pub set_bit : StreamMask → ℕ → Result StreamMask
set_bit mask i = if ltb i (length mask) then ok (set mask i true) else err out_of_range

-- A call of a user's function, by its number, for a stream.
abbrev pub CallbackCall : Type 0
CallbackCall = ℕ × ℕ

pub record OutputHandle : Type 0 where
  pub num_streams : ℕ
  pub active_streams : StreamMask
  pub finished_streams : StreamMask
  -- A queue of each stream, its front first.
  pub output_buffers : List (List Buffer)
  -- The calls that the callback makes for a stream.
  pub callback : Option (ℕ → List CallbackCall)
  -- The calls of the thread that runs the callback.
  pub callback_thread : Option (List CallbackCall)
  -- The calls of the threads that were joined.
  pub joined : List CallbackCall

-- The constructor.
abbrev pub init : StreamMask → ℕ → OutputHandle
init active_streams num_streams = record {
  num_streams = num_streams;
  active_streams = active_streams;
  finished_streams = no_streams;
  output_buffers = replicate num_streams [];
  callback = none;
  callback_thread = none;
  joined = [];
}

-- `output_buffers[i]`
abbrev pub output_of : OutputHandle → ℕ → List Buffer
output_of h i = get_or h.output_buffers i []

unfoldable pub push_buffer : ℕ → Buffer → OutputHandle → OutputHandle
push_buffer stream_id buffer h = record h {
  output_buffers = set h.output_buffers stream_id (output_of h stream_id ++ (buffer ∷ []));
}

-- `if (callback_thread != std::nullopt) { callback_thread->join(); callback_thread = std::nullopt; }`
abbrev pub join : OutputHandle → OutputHandle
join h = elim h.callback_thread [
  | none ↦ h
  | some calls ↦ record h { callback_thread = none; joined = h.joined ++ calls }
]

-- `if (callback != nullptr) callback_thread = std::thread(callback, stream_id);`
abbrev pub start_callback : ℕ → OutputHandle → OutputHandle
start_callback stream_id h = record h {
  callback_thread = elim h.callback [ none ↦ h.callback_thread | some f ↦ some (f stream_id) ];
}

-- `finished_streams.set(stream_id)`
abbrev pub set_finished : ℕ → Action OutputHandle (Unit {0})
set_finished stream_id h = elim (set_bit h.finished_streams stream_id) [
  | ok mask ↦ (ok tt, record h { finished_streams = mask })
  | err e ↦ (err e, h)
]

unfoldable pub mark_done : ℕ → Action OutputHandle (Unit {0})
mark_done stream_id = modify join >> set_finished stream_id >> modify (start_callback stream_id)

abbrev pub is_empty : {A : Type 0} → List A → Bool
is_empty [] = true
is_empty (x ∷ xs) = false

-- The two guards of stream_has_more_output and get_next_stream_output.
abbrev pub check_stream : ℕ → Action OutputHandle (Unit {0})
check_stream stream_id = do
  n ← gets (λ h. h.num_streams)
  throw_if (leb n stream_id) invalid_argument
  active ← (λ h. lift (test h.active_streams stream_id) h)
  throw_if (not active) invalid_argument

-- `!output_buffers[stream_id].empty() || finished_streams.test(stream_id)`
abbrev pub stream_ready : ℕ → OutputHandle → Result Bool
stream_ready stream_id h =
    if not (is_empty (output_of h stream_id)) then ok true else test h.finished_streams stream_id

-- `output_buffers_cv.wait(guard, ready)`, and then `k`.
abbrev pub wait :
    {A : Type 0}
    → (OutputHandle → Result Bool)
    → Action OutputHandle A
    → Action OutputHandle (Option A)
wait ready k = do go ← (λ h. lift (ready h) h); if go then (k >>= λ a. pure (some a)) else pure none

-- After the guards.
abbrev pub more_output : ℕ → Action OutputHandle (Option Bool)
more_output stream_id = do
  available ← gets (λ h. not (is_empty (output_of h stream_id)))
  if available
      then pure (some true)
      else wait (stream_ready stream_id) (gets (λ h. not (is_empty (output_of h stream_id))))

unfoldable pub stream_has_more_output : ℕ → Action OutputHandle (Option Bool)
stream_has_more_output stream_id = check_stream stream_id >> more_output stream_id

-- The loop over the queues.
unfoldable pub any_available : List (List Buffer) → Bool
any_available [] = false
any_available (q ∷ qs) = if not (is_empty q) then true else any_available qs

abbrev pub any_stream_output_available : OutputHandle → Bool
any_stream_output_available h = any_available h.output_buffers

-- The loop over `count` streams from `i` on.
unfoldable pub in_flight_from : StreamMask → StreamMask → ℕ → ℕ → Result Bool
in_flight_from active finished zero i = ok false
in_flight_from active finished (suc count) i =
    let rest = in_flight_from active finished count (suc i) in
    elim (test active i) [
      | err e ↦ err e
      | ok false ↦ rest
      | ok true ↦ elim (test finished i) [ err e ↦ err e | ok true ↦ rest | ok false ↦ ok true ]
    ]

abbrev pub any_memory_in_flight : OutputHandle → Result Bool
any_memory_in_flight h =
    in_flight_from h.active_streams h.finished_streams (length h.output_buffers) 0

-- `any_stream_output_available() || !any_memory_in_flight()`
abbrev pub any_ready : OutputHandle → Result Bool
any_ready h =
    if any_stream_output_available h
    then ok true
    else elim (any_memory_in_flight h) [ ok flying ↦ ok (not flying) | err e ↦ err e ]

unfoldable pub any_stream_has_more_output : Action OutputHandle (Option Bool)
any_stream_has_more_output = do
  available ← gets any_stream_output_available
  if available then pure (some true) else wait any_ready (gets any_stream_output_available)

module _ (pool : MemoryPool) where
  -- The front of the queue as a shared buffer; the source's precondition is that there is one.
  abbrev pub transferred_mem_front_to_shared_ptr : ℕ → OutputHandle → Option Buffer × OutputHandle
  transferred_mem_front_to_shared_ptr stream_id h = elim (output_of h stream_id) [
    | [] ↦ (none, h)
    | b ∷ rest ↦ (
      some (make_buffer pool b.ptr b.size b.capacity),
      record h { output_buffers = set h.output_buffers stream_id rest },
    )
  ]

  -- The next buffer, or `none` for the nullptr.
  abbrev pub take_front : ℕ → Action OutputHandle (Option Buffer)
  take_front stream_id h =
      let (b, h') = transferred_mem_front_to_shared_ptr stream_id h in (ok b, h')

  -- After the guards.
  abbrev pub next_output : ℕ → Action OutputHandle (Option (Option Buffer))
  next_output stream_id = do
    available ← gets (λ h. not (is_empty (output_of h stream_id)))
    if available
        then (take_front stream_id >>= λ b. pure (some b))
        else wait (stream_ready stream_id) (take_front stream_id)

  unfoldable pub get_next_stream_output : ℕ → Action OutputHandle (Option (Option Buffer))
  get_next_stream_output stream_id = check_stream stream_id >> next_output stream_id

  -- `memory_pool->free` of each buffer of a queue
  abbrev pub free_queue : List Buffer → Action pool.State (Unit {0})
  free_queue [] = pure tt
  free_queue (b ∷ bs) = pool.free b.ptr b.capacity >> free_queue bs

  abbrev pub free_queues : List (List Buffer) → Action pool.State (Unit {0})
  free_queues [] = pure tt
  free_queues (q ∷ qs) = free_queue q >> free_queues qs

  -- The destructor, on the pool.
  unfoldable pub destroy : OutputHandle → Action pool.State OutputHandle
  destroy h = do
    let h' = join h
    free_queues h'.output_buffers
    pure (record h' { output_buffers = map (λ _. []) h'.output_buffers })

unfoldable pub add_callback : ℕ → OutputHandle → OutputHandle
add_callback callback h = record h {
  callback = some (λ stream. elim h.callback [
    | none ↦ (callback, stream) ∷ []
    | some previous_callback ↦ previous_callback stream ++ ((callback, stream) ∷ [])
  ]);
}
