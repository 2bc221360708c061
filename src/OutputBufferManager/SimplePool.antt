-- ===== src/OutputBufferManager/SimplePool.antt =====
-- SimpleMemoryPool (software/libstf/memory_pool.cpp lines 389-488) is a pool that serves an
-- OutputBufferManager.
use libstf.Base.{
  ℕ, ◌+◌, ◌-◌, ◌*◌, ◌/◌, ◌%◌, ◌^◌, ◌≤◌, ◌<◌, ◌≡◌, refl, ◌∙◌, ◌≢◌, inl, inr, none, some, List, [],
  ◌∷◌, arith, All, All-mono, ne→==,
}
use libstf.Base.Action.{ok}
use libstf.ErrorHandling.{status_ok}
use libstf.Common.{bytes_per_fpga_transfer, fpga_vaddr_bits}
use libstf.MemoryPool.Bounds.{Region}
use libstf.MemoryPool.Blocks.{lookup, emplace, erase, lookup_above, lookup-erase_ne, Within-erase}
use libstf.MemoryPool.Linear.{LinearAllocator}
use libstf.MemoryPool.Linear.Grants.{Granted, IsFull}
use libstf.MemoryPool.Simple
use libstf.MemoryPool.Simple.{
  SimpleMemoryPool, default_alignment, simple_allocator_size, track, move_block,
}
use libstf.MemoryPool.Simple.Invariant.{Inv, track-Inv, move_block-Inv, free-Inv, live_non_null}
use libstf.MemoryPool.Simple.Outcomes.{allocate_cases, reallocate_cases, lookup_new}
use libstf.TlbManager.Mapping.{IsPaged}
use libstf.TlbManager.Pools.{Simple-IsPaged}
use libstf.Buffer.{MemoryPool}
use libstf.OutputBufferManager.Service.{Serves}
use libstf.OutputBufferManager.LiveBlocks.{
  IsLive, IsOther, Distinct, next_offset, Inserted-All, All-Inserted, Inserted-Distinct,
  Distinct-Inserted,
}

-- Its virtual methods.
abbrev pub simple_pool : MemoryPool
simple_pool = record {
  State = SimpleMemoryPool;
  allocate = λ size out p. Simple.allocate size default_alignment out p;
  reallocate = λ old_size size ptr p. Simple.reallocate old_size size default_alignment ptr p;
  free = λ ptr size p. (ok tt, Simple.free ptr size default_alignment p);
  get_page_boundaries = λ a p. Simple.get_page_boundaries a p;
}

-- The blocks are live, no block twice, and so many bytes are left.
pub record Holds (bs : List Region) (n : ℕ) (p : SimpleMemoryPool) : Type 0 where
  pub inv : Inv p
  pub live : All (IsLive p) bs
  pub distinct : Distinct bs
  pub room : next_offset p + n ≤ simple_allocator_size
  pub reach : p.linear_allocator.buffer + simple_allocator_size ≤ 2 ^ fpga_vaddr_bits

lookup-emplace :
    (q m p n : ℕ) (xs : List Region)
    → lookup q xs ≡ none
    → lookup p xs ≡ some n
    → lookup p (emplace q m xs) ≡ some n
lookup-emplace q m p n xs fresh live = ground (arith, fresh, live)

-- Room for a block is room at the next offset.
not_full :
    (size n : ℕ) (p : SimpleMemoryPool)
    → Inv p
    → next_offset p + (size + n) ≤ simple_allocator_size
    → IsFull size 64 p.linear_allocator
    → ⊥
not_full size n p v room full =
    omega (arith, full (next_offset p) (omega arith) (omega arith), v.capacity)

-- The block that is new is none of the live ones.
new_fresh :
    (ptr n : ℕ) (xs : List Region)
    → lookup ptr xs ≡ none
    → (r : Region) → lookup r.0 xs ≡ some r.1
    → ptr ≢ r.0
new_fresh ptr n xs fresh r live e = absurd (cc (fresh, live, e))

rounded :
    (offset d size c l n cap : ℕ)
    → offset ≤ d
    → d < offset + 64
    → d % 64 ≡ 0
    → l ≡ d + size
    → size ≤ c
    → c % bytes_per_fpga_transfer ≡ 0
    → (offset + 63) / 64 * 64 + (c + n) ≤ cap
    → (l + 63) / 64 * 64 + n ≤ cap
rounded offset d size c l n cap low high whole ends le transfers room = omega arith

-- A block of at most `c` bytes leaves the rest.
room_left :
    (size c n ptr : ℕ) (p : SimpleMemoryPool) (linear : LinearAllocator)
    → Granted size 64 ptr p.linear_allocator linear
    → Inv p
    → size ≤ c
    → c % bytes_per_fpga_transfer ≡ 0
    → next_offset p + (c + n) ≤ simple_allocator_size
    → (linear.offset + 63) / 64 * 64 + n ≤ simple_allocator_size
room_left size c n ptr p linear g v le whole room =
    rounded p.linear_allocator.offset (ptr - p.linear_allocator.buffer) size c linear.offset n
      simple_allocator_size (omega (arith, g.above)) (omega (arith, g.above, g.near)) g.is_aligned
      (omega (arith, g.above, g.ends)) le whole room

allocates :
    (c n : ℕ) (bs : List Region) (p : SimpleMemoryPool)
    → 0 < c
    → c % bytes_per_fpga_transfer ≡ 0
    → Holds bs (c + n) p
    → (ptr : ℕ) × (p' : SimpleMemoryPool) × (Simple.allocate c default_alignment 0 p
        ≡ (ok (status_ok, ptr), p'))
      × Holds ((ptr, c) ∷ bs) n p'
      × (ptr + c ≤ 2 ^ fpga_vaddr_bits)
      × IsPaged (λ a. Simple.get_page_boundaries a p') ptr (ptr + c)
allocates c n bs p pos whole h =
    elim (allocate_cases c 6 (omega (arith, h.room), omega arith) pos 0 p h.inv) [
      | inl (_, full) ↦ absurd (not_full c n p h.inv h.room full)
      | inr (ptr, linear, e, g) ↦
          let fresh : lookup ptr p.allocated_buffers ≡ none =
            lookup_above p.linear_allocator.buffer
              (p.linear_allocator.buffer + p.linear_allocator.offset) ptr p.allocated_buffers
              h.inv.within g.above in
          let p' = track ptr c (record p { linear_allocator = linear }) in
          let inv = track-Inv c 64 ptr p linear pos g h.inv in
          let now = lookup_new c 6 (omega (arith, h.room), omega arith) pos ptr p linear h.inv g in
          (
            ptr,
            p',
            e,
            record {
              inv = inv;
              live = (
                (now, whole),
                All-mono (IsLive p) (IsLive p') bs
                    (λ r l. (lookup-emplace ptr c r.0 r.1 p.allocated_buffers fresh l.0, l.1))
                    h.live,
              );
              distinct = (
                All-mono (IsLive p) (IsOther (ptr, c)) bs
                    (λ r l. new_fresh ptr c p.allocated_buffers fresh r l.0) h.live,
                h.distinct,
              );
              room = room_left c c n ptr p linear g h.inv (omega arith) whole h.room;
              reach = omega (arith, g.same_buffer, h.reach);
            },
            omega (arith, g.within, h.inv.capacity, h.reach),
            Simple-IsPaged p' ptr c inv now,
          )
    ]

-- The other blocks are live after one was taken off the map.
live_erase :
    (ptr c : ℕ) (bs : List Region) (p : SimpleMemoryPool)
    → All (IsOther (ptr, c)) bs
    → All (IsLive p) bs
    → All
        (λ (r : Region).
          (lookup r.0 (erase ptr p.allocated_buffers) ≡ some r.1)
          × (r.1 % bytes_per_fpga_transfer ≡ 0))
        bs
live_erase ptr c [] p other live = tt
live_erase ptr c (r ∷ bs) p other live = (
  (lookup-erase_ne ptr r.0 p.allocated_buffers other.0 ∙ live.0.0, live.0.1),
  live_erase ptr c bs p other.1 live.1,
)

shrinks :
    (ptr c bytes n : ℕ) (bs : List Region) (p : SimpleMemoryPool)
    → 0 < bytes
    → bytes < c
    → Holds ((ptr, c) ∷ bs) (c + n) p
    → (ptr' : ℕ) × (p' : SimpleMemoryPool) × (Simple.reallocate c bytes default_alignment ptr p
        ≡ (ok (status_ok, ptr'), p'))
      × Holds bs n p'
shrinks ptr c bytes n bs p pos less h =
    elim (reallocate_cases bytes 6 (omega (arith, h.room), omega arith) pos c ptr p h.live.0.0
      h.inv) [
        | inl (_, full) ↦
            absurd (not_full bytes (c - bytes + n) p h.inv (omega (arith, h.room)) full)
        | inr (new_ptr, linear, e, g) ↦
            let rest = erase ptr p.allocated_buffers in
            let fresh : lookup new_ptr rest ≡ none =
              lookup_above p.linear_allocator.buffer
                (p.linear_allocator.buffer + p.linear_allocator.offset) new_ptr rest
                (Within-erase _ _ ptr p.allocated_buffers h.inv.within) g.above in
            let p' = move_block c bytes ptr new_ptr (record p { linear_allocator = linear }) in
            (
              new_ptr,
              p',
              e,
              record {
                inv =
                    move_block-Inv c bytes 64 ptr new_ptr p linear pos (omega (arith, h.room))
                      h.live.0.0 g h.inv;
                live =
                    All-mono _ (IsLive p') bs
                      (λ r l. (lookup-emplace new_ptr bytes r.0 r.1 rest fresh l.0, l.1))
                      (live_erase ptr c bs p h.distinct.0 h.live.1);
                distinct = h.distinct.1;
                room = room_left bytes c n new_ptr p linear g h.inv (omega arith) h.live.0.1 h.room;
                reach = omega (arith, g.same_buffer, h.reach);
              },
            )
      ]

frees :
    (ptr c n : ℕ) (bs : List Region) (p : SimpleMemoryPool)
    → Holds ((ptr, c) ∷ bs) n p
    → Holds bs n (Simple.free ptr c default_alignment p)
unfolding Simple.free
frees ptr c n bs p h =
    let present : ptr ≢ 0 = live_non_null ptr c p h.live.0.0 h.inv in
    rw (ne→== ptr 0 present) (record {
      inv = (rw (ne→== ptr 0 present) at (free-Inv ptr c 64 p h.live.0.0 h.inv));
      live = live_erase ptr c bs p h.distinct.0 h.live.1;
      distinct = h.distinct.1;
      room = h.room;
      reach = h.reach;
    })

-- SimpleMemoryPool serves an OutputBufferManager: as long as the bytes asked for, rounded up to its
-- alignment, are left of its gigabyte, which lies inside the addresses of the FPGA, every call that the
-- manager makes of it succeeds, blocks that are held stay live, and none is handed out twice.
pub simple_pool-Serves : Serves simple_pool Holds
simple_pool-Serves = record {
  allocates = λ c n bs p pos whole h. allocates c n bs p pos whole h;
  shrinks = λ ptr c bytes n bs p pos less h. shrinks ptr c bytes n bs p pos less h;
  frees = λ ptr c n bs p h. (Simple.free ptr c default_alignment p, refl, frees ptr c n bs p h);
  forgets = λ r bs n p h. record {
    inv = h.inv;
    live = h.live.1;
    distinct = h.distinct.1;
    room = h.room;
    reach = h.reach;
  };
  weakens = λ bs m n p h. record {
    inv = h.inv;
    live = h.live;
    distinct = h.distinct;
    room = omega (arith, h.room);
    reach = h.reach;
  };
  puts = λ r bs cs n p i h. record {
    inv = h.inv;
    live = Inserted-All (IsLive p) r bs cs i h.live;
    distinct = Inserted-Distinct r bs cs i h.distinct;
    room = h.room;
    reach = h.reach;
  };
  brings = λ r bs cs n p i h. record {
    inv = h.inv;
    live = All-Inserted (IsLive p) r bs cs i h.live;
    distinct = Distinct-Inserted r bs cs i h.distinct;
    room = h.room;
    reach = h.reach;
  };
}

-- A new pool holds nothing, and can grant its whole memory.
pub init-Holds :
    (buffer : ℕ) (memory : ℕ → ℕ)
    → 0 < buffer
    → buffer % 64 ≡ 0
    → buffer + simple_allocator_size ≤ 2 ^ fpga_vaddr_bits
    → Holds [] simple_allocator_size (Simple.init buffer memory)
init-Holds buffer memory pos whole reach = record {
  inv = record {
    within = tt;
    disjoint = tt;
    bytes = refl;
    count = refl;
    fits = omega arith;
    capacity = refl;
    non_null = pos;
    base_aligned = whole;
  };
  live = tt;
  distinct = tt;
  room = omega arith;
  reach = reach;
}
