-- ===== src/Abi/Buffer.antt =====
-- internal/abi/buffer.go: the pool of the buffers that the host still owns. A pointer is its
-- address, nil is 0, and the native functions' answers are arguments.
use cpa_plugin_token_saver.Common.{
  Bool, List, Option, [], arith, false, if◌then◌else◌, length, ltb, none, not, some, true, ℕ, ◌&&◌,
  ◌*◌, ◌+◌, ◌==◌, ◌^◌, ◌||◌, ◌∷◌, ◌≡◌,
}
use cpa_plugin_token_saver.Text.{Bytes}

abbrev pub max_request_bytes : ℕ
max_request_bytes = 16 * 2 ^ 20

abbrev pub max_response_bytes : ℕ
max_response_bytes = 16 * 2 ^ 20

-- The addresses that are tracked, with their lengths.
pub record BufferPool : Type 0 where
  pub allocations : List (ℕ × ℕ)

pub data BufferError : Type 0 where
  buffer_too_large allocator_unavailable allocation_failed live_pointer nil_pointer : BufferError

pub data Allocated : Type 0 where
  no_buffer : Allocated
  not_allocated : BufferError → Allocated
  buffer : ℕ → ℕ → Allocated

unfoldable pub is_tracked : ℕ → List (ℕ × ℕ) → Bool
is_tracked ptr [] = false
is_tracked ptr ((p, n) ∷ ps) = p == ptr || is_tracked ptr ps

unfoldable pub untrack : ℕ → List (ℕ × ℕ) → List (ℕ × ℕ)
untrack ptr [] = []
untrack ptr ((p, n) ∷ ps) = let rest = untrack ptr ps in if p == ptr then rest else (p, n) ∷ rest

unfoldable pub new_buffer_pool : BufferPool
new_buffer_pool = record { allocations = [] }

-- `Allocate`; the allocator is the pointer that its call returns, or none when there is no function.
unfoldable pub allocate : BufferPool → Bytes → Option ℕ → BufferPool × Allocated
allocate pool raw none =
    if length raw == 0
    then (pool, no_buffer)
    else (if ltb max_response_bytes (length raw)
        then (pool, not_allocated buffer_too_large)
        else (pool, not_allocated allocator_unavailable))
allocate pool raw (some ptr) =
    if length raw == 0
    then (pool, no_buffer)
    else (if ltb max_response_bytes (length raw)
        then (pool, not_allocated buffer_too_large)
        else (if ptr == 0
            then (pool, not_allocated allocation_failed)
            else (if is_tracked ptr pool.allocations then (pool, not_allocated live_pointer) else (
              record { allocations = (ptr, length raw) ∷ pool.allocations },
              buffer ptr (length raw),
            ))))

-- `Free`; the flag tells whether the native function was called on the pointer.
unfoldable pub free : BufferPool → ℕ → ℕ → Bool → BufferPool × Bool
free pool ptr reported_length has_free =
    if ptr == 0 || not has_free
    then (pool, false)
    else (if not (is_tracked ptr pool.allocations)
        then (pool, false)
        else (record { allocations = untrack ptr pool.allocations }, true))

unfoldable pub outstanding : BufferPool → ℕ
outstanding pool = length pool.allocations

-- `CopyRequest`; `memory` is what the host's bytes read.
unfoldable pub copy_request : (ℕ → ℕ → Bytes) → ℕ → ℕ → Bytes × Option BufferError
copy_request memory ptr len =
    if len == 0
    then ([], none)
    else (if ltb max_request_bytes len
        then ([], some buffer_too_large)
        else (if ptr == 0 then ([], some nil_pointer) else (memory ptr len, none)))

-- One call of the host.
pub data Call : Type 0 where
  allocating : Bytes → Option ℕ → Call
  freeing : ℕ → ℕ → Bool → Call

unfoldable pub after_call : BufferPool → Call → BufferPool
unfolding allocate free
after_call pool (allocating raw allocator) = (allocate pool raw allocator).0
after_call pool (freeing ptr reported has_free) = (free pool ptr reported has_free).0

abbrev pub gives : ℕ → Allocated → ℕ
gives ptr (buffer p n) = if p == ptr then 1 else 0
gives ptr _ = 0

-- How often a call hands the pointer out, and how often it frees it.
unfoldable pub handed_out : ℕ → BufferPool → Call → ℕ
unfolding allocate
handed_out ptr pool (allocating raw allocator) = gives ptr (allocate pool raw allocator).1
handed_out ptr pool _ = 0

unfoldable pub freed : ℕ → BufferPool → Call → ℕ
unfolding free
freed ptr pool (freeing p reported has_free) =
    if (free pool p reported has_free).1 && p == ptr then 1 else 0
freed ptr pool _ = 0

unfoldable pub run_calls : BufferPool → List Call → BufferPool
unfolding after_call
run_calls pool [] = pool
run_calls pool (c ∷ cs) = run_calls (after_call pool c) cs

unfoldable pub total : (BufferPool → Call → ℕ) → BufferPool → List Call → ℕ
unfolding after_call
total count pool [] = 0
total count pool (c ∷ cs) = count pool c + total count (after_call pool c) cs

abbrev pub live : ℕ → BufferPool → ℕ
live ptr pool = if is_tracked ptr pool.allocations then 1 else 0

is_tracked-untrack :
    (p ptr : ℕ) (ps : List (ℕ × ℕ))
    → is_tracked ptr (untrack p ps) ≡ not (p == ptr) && is_tracked ptr ps
unfolding is_tracked untrack
is_tracked-untrack p ptr [] = ground arith
is_tracked-untrack p ptr ((q, n) ∷ ps) = ground (arith, is_tracked-untrack p ptr ps)

call-live :
    (ptr : ℕ) (pool : BufferPool) (c : Call)
    → freed ptr pool c + live ptr (after_call pool c) ≡ live ptr pool + handed_out ptr pool c
unfolding freed after_call handed_out allocate free is_tracked
call-live ptr pool (allocating raw none) = ground arith
call-live ptr pool (allocating raw (some p)) = ground arith
call-live ptr pool (freeing p reported has_free) =
    ground (arith, is_tracked-untrack p ptr pool.allocations)

calls-live :
    (ptr : ℕ) (pool : BufferPool) (calls : List Call)
    → total (freed ptr) pool calls + live ptr (run_calls pool calls)
      ≡ live ptr pool + total (handed_out ptr) pool calls
unfolding total run_calls
calls-live ptr pool [] = omega arith
calls-live ptr pool (c ∷ cs) =
    omega (arith, call-live ptr pool c, calls-live ptr (after_call pool c) cs)

-- Whatever the host calls, each pointer was freed as often as it was handed out, less the one time
-- that it may still be outstanding: no buffer is freed twice.
pub buffers_freed_once :
    (ptr : ℕ) (calls : List Call)
    → total (freed ptr) new_buffer_pool calls + live ptr (run_calls new_buffer_pool calls)
      ≡ total (handed_out ptr) new_buffer_pool calls
unfolding is_tracked new_buffer_pool
buffers_freed_once ptr calls = omega (arith, calls-live ptr new_buffer_pool calls)
