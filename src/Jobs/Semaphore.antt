-- ===== src/Jobs/Semaphore.antt =====
-- thread_pool02/semaphore.c. A semaphore is its flag; the mutex makes each operation atomic. A thread
-- sleeps in BinarySemaphoreWait as long as the flag is false, so what the signals wake is left open.
use c_study.Base.{ℕ, zero, suc, ◌≡◌, refl, Bool, true, false, Option, none, some, if◌then◌else◌}

pub record BinarySemaphore : Type 0 where
  pub value : Bool

-- BinarySemaphoreCreate and BinarySemaphoreInit, where `malloc` succeeds.
unfoldable pub create : BinarySemaphore
create = record { value = false }

unfoldable pub reset : BinarySemaphore → BinarySemaphore
unfolding create
reset bs = create

unfoldable pub post : BinarySemaphore → BinarySemaphore
post bs = record { value = true }

unfoldable pub post_all : BinarySemaphore → BinarySemaphore
post_all bs = record { value = true }

-- BinarySemaphoreWait: the semaphore when the call returns, or `none` while it sleeps.
unfoldable pub wait : BinarySemaphore → Option BinarySemaphore
wait bs = if bs.value then some bs else none

-- `n` calls of BinarySemaphoreWait, one after the other.
unfoldable pub waits : ℕ → BinarySemaphore → Option BinarySemaphore
waits zero bs = some bs
waits (suc n) bs = elim (wait bs) [ none ↦ none | some bs' ↦ waits n bs' ]

-- After one BinarySemaphorePost any number of BinarySemaphoreWait calls return, with no other post
-- between them, and a call after BinarySemaphoreReset sleeps.
waits-post :
    (n : ℕ) (bs : BinarySemaphore)
    → (waits n (post bs) ≡ some (post bs)) × (wait (reset (post bs)) ≡ none)
unfolding waits wait post reset
waits-post zero bs = (refl, refl)
waits-post (suc n) bs = waits-post n bs
