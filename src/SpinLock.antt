-- ===== src/SpinLock.antt =====
-- `SpinLock` of src/concurrency.h, with any number of threads. A step is one access to the flag.
pub mod Exclusion
mod Tests
use givy.Base.{ℕ, Bool, true, false, not, ◌&&◌, ◌==◌, if◌then◌else◌}

-- `locking` is the loop of `lock`; a thread is `inside` from there to its `unlock`.
pub data Thread : Type 0 where
  outside : Thread
  locking : Thread
  inside : Thread

-- `lock`: one round of the loop. A weak exchange may fail for no reason (`spurious`).
unfoldable pub lock_round : Bool → Bool → Bool × Thread
lock_round locked spurious =
    if not locked && not spurious then (true, inside) else (locked, locking)

-- The flag and the thread after `unlock`.
unfoldable pub unlock : Bool → Bool × Thread
unlock locked = (false, outside)

pub record Machine : Type 0 where
  pub locked : Bool
  pub threads : ℕ → Thread

-- A thread outside calls `lock`, one in the loop goes through a round, one inside calls `unlock`.
unfoldable pub access : Bool → Thread → Bool → Bool × Thread
access locked outside spurious = (locked, locking)
access locked locking spurious = lock_round locked spurious
access locked inside spurious = unlock locked

unfoldable pub step : Machine → ℕ → Bool → Machine
step m i spurious =
    let r = access m.locked (m.threads i) spurious in
    record { locked = r.0; threads = λ j. if j == i then r.1 else m.threads j }
