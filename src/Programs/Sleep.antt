-- ===== src/Programs/Sleep.antt =====
-- src/sleep.c.
use leocoin.Prelude.{
  ℕ, ◌+◌, ◌*◌, ◌/◌, ◌%◌, ◌^◌, ◌<◌, ◌≡◌, refl, Bool, true, false, arith, if◌then◌else◌,
}
use leocoin.Result.{Result, ok, err, guard, failure_sleep}

-- `struct timespec`
pub record Timespec : Type 0 where
  pub tv_sec : ℕ
  pub tv_nsec : ℕ

abbrev pub timespec_of : (microseconds : ℕ) → Timespec
timespec_of microseconds = record {
  tv_sec = microseconds / 1000000;
  tv_nsec = microseconds % 1000000 * 1000;
}

-- `nanosleep` tells whether the C library's function returns 0.
unfoldable pub sleep_microseconds :
    (nanosleep : Timespec → Bool) → (microseconds : ℕ) → Result (Unit {0})
sleep_microseconds nanosleep microseconds =
    guard (nanosleep (timespec_of microseconds)) failure_sleep

-- What POSIX asks of the argument: less than a second of nanoseconds, and here seconds that fit a
-- signed 64-bit `time_t`; together they are the time.
pub record Lasts (microseconds : ℕ) (t : Timespec) : Type 0 where
  pub whole : t.tv_sec * 1000000000 + t.tv_nsec ≡ microseconds * 1000
  pub nanoseconds : t.tv_nsec < 1000000000
  pub seconds : t.tv_sec < 2 ^ 63

-- `sleep_microseconds` calls `nanosleep` once, with a time that is that number of microseconds and
-- that `nanosleep` accepts, for any 64-bit number; it returns the code for a failed sleep where
-- `nanosleep` does not return 0.
pub sleep_microseconds-Lasts :
    (nanosleep : Timespec → Bool) (microseconds : ℕ)
    → microseconds < 2 ^ 64
    → (t : Timespec) × Lasts microseconds t
      × (sleep_microseconds nanosleep microseconds
          ≡ (if nanosleep t then ok tt else err failure_sleep))
unfolding sleep_microseconds
sleep_microseconds-Lasts nanosleep us fits =
    (timespec_of us, lasts, guard-if (nanosleep (timespec_of us)))
  where
    lasts : Lasts us (timespec_of us)
    lasts = record { whole = omega arith; nanoseconds = omega arith; seconds = omega arith }

    guard-if : (b : Bool) → guard b failure_sleep ≡ (if b then ok tt else err failure_sleep)
    guard-if true = refl
    guard-if false = refl
