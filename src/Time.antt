-- ===== src/Time.antt =====
-- Go's `time` as internal/store/store.go and internal/server/server.go use it. A `time.Time` is the
-- number of nanoseconds since its zero value, the first instant of the year 1; a `time.Duration`
-- is an `int64`. The instants that the program computes lie after the year 292, so that adding a
-- negative duration does not pass the zero value.
use self_healing_distributed.Prelude.{
  ℕ, ◌+◌, ◌-◌, ◌*◌, ◌/◌, ◌%◌, Bool, not, ◌&&◌, ltb, ◌==◌, nat_key, string_key, if◌then◌else◌,
}
use self_healing_distributed.Prelude.Int64.{two64, slt, mul64}

-- Nanoseconds to the millisecond, and to the second.
abbrev pub millisecond : ℕ
millisecond = 1_000_000

abbrev pub second : ℕ
second = 1_000_000_000

-- The Unix epoch, in milliseconds since the zero `time.Time`.
abbrev pub epoch_ms : ℕ
epoch_ms = 62_135_596_800_000

abbrev pub is_zero : ℕ → Bool
is_zero t = t == 0

abbrev pub before : ℕ → ℕ → Bool
before a b = ltb a b

-- `t.Add(d)`
unfoldable pub add_duration : ℕ → ℕ → ℕ
add_duration t d = if slt d 0 then t - (two64 - d) else t + d

-- `t.UnixMilli()`: an `int64`, negative before 1970
unfoldable pub unix_milli : ℕ → ℕ
unix_milli t = (t / millisecond + two64 - epoch_ms) % two64

-- `time.UnixMilli(ms)`, at a positive `ms`
unfoldable pub of_unix_milli : ℕ → ℕ
of_unix_milli ms = (ms + epoch_ms) * millisecond

-- `!expiresAt.IsZero() && !now.Before(expiresAt)`
unfoldable pub is_expired : ℕ → ℕ → Bool
is_expired expires_at now = not (is_zero expires_at) && not (before now expires_at)

-- `time.Duration(ms) * time.Millisecond`, which wraps around
unfoldable pub milliseconds : ℕ → ℕ
milliseconds ms = mul64 ms millisecond
