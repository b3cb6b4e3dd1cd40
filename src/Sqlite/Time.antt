-- ===== src/Sqlite/Time.antt =====
-- src/store/sqlite.rs: the seconds and nanoseconds of a `SystemTime`, as the columns hold them.
-- `SystemTime` and `Duration` count nanoseconds; the largest time is that of a 64-bit `time_t`.
use agentq.Prelude.{
  ℕ, ◌+◌, ◌-◌, ◌*◌, ◌/◌, ◌%◌, ◌^◌, ◌≡◌, Option, none, some, arith, ltb, pos, negsuc, ltb_ℤ, add_ℕ,
  if◌then◌else◌,
}
use agentq.Workflow.{SystemTime, Duration}

abbrev pub nanos_per_sec : ℕ
nanos_per_sec = 1_000_000_000

abbrev pub time_max : ℕ
time_max = 2 ^ 63 * 1_000_000_000 - 1

-- `t.checked_add(d)`
unfoldable pub checked_add : SystemTime → Duration → Option SystemTime
checked_add t d = if ltb_ℤ (pos time_max) (add_ℕ t d) then none else some (add_ℕ t d)

-- `now.checked_add(ttl).unwrap_or(now)`
unfoldable pub lease_expiry : SystemTime → Duration → SystemTime
unfolding checked_add
lease_expiry now ttl = elim (checked_add now ttl) [ none ↦ now | some t ↦ t ]

-- The same in nanoseconds, for a clock at or after the epoch: where the sum overflows, the lease
-- expires at once.
unfoldable pub expiry_nanos : ℕ → Duration → ℕ
expiry_nanos n ttl = if ltb time_max (n + ttl) then n else n + ttl

-- A time before the epoch counts as the epoch.
unfoldable pub system_time_parts : SystemTime → ℕ × ℕ
system_time_parts (pos n) = (n / nanos_per_sec, n % nanos_per_sec)
system_time_parts (negsuc n) = (0, 0)

unwrap_or_zero : Option ℕ → ℕ
unwrap_or_zero none = 0
unwrap_or_zero (some n) = n

-- `UNIX_EPOCH + Duration::new(secs as u64, nanos as u32)`
unfoldable pub system_time_from_parts : Option ℕ → Option ℕ → SystemTime
unfolding unwrap_or_zero
system_time_from_parts secs nanos =
    pos (unwrap_or_zero secs * nanos_per_sec + unwrap_or_zero nanos % 2 ^ 32)

-- `duration_since(UNIX_EPOCH)` in milliseconds `as i64`, or 0: the bit pattern of the `i64`.
unfoldable pub timestamp_millis : SystemTime → ℕ
timestamp_millis (pos n) = n / 1_000_000 % 2 ^ 64
timestamp_millis (negsuc n) = 0

-- A time at or after the epoch is read back from its two columns.
pub system_time_from_parts-system_time_parts :
    (n : ℕ)
    → system_time_from_parts
        (some (system_time_parts (pos n)).0)
        (some (system_time_parts (pos n)).1)
      ≡ pos n
unfolding system_time_from_parts system_time_parts
system_time_from_parts-system_time_parts n = ground arith
