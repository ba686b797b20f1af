-- ===== src/Clock.antt =====
-- Naive UTC datetimes (`datetime` of the Python library): microseconds since 0001-01-01T00:00:00.
-- A sum past the year 9999 raises `OverflowError`, which is `none` here.
use tele_group.Base.{ℕ, ◌+◌, ◌*◌, Option, none, some, ltb, if◌then◌else◌}

abbrev pub second : ℕ
second = 1_000_000

abbrev pub day : ℕ
day = 86_400_000_000

-- 3652059 days lie before 10000-01-01
abbrev pub datetime_limit : ℕ
datetime_limit = 315_537_897_600_000_000

-- `moment + timedelta(days=days)`
abbrev pub add_days : ℕ → ℕ → Option ℕ
add_days moment days =
    if ltb (moment + days * day) datetime_limit then some (moment + days * day) else none
