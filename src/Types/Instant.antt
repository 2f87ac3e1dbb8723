-- ===== src/Types/Instant.antt =====
-- Go's `time.Time` as the code uses it: whole seconds since 1970, and the nanoseconds within the
-- second. Times before 1970 and the location, which changes no comparison of instants, are left out.
use x_b10cslashbademeister.Common.{ℕ, Bool, ltb, ◌==◌, ◌&&◌, ◌||◌}

-- `t.sec` is `t.Unix()`.
pub record Time : Type 0 where
  pub sec : ℕ
  pub nsec : ℕ

-- `time.Unix(s, 0)`
abbrev pub at_second : ℕ → Time
at_second s = record { sec = s; nsec = 0 }

abbrev pub before : Time → Time → Bool
before t u = ltb t.sec u.sec || (t.sec == u.sec && ltb t.nsec u.nsec)

-- `t.After(u)`
abbrev pub after : Time → Time → Bool
after t u = before u t
