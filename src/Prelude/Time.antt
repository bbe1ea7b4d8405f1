-- ===== src/Prelude/Time.antt =====
-- `Duration` and `Instant`: nanoseconds, an instant counted from the start of the clock.
use Prim.Native.Nat.{ℕ, ◌-◌, ◌*◌, ◌/◌}

abbrev pub from_secs : ℕ → ℕ
from_secs n = n * 1000000000

-- Zero if `earlier` is the later of the two.
abbrev pub duration_since : ℕ → ℕ → ℕ
duration_since now earlier = now - earlier

abbrev pub as_millis : ℕ → ℕ
as_millis d = d / 1000000
