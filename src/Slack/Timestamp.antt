-- ===== src/Slack/Timestamp.antt =====
-- backend/internal/slack/domain.go, `SlackTime`: a Slack timestamp is the decimal seconds of the Unix
-- epoch, with a fraction. A time is a count of nanoseconds from the zero `time.Time`, so an instant
-- before that one, 62135596800 seconds before the epoch, is taken for it.
use go_dashboard.Prelude.{
  ℕ, ◌+◌, ◌-◌, ◌*◌, String, ◌≡◌, refl, Option, none, some, List, [], ◌∷◌, ◌++◌, eqb, if◌then◌else◌,
  take, chars, of_chars, ℤ, pos, negsuc,
}
use go_dashboard.Prelude.{parse_int}
use Prim.Native.Char.{Char, code}
use go_dashboard.Trigger.{Time}

abbrev pub epoch_seconds : ℕ
epoch_seconds = 62_135_596_800

-- `t.Unix()` seconds of a time from the zero time on.
abbrev pub unix_seconds : ℤ → ℕ
unix_seconds (pos n) = epoch_seconds + n
unix_seconds (negsuc n) = epoch_seconds - (n + 1)

-- `time.Unix(seconds, nanos)`
unfoldable pub unix_time : ℤ → ℤ → Time
unix_time seconds (pos n) = unix_seconds seconds * 1_000_000_000 + n
unix_time seconds (negsuc n) = unix_seconds seconds * 1_000_000_000 - (n + 1)

-- `strings.Cut(s, ".")`: what stands before the first dot, and what stands after it, if there is one.
unfoldable pub cut_dot : List Char → List Char × Option (List Char)
cut_dot [] = ([], none)
cut_dot (c ∷ cs) =
    let (before, after) = cut_dot cs in
    if eqb (code c) 46 then ([], some cs) else (c ∷ before, after)

abbrev pub fraction_of : Option (List Char) → List Char
fraction_of none = chars "0"
fraction_of (some cs) = cs

abbrev pub time_of : Option ℤ → Option ℤ → Time
time_of none nanos = 0
time_of (some seconds) none = 0
time_of (some seconds) (some nanos) = unix_time seconds nanos

unfoldable pub slack_time : String → Time
slack_time timestamp =
    let (seconds, fraction) = cut_dot (chars timestamp) in
    time_of (parse_int (of_chars seconds))
      (parse_int (of_chars (take 9 (fraction_of fraction ++ chars "000000000"))))

slack_time_sample :
    slack_time "1700000000.000200" ≡ (62_135_596_800 + 1_700_000_000) * 1_000_000_000 + 200_000
unfolding slack_time cut_dot take parse_int unix_time
slack_time_sample = refl

slack_time_plain : slack_time "12" ≡ (62_135_596_800 + 12) * 1_000_000_000
unfolding slack_time cut_dot take parse_int unix_time
slack_time_plain = refl

slack_time_malformed : slack_time "soon" ≡ 0
unfolding slack_time cut_dot take parse_int unix_time
slack_time_malformed = refl
