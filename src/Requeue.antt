-- ===== src/Requeue.antt =====
-- internal/utils/requeueduration/duration.go: the shortest time after which a controller is queued
-- again. A `time.Duration` is a number of nanoseconds; the mutexes make each method one step.
pub mod Shortest
use inplaceu.Base.{
  Bool, ◌&&◌, ◌||◌, not, Option, none, some, [], Text, text_eq, Dict, lookup, insert, remove,
  if◌then◌else◌,
}
use inplaceu.Base.Int.{ℤ, pos, ltb_ℤ}

pub record Duration : Type 0 where
  pub duration : ℤ
  pub message : Text

abbrev pub zero_duration : Duration
zero_duration = record { duration = pos 0; message = [] }

-- A value of the `sync.Map`, whose values have any type.
pub data StoreValue : Type 0 where
  duration_value : Duration → StoreValue
  other_value : StoreValue

-- The field `store`.
abbrev pub DurationStore : Type 0
DurationStore = Dict Text StoreValue

-- The test that `Update` and `UpdateWithMsg` share.
abbrev is_shorter : ℤ → Duration → Bool
is_shorter new_duration rd =
    ltb_ℤ (pos 0) new_duration
    && (not (ltb_ℤ (pos 0) rd.duration) || ltb_ℤ new_duration rd.duration)

unfoldable pub update : ℤ → Duration → Duration
update new_duration rd =
    if is_shorter new_duration rd then record rd { duration = new_duration } else rd

-- `message` is the text that `Sprintf` makes of the format and its arguments.
unfoldable pub update_with_msg : ℤ → Text → Duration → Duration
update_with_msg new_duration message rd =
    if is_shorter new_duration rd then record { duration = new_duration; message = message } else rd

unfoldable pub merge : Duration → Duration → Duration
unfolding update_with_msg
merge rd rd2 = update_with_msg rd2.duration rd2.message rd

unfoldable pub get : Duration → ℤ
get rd = rd.duration

unfoldable pub get_with_msg : Duration → ℤ × Text
get_with_msg rd = (rd.duration, rd.message)

abbrev pub load_or_zero : Option StoreValue → StoreValue
load_or_zero none = duration_value zero_duration
load_or_zero (some v) = v

unfoldable pub push : Text → ℤ → DurationStore → DurationStore
unfolding update
push key new_duration dm = elim (load_or_zero (lookup key dm)) [
  | duration_value rd ↦ insert key (duration_value (update new_duration rd)) dm
  | other_value ↦ remove key dm
]

abbrev pub get_or_zero : StoreValue → ℤ
get_or_zero (duration_value rd) = rd.duration
get_or_zero other_value = pos 0

unfoldable pub pop : Text → DurationStore → DurationStore × ℤ
pop key dm = elim (lookup key dm) [ none ↦ (dm, pos 0) | some v ↦ (remove key dm, get_or_zero v) ]
