-- ===== src/Task/Values/Tests.antt =====
-- Due dates at given times.
use taskforge_platform.Common.{◌*◌, ◌≡◌, refl, true, false, some, Datetime}
use taskforge_platform.Task.Values.{DueDate, is_overdue, is_approaching}

-- Half an hour before a due date that is written in another zone.
abbrev due : DueDate
due = record { date = some (record { micros = 7200 * 1000000; tzinfo = some 1500 }) }

abbrev half_an_hour_before : Datetime
half_an_hour_before = record { micros = 1800 * 1000000; tzinfo = some 1440 }

due_soon : is_approaching half_an_hour_before due ≡ true
unfolding is_approaching
due_soon = refl

not_overdue : is_overdue half_an_hour_before due ≡ false
unfolding is_overdue
not_overdue = refl
