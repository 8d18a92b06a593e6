-- ===== src/Store/Events.antt =====
-- sqlite_events.go: the tables of events and of notifications, whose primary keys are `id`.
use psychic_funicular.Base.{
  ℕ, ◌&&◌, ◌||◌, List, [], ◌∷◌, ◌++◌, map, any, take, if◌then◌else◌, str_eq, str_lt, sort,
}
use psychic_funicular.Base.Int.{ℤ, pos, pos_part, ltb_ℤ, leb_ℤ, eqb_ℤ}
use psychic_funicular.Model.{Event, Notification}
use psychic_funicular.Store.Api.{Result, ok, err}
use psychic_funicular.Store.Rows.{event_row, scan_event, notification_row, scan_notification, Db}

unfoldable pub create_event : Event → Db → Result (Unit {0}) × Db
create_event e db =
    if any (λ (r : Event × ℤ). str_eq r.0.id e.id) db.events
    then (err "create event: UNIQUE constraint failed", db)
    else (ok tt, record db { events = db.events ++ event_row e ∷ [] })

abbrev pub limit_or_default : ℤ → ℕ
limit_or_default limit = if leb_ℤ limit (pos 0) then 100 else pos_part limit

-- ORDER BY ts DESC, id LIMIT ?
unfoldable pub list_events : ℤ → Db → Result (List Event)
list_events limit db = ok (
    map scan_event (
      take (limit_or_default limit)
        (sort (λ a b. ltb_ℤ b.1 a.1 || eqb_ℤ a.1 b.1 && str_lt a.0.id b.0.id) db.events)))

unfoldable pub create_notification : Notification → Db → Result (Unit {0}) × Db
create_notification n db =
    if any (λ (r : Notification × ℤ). str_eq r.0.id n.id) db.notifications
    then (err "create notification: UNIQUE constraint failed", db)
    else (ok tt, record db { notifications = db.notifications ++ notification_row n ∷ [] })

unfoldable pub list_notifications : ℤ → Db → Result (List Notification)
list_notifications limit db = ok (
    map scan_notification (
      take (limit_or_default limit)
        (sort (λ a b. ltb_ℤ b.1 a.1 || eqb_ℤ a.1 b.1 && str_lt a.0.id b.0.id) db.notifications)))
