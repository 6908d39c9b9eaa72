-- ===== src/Litime/Notify/Accounts.antt =====
-- Every notification is accounted for.
use litime_timescaledb_inser.Prelude.{
  ℕ, ◌+◌, ◌≡◌, ◌≢◌, refl, true, false, Option, none, some, ok, List, [], ◌∷◌, ◌++◌, arith, length,
  length-append, if◌then◌else◌, ltb, inl, inr, ◌⊎◌, Bool-cases, Option-cases,
}
use litime_timescaledb_inser.Strings.{Text}
use litime_timescaledb_inser.Strings.Laws.{text_eq_refl}
use litime_timescaledb_inser.Telemetry.{measure, total-measure}
use litime_timescaledb_inser.Litime.Metrics.{
  Metrics, Instrument, notifications, parse_failures, dropped, counted, same,
}
use litime_timescaledb_inser.Litime.Queue.{Reading, publish}
use litime_timescaledb_inser.Litime.Notify.{Shared, Notification, handle_notification, handle_all}

module _ {Data : Type 0} (parse : List ℕ → Option Data) (battery_id : Text) where
  abbrev pub waiting_in : Shared Data → ℕ
  waiting_in s = length s.queue.readings.items

  -- The value of one of the battery's counters.
  abbrev pub count : Instrument → Shared Data → ℕ
  count i s = counted i battery_id s.metrics

  -- The queue is open, and the metrics are not nil.
  pub record IsLive (s : Shared Data) : Type 0 where
    pub flag_open : s.queue.closed ≡ false
    pub channel_open : s.queue.readings.closed ≡ false
    pub reported : s.metrics ≢ none

  pub record Accounted (s t : Shared Data) (k : ℕ) : Type 0 where
    pub live : IsLive t
    pub received :
        count notifications t + count parse_failures t
        ≡ count notifications s + count parse_failures s + k
    pub kept :
        waiting_in t + count dropped t + count parse_failures t
        ≡ waiting_in s + count dropped s + count parse_failures s + k

  counted-measure :
      (i j : Instrument) (m : Metrics)
      → m ≢ none
      → counted i battery_id (measure m j 1 battery_id)
        ≡ counted i battery_id m + (if same j i then 1 else 0)
  counted-measure i j m h =
      ground (arith, total-measure same i battery_id m j 1 battery_id, text_eq_refl battery_id)

  measure-some : (m : Metrics) (j : Instrument) → m ≢ none → measure m j 1 battery_id ≢ none
  measure-some none j h e = h refl
  measure-some (some calls) j h e = cc

  abbrev Outcome : Shared Data → Notification → Type 0
  Outcome s n =
      (t : Shared Data) × (handle_notification parse battery_id s n ≡ ok t) × Accounted s t 1

  failed-Outcome :
      (s : Shared Data) (n : Notification) → IsLive s → parse n.bytes ≡ none → Outcome s n
  unfolding handle_notification
  failed-Outcome s n v e =
      rw (e, handle_notification)
        (
          record s { metrics = measure s.metrics parse_failures 1 battery_id },
          refl,
          record {
            live = record {
              flag_open = v.flag_open;
              channel_open = v.channel_open;
              reported = measure-some s.metrics parse_failures v.reported;
            };
            received = omega (
              arith,
              counted-measure notifications parse_failures s.metrics v.reported,
              counted-measure parse_failures parse_failures s.metrics v.reported,
            );
            kept = omega (
              arith,
              counted-measure dropped parse_failures s.metrics v.reported,
              counted-measure parse_failures parse_failures s.metrics v.reported,
            );
          },
        )

  module _ (s : Shared Data) (n : Notification) (v : IsLive s) (d : Data)
      (e : parse n.bytes ≡ some d) where
    abbrev seen_metrics : Metrics
    seen_metrics = measure s.metrics notifications 1 battery_id

    abbrev stored : List (Reading Data)
    stored =
        s.queue.readings.items
        ++ record { battery_id = battery_id; observed_at = n.observed_at; data_of = d } ∷ []

    seen-IsLive : IsLive (record s { last_seen = n.seen_at; metrics = seen_metrics })
    seen-IsLive = record {
      flag_open = v.flag_open;
      channel_open = v.channel_open;
      reported = measure-some s.metrics notifications v.reported;
    }

    stored-Outcome : ltb (waiting_in s) s.queue.readings.capacity ≡ true → Outcome s n
    unfolding handle_notification publish
    stored-Outcome room =
        rw (e, handle_notification)
          (
            record s {
              queue = record (s.queue) { readings = record (s.queue.readings) { items = stored } };
              metrics = seen_metrics;
              last_seen = n.seen_at;
            },
            ground arith,
            record {
              live = record {
                flag_open = v.flag_open;
                channel_open = v.channel_open;
                reported = seen-IsLive.reported;
              };
              received = omega (
                arith,
                counted-measure notifications notifications s.metrics v.reported,
                counted-measure parse_failures notifications s.metrics v.reported,
              );
              kept = omega (
                arith,
                length-append s.queue.readings.items (_ ∷ []),
                counted-measure dropped notifications s.metrics v.reported,
                counted-measure parse_failures notifications s.metrics v.reported,
              );
            },
          )

    refused-Outcome : ltb (waiting_in s) s.queue.readings.capacity ≡ false → Outcome s n
    unfolding handle_notification publish
    refused-Outcome full =
        rw (e, handle_notification)
          (
            record s { metrics = measure seen_metrics dropped 1 battery_id; last_seen = n.seen_at },
            ground arith,
            record {
              live = record {
                flag_open = v.flag_open;
                channel_open = v.channel_open;
                reported = measure-some seen_metrics dropped seen-IsLive.reported;
              };
              received = omega (
                arith,
                counted-measure notifications notifications s.metrics v.reported,
                counted-measure parse_failures notifications s.metrics v.reported,
                counted-measure notifications dropped seen_metrics seen-IsLive.reported,
                counted-measure parse_failures dropped seen_metrics seen-IsLive.reported,
              );
              kept = omega (
                arith,
                counted-measure dropped notifications s.metrics v.reported,
                counted-measure parse_failures notifications s.metrics v.reported,
                counted-measure dropped dropped seen_metrics seen-IsLive.reported,
                counted-measure parse_failures dropped seen_metrics seen-IsLive.reported,
              );
            },
          )

  handle_notification-Accounted : (s : Shared Data) (n : Notification) → IsLive s → Outcome s n
  handle_notification-Accounted s n v = elim (Option-cases (parse n.bytes)) [
    | inl e ↦ failed-Outcome s n v e
    | inr (d, e) ↦ elim (Bool-cases (ltb (waiting_in s) s.queue.readings.capacity)) [
      | inl room ↦ stored-Outcome s n v d e room
      | inr full ↦ refused-Outcome s n v d e full
    ]
  ]

  -- While the queue is open, k notifications in a row leave nothing unaccounted for and never
  -- panic: those counted as received and those counted as parse failures grow by k together, and so
  -- do the readings in the queue, those counted as dropped and the parse failures.
  pub handle_all-Accounted :
      (ns : List Notification) (s : Shared Data)
      → IsLive s
      → (t : Shared Data) × (handle_all parse battery_id s ns ≡ ok t) × Accounted s t (length ns)
  unfolding handle_all
  handle_all-Accounted [] s v =
      (s, refl, record { live = v; received = omega arith; kept = omega arith })
  handle_all-Accounted (n ∷ ns) s v =
      let (t, e, a) = handle_notification-Accounted s n v in
      let (u, f, b) = handle_all-Accounted ns t a.live in
      rw e (
        u,
        f,
        record {
          live = b.live;
          received = omega (arith, a.received, b.received);
          kept = omega (arith, a.kept, b.kept);
        },
      )

  -- lastSeen moves exactly when the notification parses, whatever becomes of its reading; so a full
  -- or closed queue cannot make a battery look silent, and garbage cannot make it look alive.
  pub handle_notification-last_seen :
      (s t : Shared Data) (n : Notification)
      → handle_notification parse battery_id s n ≡ ok t
      → ((parse n.bytes ≡ none) × (t.last_seen ≡ s.last_seen) × (t.queue ≡ s.queue))
        ⊎ ((parse n.bytes ≢ none) × (t.last_seen ≡ n.seen_at))
  unfolding handle_notification publish
  handle_notification-last_seen s t n h = ground arith
