-- ===== src/Service/Batteries/Moves.antt =====
-- What one step of a history does to the counters and to the readings of each battery.
use mathlib.Core.List.{append_assoc}
use litime_timescaledb_inser.Prelude.{
  ℕ, ℤ, ◌+◌, ◌≡◌, ◌≢◌, refl, sym, ap, ◌∙◌, inl, inr, Bool, true, false, ◌&&◌, List, [], ◌∷◌, ◌++◌,
  Option, none, some, Result, ok, if◌then◌else◌, arith, ltb, length, Bool-cases, Option-cases,
}
use litime_timescaledb_inser.Strings.{Text, text_eq}
use litime_timescaledb_inser.Channel.{Channel, Panic, receive, close, receive-cases}
use litime_timescaledb_inser.Telemetry.{measure, measure-reported, total-measure}
use litime_timescaledb_inser.Litime.Metrics.{
  Metrics, Instrument, same, counted, notifications, dropped, parse_failures,
}
use litime_timescaledb_inser.Litime.Queue.{Reading, publish, close_readings}
use litime_timescaledb_inser.Litime.Notify.{Notification, handle_notification}
use litime_timescaledb_inser.Service.Drain.{of_battery}
use litime_timescaledb_inser.Service.Batteries.{
  notified, received, ended, History, is_some, is_late, readings_of, took, step, parses, IsSound,
}

of_battery-append :
    {Data : Type 0} (id : Text) (rs ss : List (Reading Data))
    → of_battery id (rs ++ ss) ≡ of_battery id rs + of_battery id ss
of_battery-append id [] ss = omega arith
of_battery-append id (r ∷ rs) ss = omega (arith, of_battery-append id rs ss)

unparsed-late : (closed same_id : Bool) → is_late closed false same_id ≡ 0
unparsed-late true b = refl
unparsed-late false b = refl

module _ {Data : Type 0} (parse : List ℕ → Option Data) where
  -- From h to g the notifications counted for a battery are the readings that came to the queue,
  -- those dropped at a full queue, and `missed` more.
  abbrev pub Balanced : Text → History Data → History Data → ℕ → Type 0
  Balanced id h g missed =
      counted notifications id g.metrics
        + of_battery id (readings_of h)
        + counted dropped id h.metrics
      ≡ counted notifications id h.metrics
        + of_battery id (readings_of g)
        + counted dropped id g.metrics
        + missed

  pub record Moved (h : History Data) (o : Result Panic (History Data)) (closed : Bool)
      (missed : Text → ℕ) : Type 0 where
    pub after : History Data
    pub is_ok : o ≡ ok after
    pub sound : IsSound after
    pub closed_now : after.queue.closed ≡ closed
    pub balanced : (id : Text) → Balanced id h after (missed id)

  -- What a measurement adds to a counter of a battery.
  abbrev added : Instrument → Instrument → Text → Text → ℕ
  added j i k id = if same j i && text_eq k id then 1 else 0

  module _ (h : History Data) (v : IsSound h) (j : Text) (last : ℤ) (n : Notification) where
    abbrev Notified : Type 0
    Notified =
        Moved h (step parse h (notified j last n)) h.queue.closed
          (λ id. is_late h.queue.closed (parses parse n.bytes) (text_eq j id))

    abbrev seen_metrics : Metrics
    seen_metrics = measure h.metrics notifications 1 j

    seen-reported : seen_metrics ≢ none
    seen-reported = measure-reported h.metrics notifications 1 j v.reported

    unparsed-Moved : parse n.bytes ≡ none → Notified
    unfolding step handle_notification
    unparsed-Moved e = record {
      after = record h { metrics = measure h.metrics parse_failures 1 j };
      is_ok = rw (e, handle_notification) refl;
      sound = record {
        agree = v.agree;
        reported = measure-reported h.metrics parse_failures 1 j v.reported;
      };
      closed_now = refl;
      balanced = λ id. omega (
        arith,
        total-measure same notifications id h.metrics parse_failures 1 j v.reported,
        total-measure same dropped id h.metrics parse_failures 1 j v.reported,
        ap (λ o. is_late h.queue.closed (is_some o) (text_eq j id)) e
            ∙ unparsed-late h.queue.closed (text_eq j id),
      );
    }

    module _ (d : Data) (e : parse n.bytes ≡ some d) where
      abbrev measured : Reading Data
      measured = record { battery_id = j; observed_at = n.observed_at; data_of = d }

      late-Moved : h.queue.closed ≡ true → Notified
      unfolding step handle_notification publish
      late-Moved c = record {
        after = record h { metrics = seen_metrics };
        is_ok = ground (arith, e, c);
        sound = record { agree = v.agree; reported = seen-reported };
        closed_now = refl;
        balanced = λ id. omega (
          arith,
          total-measure same notifications id h.metrics notifications 1 j v.reported,
          total-measure same dropped id h.metrics notifications 1 j v.reported,
          ap (λ o. is_late h.queue.closed (is_some o) (text_eq j id)) e,
          ap (λ b. is_late b true (text_eq j id)) c,
        );
      }

      full-Moved :
          h.queue.closed ≡ false
          → ltb (length h.queue.readings.items) h.queue.readings.capacity ≡ false
          → Notified
      unfolding step handle_notification publish
      full-Moved c full = record {
        after = record h { metrics = measure seen_metrics dropped 1 j };
        is_ok = ground (arith, e, c, full, v.agree);
        sound = record {
          agree = v.agree;
          reported = measure-reported seen_metrics dropped 1 j seen-reported;
        };
        closed_now = refl;
        balanced = λ id. omega (
          arith,
          total-measure same notifications id h.metrics notifications 1 j v.reported,
          total-measure same dropped id h.metrics notifications 1 j v.reported,
          total-measure same notifications id seen_metrics dropped 1 j seen-reported,
          total-measure same dropped id seen_metrics dropped 1 j seen-reported,
          ap (λ b. is_late b (parses parse n.bytes) (text_eq j id)) c,
        );
      }

      stored-Moved :
          h.queue.closed ≡ false
          → ltb (length h.queue.readings.items) h.queue.readings.capacity ≡ true
          → Notified
      unfolding step handle_notification publish
      stored-Moved c room = record {
        after = record h {
          queue = record (h.queue) {
            readings = record (h.queue.readings) {
              items = h.queue.readings.items ++ measured ∷ [];
            };
          };
          metrics = seen_metrics;
        };
        is_ok = ground (arith, e, c, room, v.agree);
        sound = record { agree = v.agree; reported = seen-reported };
        closed_now = refl;
        balanced = λ id. omega (
          arith,
          total-measure same notifications id h.metrics notifications 1 j v.reported,
          total-measure same dropped id h.metrics notifications 1 j v.reported,
          of_battery-append id h.taken (h.queue.readings.items ++ measured ∷ []),
          of_battery-append id h.queue.readings.items (measured ∷ []),
          of_battery-append id h.taken h.queue.readings.items,
          ap (λ b. is_late b (parses parse n.bytes) (text_eq j id)) c,
        );
      }

    pub notified-Moved : Notified
    notified-Moved = elim (Option-cases (parse n.bytes)) [
      | inl e ↦ unparsed-Moved e
      | inr (d, e) ↦ elim (Bool-cases h.queue.closed) [
        | inl c ↦ late-Moved d e c
        | inr c ↦
            elim (Bool-cases (ltb (length h.queue.readings.items) h.queue.readings.capacity)) [
              | inl room ↦ stored-Moved d e c room
              | inr full ↦ full-Moved d e c full
            ]
      ]
    ]

  module _ (h : History Data) (v : IsSound h) where
    took-Moved :
        (r : Reading Data) (ch : Channel (Reading Data))
        → receive h.queue.readings ≡ some (r, ch)
        → h.queue.readings.items ≡ r ∷ ch.items
        → ch.closed ≡ h.queue.readings.closed
        → Moved h (step parse h received) h.queue.closed (λ id. 0)
    unfolding step
    took-Moved r ch e items closed = record {
      after = took h (some (r, ch));
      is_ok = ap (λ o. ok (took h o)) e;
      sound = record { agree = closed ∙ v.agree; reported = v.reported };
      closed_now = refl;
      balanced = λ id. omega (
        arith,
        ap (of_battery id)
            (ap (λ l. h.taken ++ l) items ∙ sym (append_assoc h.taken (r ∷ []) ch.items)),
      );
    }

    waiting-Moved :
        receive h.queue.readings ≡ none → Moved h (step parse h received) h.queue.closed (λ id. 0)
    unfolding step
    waiting-Moved e = record {
      after = h;
      is_ok = ap (λ o. ok (took h o)) e;
      sound = v;
      closed_now = refl;
      balanced = λ id. omega arith;
    }

    pub received-Moved : Moved h (step parse h received) h.queue.closed (λ id. 0)
    received-Moved =
        elim (receive-cases h.queue.readings.capacity h.queue.readings.items
          h.queue.readings.closed) [
            | inl e ↦ waiting-Moved e
            | inr (r, ch, e, items, closed) ↦ took-Moved r ch e items closed
          ]

    pub ended-Moved : h.queue.closed ≡ false → Moved h (step parse h ended) true (λ id. 0)
    unfolding step close_readings close
    ended-Moved c = record {
      after = record h {
        queue = record { readings = record (h.queue.readings) { closed = true }; closed = true };
      };
      is_ok = ground (arith, v.agree, c);
      sound = record { agree = refl; reported = v.reported };
      closed_now = refl;
      balanced = λ id. omega arith;
    }
