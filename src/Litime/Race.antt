-- ===== src/Litime/Race.antt =====
-- internal/litime/manager.go: publish and closeReadings as interleaved threads. Any number of
-- Bluetooth callbacks publish while Run closes the queue and the writer receives. The lock closeMu
-- is Go's RWMutex: readers may hold it together, the writer holds it alone. (That a waiting writer
-- keeps new readers out is not used, so the steps here allow more than Go does.)
use litime_timescaledb_inser.Prelude.{
  ℕ, ◌≡◌, Bool, true, false, Option, none, some, Result, ok, err, if◌then◌else◌, ◌==◌,
}
use litime_timescaledb_inser.Channel.{Channel, Panic, make, try_send, close, receive}
pub mod Safety
pub mod Refines
mod Tests

-- Where a publisher stands: outside, behind RLock, behind the test of closed, before RUnlock.
pub data Publisher : Type 0 where
  outside entered sending leaving : Publisher

-- Where closeReadings stands: before Lock, behind it, behind `closed = true`, behind close, behind
-- Unlock.
pub data Closer : Type 0 where
  waiting holding marked closing finished : Closer

pub record Race (A : Type 0) : Type 0 where
  pub publishers : ℕ → Publisher
  pub closer : Closer
  pub readings : Channel A
  pub closed : Bool
  pub panicked : Bool

abbrev pub holds : Closer → Bool
holds holding = true
holds marked = true
holds closing = true
holds _ = false

abbrev pub at : (ℕ → Publisher) → ℕ → Publisher → ℕ → Publisher
at publishers i p j = if j == i then p else publishers j

module _ {A : Type 0} where
  abbrev pub move : Race A → ℕ → Publisher → Race A
  move s i p = record s { publishers = at s.publishers i p }

  unfoldable pub begin : ℕ → Race A
  unfolding make
  begin n = record {
    publishers = λ i. outside;
    closer = waiting;
    readings = make n;
    closed = false;
    panicked = false;
  }

  pub data Step (s : Race A) : Race A → Type 0 where
    rlock : (i : ℕ) → s.publishers i ≡ outside → holds s.closer ≡ false → Step s (move s i entered)
    see_closed : (i : ℕ) → s.publishers i ≡ entered → s.closed ≡ true → Step s (move s i leaving)
    see_open : (i : ℕ) → s.publishers i ≡ entered → s.closed ≡ false → Step s (move s i sending)
    send :
        (i : ℕ) (a : A) (ch : Channel A)
        → s.publishers i ≡ sending
        → try_send s.readings a ≡ ok (some ch)
        → Step s (record (move s i leaving) { readings = ch })
    drop :
        (i : ℕ) (a : A)
        → s.publishers i ≡ sending
        → try_send s.readings a ≡ ok none
        → Step s (move s i leaving)
    send_panics :
        (i : ℕ) (a : A) (e : Panic)
        → s.publishers i ≡ sending
        → try_send s.readings a ≡ err e
        → Step s (record s { panicked = true })
    runlock : (i : ℕ) → s.publishers i ≡ leaving → Step s (move s i outside)
    lock :
        s.closer ≡ waiting
        → ((i : ℕ) → s.publishers i ≡ outside)
        → Step s (record s { closer = holding })
    mark : s.closer ≡ holding → Step s (record s { closer = marked; closed = true })
    close_channel :
        (ch : Channel A)
        → s.closer ≡ marked
        → close s.readings ≡ ok ch
        → Step s (record s { closer = closing; readings = ch })
    close_panics :
        (e : Panic)
        → s.closer ≡ marked
        → close s.readings ≡ err e
        → Step s (record s { panicked = true })
    unlock : s.closer ≡ closing → Step s (record s { closer = finished })
    take :
        (a : A) (ch : Channel A)
        → receive s.readings ≡ some (a, ch)
        → Step s (record s { readings = ch })

  pub data Reach (s : Race A) : Race A → Type 0 where
    here : Reach s s
    next : {t u : Race A} → Reach s t → Step t u → Reach s u
