-- ===== src/Channel.antt =====
-- Go's buffered channels, as the program uses them: a send inside a select with a default case,
-- close, and a receive. A send on a closed channel and a second close panic.
use litime_timescaledb_inser.Prelude.{
  ℕ, Bool, true, false, List, [], ◌∷◌, ◌++◌, Option, none, some, Result, ok, err, ltb, length,
  if◌then◌else◌, ◌≡◌, refl, ◌⊎◌, inl, inr,
}

pub data Panic : Type 0 where
  send_on_closed close_of_closed : Panic

pub record Channel {ℓ} (A : Type ℓ) : Type ℓ where
  pub capacity : ℕ
  pub items : List A
  pub closed : Bool

module _ {ℓ} {A : Type ℓ} where
  -- `make(chan A, capacity)`
  unfoldable pub make : ℕ → Channel A
  make n = record { capacity = n; items = []; closed = false }

  -- `select { case ch <- a: … default: … }`, with `none` for the default case.
  unfoldable pub try_send : Channel A → A → Result Panic (Option (Channel A))
  try_send ch a =
      if ch.closed
      then err send_on_closed
      else if ltb (length ch.items) ch.capacity
      then ok (some (record ch { items = ch.items ++ a ∷ [] }))
      else ok none

  unfoldable pub close : Channel A → Result Panic (Channel A)
  close ch = if ch.closed then err close_of_closed else ok (record ch { closed = true })

  -- A receive that finds a value takes the oldest one; `none` stands for waiting, or for the end of
  -- a closed channel.
  unfoldable pub receive : Channel A → Option (A × Channel A)
  receive ch = elim ch.items [ [] ↦ none | a ∷ rest ↦ some (a, record ch { items = rest }) ]

-- What a receive finds.
pub receive-cases :
    {A : Type 0} (capacity : ℕ) (items : List A) (closed : Bool)
    → let ch : Channel A = record { capacity = capacity; items = items; closed = closed } in
      (receive ch ≡ none)
      ⊎ ((a : A) × (rest : Channel A) × (receive ch ≡ some (a, rest))
          × (items ≡ a ∷ rest.items)
          × (rest.closed ≡ closed))
unfolding receive
receive-cases capacity [] closed = inl refl
receive-cases capacity (a ∷ rest) closed = inr (a, _, refl, refl, refl)
