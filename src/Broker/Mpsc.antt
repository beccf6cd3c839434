-- ===== src/Broker/Mpsc.antt =====
-- `std::sync::mpsc::sync_channel(1)`: channels with room for one message, numbered as they are
-- opened. A send never blocks here, since the code only calls `try_send`.
use sml_mcps.Prelude.{
  ◌≡◌, arith, refl, ℕ, ◌+◌, Bool, true, false, ◌&&◌, not, Option, none, some, ◌==◌, if◌then◌else◌,
  is_some,
}

pub record Channel (A : Type 0) : Type 0 where
  pub slot : Option A
  pub sender_alive : Bool
  pub receiver_alive : Bool

pub record Channels (A : Type 0) : Type 0 where
  pub table : ℕ → Option (Channel A)
  pub opened : ℕ

-- `RecvTimeoutError`, for a wait at whose end nothing has come
pub data Received (A : Type 0) : Type 0 where
  message : A → Received A
  nothing_yet : Received A
  disconnected : Received A

module _ {A : Type 0} where
  abbrev pub no_channels : Channels A
  no_channels = record { table = λ c. none; opened = 0 }

  abbrev update : (ℕ → Option (Channel A)) → ℕ → Channel A → ℕ → Option (Channel A)
  update t c ch d = if c == d then some ch else t d

  unfoldable pub open_channel : Channels A → ℕ × Channels A
  open_channel cs = (
    cs.opened,
    record {
      table =
          update cs.table cs.opened
            (record { slot = none; sender_alive = true; receiver_alive = true });
      opened = cs.opened + 1;
    },
  )

  abbrev change : (Channel A → Channel A) → ℕ → Channels A → Channels A
  change f c cs = elim (cs.table c) [
    | none ↦ cs
    | some ch ↦ record cs { table = update cs.table c (f ch) }
  ]

  abbrev close_sender : Channel A → Channel A
  close_sender ch = record ch { sender_alive = false }

  abbrev close_receiver : Channel A → Channel A
  close_receiver ch = record ch { receiver_alive = false }

  abbrev fill : A → Channel A → Channel A
  fill a ch = if ch.receiver_alive && not (is_some ch.slot) then record ch { slot = some a } else ch

  -- what becomes of the channel when its sender is dropped, if there is one
  unfoldable pub drop_sender : Option ℕ → Channels A → Channels A
  drop_sender none cs = cs
  drop_sender (some c) cs = change close_sender c cs

  unfoldable pub drop_receiver : ℕ → Channels A → Channels A
  drop_receiver c cs = change close_receiver c cs

  -- `let _ = sender.try_send(a)`: a full or disconnected channel drops the message
  unfoldable pub send : ℕ → A → Channels A → Channels A
  send c a cs = change (fill a) c cs

  abbrev taken : ℕ → Channel A → Channels A → Option A → Received A × Channels A
  taken c ch cs (some a) =
      (message a, record cs { table = update cs.table c (record ch { slot = none }) })
  taken c ch cs none = (if ch.sender_alive then nothing_yet else disconnected, cs)

  -- `receiver.recv_timeout(wait)`, at the end of the wait
  unfoldable pub receive : ℕ → Channels A → Received A × Channels A
  receive c cs = elim (cs.table c) [ none ↦ (disconnected, cs) | some ch ↦ taken c ch cs ch.slot ]

  -- A message sent on a channel just opened, whose sender is then dropped, is received once.
  pub receive-send :
      (a : A) (cs : Channels A)
      → ((receive (open_channel cs).0 (
            drop_sender
              (some (open_channel cs).0)
              (send (open_channel cs).0 a (open_channel cs).1))).0
          ≡ message a)
        × ((receive
              (open_channel cs).0
              (receive (open_channel cs).0 (
                drop_sender
                  (some (open_channel cs).0)
                  (send (open_channel cs).0 a (open_channel cs).1))).1).0
            ≡ disconnected)
  unfolding open_channel receive drop_sender send
  receive-send a cs = ground arith

  pub drop_sender-none : (cs : Channels A) → drop_sender none cs ≡ cs
  unfolding drop_sender
  drop_sender-none cs = refl
