-- ===== src/EventSocket/Shutdown/Room.antt =====
-- eventsocket/server.go: how many clients a write may fail on.
use tcp_info.Base.{
  ℕ, ◌≤◌, ◌≡◌, refl, inl, inr, Bool, Bool-cases, ◌==◌, List, [], ◌∷◌, length, arith,
}
use tcp_info.Bytes.{Bytes}
use tcp_info.EventSocket.Goroutines.{without, write_lines, failing}
use tcp_info.EventSocket.Shutdown.{room, notifier_left}
use tcp_info.EventSocket.{
  Client, Serving, fresh, listened, looping, accepting, adding, returning, served, Notifier, unborn,
  spawned, testing, receiving, holding, stopping, stopped,
}

pub without-length : (conn : ℕ) (cs : List Client) → length (without conn cs) ≤ length cs
without-length conn [] = omega arith
without-length conn (c ∷ cs) = elim (Bool-cases (c.conn == conn)) [
  | inl same ↦ rw same (omega (arith, without-length conn cs))
  | inr other ↦ rw other (omega (arith, without-length conn cs))
]

pub write_lines-length :
    (fails : ℕ → Bool) (text : Bytes) (cs : List Client)
    → length (write_lines fails text cs) ≡ length cs
write_lines-length fails text [] = refl
write_lines-length fails text (c ∷ cs) = omega (arith, write_lines-length fails text cs)

pub failing-length : (fails : ℕ → Bool) (cs : List Client) → length (failing fails cs) ≤ length cs
failing-length fails [] = omega arith
failing-length fails (c ∷ cs) = elim (Bool-cases (fails c.conn)) [
  | inl bad ↦ rw bad (omega (arith, failing-length fails cs))
  | inr good ↦ rw good (omega (arith, failing-length fails cs))
]

pub room-length :
    (at : Serving) (cs ds : List Client) → length cs ≤ length ds → room at cs ≤ room at ds
room-length fresh cs ds h = h
room-length listened cs ds h = h
room-length looping cs ds h = h
room-length accepting cs ds h = omega (arith, h)
room-length (adding c) cs ds h = omega (arith, h)
room-length returning cs ds h = h
room-length served cs ds h = h

pub length-room : (at : Serving) (cs : List Client) → length cs ≤ room at cs
length-room at cs = ground arith

pub notifier_left_mono : (n : Notifier) (a b : ℕ) → a ≤ b → notifier_left a n ≤ notifier_left b n
notifier_left_mono unborn a b h = omega arith
notifier_left_mono spawned a b h = omega arith
notifier_left_mono testing a b h = omega arith
notifier_left_mono receiving a b h = omega (arith, h)
notifier_left_mono (holding e) a b h = omega (arith, h)
notifier_left_mono stopping a b h = omega arith
notifier_left_mono stopped a b h = omega arith
