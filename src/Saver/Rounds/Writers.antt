-- ===== src/Saver/Rounds/Writers.antt =====
-- The files of `MessageSaverLoop`: no writer is used behind its end.
use tcp_info.Base.{ℕ, suc, ◌≡◌, refl, false, List, [], map, ok, replicate, zero}
use tcp_info.Base.Assoc.{lookup}
use tcp_info.Netlink.{MessageBlock}
use tcp_info.Saver.Queue.Open.{IsNeat, open_for}
use tcp_info.Saver.Queue.Kept.{queue-IsNeat, end_conn-IsNeat}
use tcp_info.Saver.Rounds.Keeps.{Same, message_saver_loop-keeps}
use tcp_info.Saver.Queue.Neat.{Neat-tick}
use tcp_info.Saver.Queue.Tidy.{AllTidy, closed}
use tcp_info.Saver.Queue.{ticked}
use tcp_info.Saver.Rounds.Loop.{AllBlocks}
use tcp_info.Saver.Rounds.{end_all, message_saver_loop}
use tcp_info.Saver.{Os, Connection, Saver, new_saver}

module _ (os : Os) where
  new_saver-IsNeat : (n : ℕ) → IsNeat (new_saver n)
  unfolding lookup
  new_saver-IsNeat n = record {
    tidy = idle n;
    fresh = λ s h. unused s n;
    held = λ k w is. absurd (cc is);
    young = λ k w is. absurd (cc is);
    own = λ j k v w is also same. absurd (cc is);
    owned = tt;
  }
    where
      idle : (n : ℕ) → AllTidy (replicate n [])
      idle zero = tt
      idle (suc n) = (tt, idle n)

      unused : (s n : ℕ) → closed s (replicate n []) ≡ false
      unused s zero = refl
      unused s (suc n) = unused s n

  still-IsNeat : (a b : Saver) → Same a b → IsNeat a → IsNeat b
  still-IsNeat a b s n =
      rw (s.same_chans, s.same_conns, s.same_opened)
        (Neat-tick n b.tick (open_for a.connections) s.later (λ k. refl))

  -- The whole loop, with its close.
  pub message_saver_loop-IsNeat :
      (n : ℕ) (blocks : List MessageBlock)
      → AllBlocks blocks
      → (svr : Saver) × (message_saver_loop os blocks (new_saver (suc n)) ≡ ok svr)
        × IsNeat svr
        × (mid : Saver) × (end_all os
              (os.key_order mid.tick (map (λ (c : ℕ × Connection). c.0) mid.connections))
              (ticked mid)
            ≡ ok svr)
  message_saver_loop-IsNeat n blocks h =
      message_saver_loop-keeps os IsNeat still-IsNeat (queue-IsNeat os)
        (λ cookie a b e. end_conn-IsNeat os cookie a e) n blocks h (new_saver-IsNeat (suc n))

  -- From a new saver with a marshaller at least, over any sequence of blocks as the kernel sends them
  -- and through the close, the loop ends, and on the channel of every marshaller there is no task of
  -- a writer, neither a message nor a second end, behind the task that closes it.
  pub message_saver_loop-AllTidy :
      (n : ℕ) (blocks : List MessageBlock)
      → AllBlocks blocks
      → (svr : Saver) × (message_saver_loop os blocks (new_saver (suc n)) ≡ ok svr)
        × AllTidy svr.marshal_chans
  message_saver_loop-AllTidy n blocks h =
      let (svr, done, neat, _, _) = message_saver_loop-IsNeat n blocks h in (svr, done, neat.tidy)
