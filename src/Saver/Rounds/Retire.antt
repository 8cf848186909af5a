-- ===== src/Saver/Rounds/Retire.antt =====
-- The end of a connection, in the accounting.
use tcp_info.Base.{length, ◌≤◌, ℕ, ◌≡◌, arith, ok, Result-cases, inl, inr}
use tcp_info.Saver.Queue.{end_conn}
use tcp_info.Saver.{Os, Saver}

module _ (os : Os) where
  pub end_conn_total :
      (cookie : ℕ) (svr : Saver)
      → 1 ≤ length svr.marshal_chans
      → (svr' : Saver) × (end_conn os cookie svr ≡ ok svr')
  unfolding end_conn
  end_conn_total cookie svr h = elim (Result-cases (end_conn os cookie svr)) [
    | inl done ↦ done
    | inr (inl (e, failed)) ↦ absurd (ground (arith, failed))
    | inr (inr broken) ↦ absurd (ground (arith, broken))
  ]
