-- ===== src/Netlink/Compare/Anon.antt =====
-- The marshaller anonymizes a record in place (saver/saver.go, `runMarshaller`) while the cache still
-- holds it. What the saver later reads of the record is not touched by that.
use tcp_info.Base.{
  ℕ, ◌≡◌, refl, sym, ◌>>=◌, ◌⊎◌, inl, inr, some, arith, Result, ok, err, panic, length,
}
use tcp_info.Bytes.{Bytes}
use tcp_info.Inetdiag.Anon.{anonymize, hide, anonymize-hide}
use tcp_info.Inetdiag.Layout.{parse_long}
use tcp_info.Inetdiag.{InetDiagMsg, parse, view}
use tcp_info.Netlink.Compare.{compare_parsed, parse_or_fail, compare}
use tcp_info.Netlink.{ArchivalRecord, idm_bytes}

-- The record after `task.Message.RawIDM.Anonymize(anon)`.
unfoldable pub anonymize_record : (Bytes → Bytes) → ArchivalRecord → ArchivalRecord
anonymize_record anon r = elim (anonymize anon (idm_bytes r)) [
  | ok raw' ↦ record r { raw_idm = some raw' }
  | err e ↦ r
  | panic ↦ r
]

-- What `Compare` reads of a record: its attributes and, if the message parses, its TCP state.
abbrev pub state_of : ArchivalRecord → Result ℕ
state_of r = do m ← parse_or_fail r; ok m.state

abbrev pub SameReads : ArchivalRecord → ArchivalRecord → Type 0
SameReads r r' = (r.attributes ≡ r'.attributes) × (state_of r ≡ state_of r')

parse_or_fail-ok :
    (r : ArchivalRecord) (m : InetDiagMsg) → parse (idm_bytes r) ≡ ok m → parse_or_fail r ≡ ok m
unfolding parse_or_fail
parse_or_fail-ok r m h = ground arith

compare_parsed-cong :
    (m m' n n' : InetDiagMsg) (pm pm' previous previous' : ArchivalRecord)
    → m.state ≡ n.state
    → m'.state ≡ n'.state
    → pm.attributes ≡ pm'.attributes
    → previous.attributes ≡ previous'.attributes
    → compare_parsed m m' previous pm ≡ compare_parsed n n' previous' pm'
unfolding compare_parsed
compare_parsed-cong m m' n n' pm pm' previous previous' e e' f g = rw (e, e', f, g)

compare_results :
    (x y x' y' : Result InetDiagMsg) (pm pm' previous previous' : ArchivalRecord)
    → (x >>= λ m. ok m.state) ≡ (x' >>= λ m. ok m.state)
    → (y >>= λ m. ok m.state) ≡ (y' >>= λ m. ok m.state)
    → pm.attributes ≡ pm'.attributes
    → previous.attributes ≡ previous'.attributes
    → (x >>= λ m. y >>= λ m'. compare_parsed m m' previous pm)
      ≡ (x' >>= λ m. y' >>= λ m'. compare_parsed m m' previous' pm')
compare_results (ok m) (ok m') (ok n) (ok n') pm pm' previous previous' e f g h =
    compare_parsed-cong m m' n n' pm pm' previous previous' (ground arith) (ground arith) g h
compare_results _ _ _ _ pm pm' previous previous' e f g h = ground arith

compare-cong :
    (pm pm' previous previous' : ArchivalRecord)
    → SameReads pm pm'
    → SameReads previous previous'
    → compare pm (some previous) ≡ compare pm' (some previous')
unfolding compare
compare-cong pm pm' previous previous' e f =
    compare_results _ _ _ _ pm pm' previous previous' f.1 e.1 e.0 f.0

module _ (anon : Bytes → Bytes) (keeps : (a : Bytes) → length (anon a) ≡ length a) where
  -- Either nothing is written, or the message parses to the same one with its addresses hidden.
  pub anonymize_record-cases :
      (r : ArchivalRecord)
      → (anonymize_record anon r ≡ r)
        ⊎ ((m : InetDiagMsg) × (raw' : Bytes) × (parse (idm_bytes r) ≡ ok m)
            × (parse raw' ≡ ok (hide anon m))
            × (anonymize_record anon r ≡ record r { raw_idm = some raw' }))
  unfolding anonymize_record
  anonymize_record-cases r = elim (anonymize-hide anon keeps (idm_bytes r)) [
    | inl (long, known, (raw', done, same, parsed)) ↦ inr (
      view (idm_bytes r),
      raw',
      parse_long (idm_bytes r) long,
      parsed,
      rw (done, anonymize_record),
    )
    | inr (inl (long, n6, n4, failed)) ↦ inl (rw (failed, anonymize_record))
    | inr (inr (less, failed)) ↦ inl (rw (failed, anonymize_record))
  ]

  anonymize_record-SameReads : (r : ArchivalRecord) → SameReads r (anonymize_record anon r)
  anonymize_record-SameReads r = elim (anonymize_record-cases r) [
    | inl e ↦ rw e (refl, refl)
    | inr (m, raw', parsed, hidden, e) ↦ rw e (
      refl,
      rw (parse_or_fail-ok r m parsed, parse_or_fail-ok (record r { raw_idm = some raw' }) _ hidden)
          (unfold hide in refl),
    )
  ]

  -- Whichever of the two records a marshaller has anonymized by the time that they are compared, the
  -- answer is that on the records as they came.
  pub compare-anonymize_record :
      (pm previous : ArchivalRecord)
      → (compare pm (some (anonymize_record anon previous)) ≡ compare pm (some previous))
        × (compare (anonymize_record anon pm) (some previous) ≡ compare pm (some previous))
        × (compare (anonymize_record anon pm) (some (anonymize_record anon previous))
            ≡ compare pm (some previous))
  compare-anonymize_record pm previous =
      let p = anonymize_record-SameReads pm in
      let q = anonymize_record-SameReads previous in
      (
        sym (compare-cong pm pm previous _ (refl, refl) q),
        sym (compare-cong pm _ previous previous p (refl, refl)),
        sym (compare-cong pm _ previous _ p q),
      )
