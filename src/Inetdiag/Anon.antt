-- ===== src/Inetdiag/Anon.antt =====
-- inetdiag/structs.go `Anonymize`, which writes into the raw message in place.
--
-- The anonymizer (github.com/m-lab/go/anonymize) is a parameter: the bytes of an address that it
-- leaves in the slice it is given.
use tcp_info.Base.{
  ◌≢◌, ◌⊎◌, ◌<◌, dec_lt, ℕ_discrete, idm_parse_failed, ℕ, ◌≤◌, ap, drop, ◌≡◌, refl, ◌∙◌, arith,
  Result, ok, err, unknown_af, ◌>>=◌, ◌==◌, if◌then◌else◌, inl, inr, length, length-take, take,
}
use tcp_info.Bytes.Laws.{take-take}
use tcp_info.Bytes.Write.{
  overwrite, write, length-write, field-write_before, field-write_after, field-write_self,
}
use tcp_info.Bytes.{Bytes, field}
use tcp_info.Inetdiag.Layout.{parse_long, parse_short}
use tcp_info.Inetdiag.{InetDiagMsg, view, parse}

abbrev pub af_inet6 : ℕ
af_inet6 = 0x0a

abbrev pub af_inet : ℕ
af_inet = 0x02

-- Both calls of `anon.IP`: on the first `k` bytes of the source (offset 8), then of the destination
-- (offset 24), each read when its call is made.
abbrev pub hide_both : (Bytes → Bytes) → ℕ → Bytes → Bytes
hide_both anon k raw =
    let raw1 = write 8 (anon (field 8 k raw)) raw in write 24 (anon (field 24 k raw1)) raw1

-- `RawInetDiagMsg.Anonymize`: the bytes after a call that succeeds. An error leaves them alone.
unfoldable pub anonymize : (Bytes → Bytes) → Bytes → Result Bytes
anonymize anon raw = do
  msg ← parse raw
  if msg.family == af_inet6
      then ok (hide_both anon 16 raw)
      else if msg.family == af_inet
      then ok (hide_both anon 4 raw)
      else err unknown_af

-- What is meant to happen to the struct: both addresses, 16 bytes or the first 4 of them, and
-- nothing else.
abbrev pub address_len : ℕ → ℕ
address_len family = if family == af_inet6 then 16 else 4

abbrev pub hide_address : (Bytes → Bytes) → ℕ → Bytes → Bytes
hide_address anon family a = overwrite (anon (take (address_len family) a)) a

unfoldable pub hide : (Bytes → Bytes) → InetDiagMsg → InetDiagMsg
hide anon m = record m {
  id = record (m.id) {
    src = hide_address anon m.family m.id.src;
    dst = hide_address anon m.family m.id.dst;
  };
}

view-write_src :
    (s raw : Bytes)
    → length s ≤ 16
    → view (write 8 s raw)
      ≡ record (view raw) { id = record ((view raw).id) { src = overwrite s (view raw).id.src } }
unfolding view
view-write_src s raw h = rw (
  field-write_before 0 1 8 s raw (omega arith),
  field-write_before 1 1 8 s raw (omega arith),
  field-write_before 2 1 8 s raw (omega arith),
  field-write_before 3 1 8 s raw (omega arith),
  field-write_before 4 2 8 s raw (omega arith),
  field-write_before 6 2 8 s raw (omega arith),
  field-write_self 8 16 s raw,
  field-write_after 24 16 8 s raw (omega arith),
  field-write_after 40 4 8 s raw (omega arith),
  field-write_after 44 8 8 s raw (omega arith),
  field-write_after 52 4 8 s raw (omega arith),
  field-write_after 56 4 8 s raw (omega arith),
  field-write_after 60 4 8 s raw (omega arith),
  field-write_after 64 4 8 s raw (omega arith),
  field-write_after 68 4 8 s raw (omega arith),
)

view-write_dst :
    (d raw : Bytes)
    → length d ≤ 16
    → view (write 24 d raw)
      ≡ record (view raw) { id = record ((view raw).id) { dst = overwrite d (view raw).id.dst } }
unfolding view
view-write_dst d raw h = rw (
  field-write_before 0 1 24 d raw (omega arith),
  field-write_before 1 1 24 d raw (omega arith),
  field-write_before 2 1 24 d raw (omega arith),
  field-write_before 3 1 24 d raw (omega arith),
  field-write_before 4 2 24 d raw (omega arith),
  field-write_before 6 2 24 d raw (omega arith),
  field-write_before 8 16 24 d raw (omega arith),
  field-write_self 24 16 d raw,
  field-write_after 40 4 24 d raw (omega arith),
  field-write_after 44 8 24 d raw (omega arith),
  field-write_after 52 4 24 d raw (omega arith),
  field-write_after 56 4 24 d raw (omega arith),
  field-write_after 60 4 24 d raw (omega arith),
  field-write_after 64 4 24 d raw (omega arith),
  field-write_after 68 4 24 d raw (omega arith),
)

length-field-le : (off n : ℕ) (b : Bytes) → length (field off n b) ≤ n
length-field-le off n b = omega (arith, length-take n (drop off b))

-- The anonymizer works in place: the slice that it is given keeps its length.
module _ (anon : Bytes → Bytes) (keeps : (a : Bytes) → length (anon a) ≡ length a) where
  short : (off k : ℕ) (raw : Bytes) → k ≤ 16 → length (anon (field off k raw)) ≤ 16
  short off k raw h = omega (arith, keeps (field off k raw), length-field-le off k raw)

  -- Both writes land in their own field, the second call reading what the first has left alone.
  view-hide_both :
      (k : ℕ) (raw : Bytes)
      → k ≤ 16
      → view (hide_both anon k raw) ≡ record (view raw) {
        id = record ((view raw).id) {
          src = overwrite (anon (field 8 k raw)) (view raw).id.src;
          dst = overwrite (anon (field 24 k raw)) (view raw).id.dst;
        };
      }
  view-hide_both k raw h =
      let s = anon (field 8 k raw) in
      let fits : length s ≤ 16 = short 8 k raw h in
      let kept : field 24 k (write 8 s raw) ≡ field 24 k raw =
        field-write_after 24 k 8 s raw (omega arith) in
      rw kept (
        view-write_dst (anon (field 24 k raw)) (write 8 s raw) (short 24 k raw h)
        ∙ rw (view-write_src s raw fits))

  hide_both-hide :
      (k : ℕ) (raw : Bytes)
      → k ≤ 16
      → address_len (view raw).family ≡ k
      → view (hide_both anon k raw) ≡ hide anon (view raw)
  unfolding hide
  hide_both-hide k raw h e =
      view-hide_both k raw h
      ∙ rw (e, ← take-take k 16 (drop 8 raw) h, ← take-take k 16 (drop 24 raw) h)
          (unfold view in refl)

  hide_both-parse :
      (k : ℕ) (raw : Bytes)
      → k ≤ 16
      → 72 ≤ length raw
      → address_len (view raw).family ≡ k
      → (length (hide_both anon k raw) ≡ length raw)
        × (parse (hide_both anon k raw) ≡ ok (hide anon (view raw)))
  hide_both-parse k raw h long e =
      let same : length (hide_both anon k raw) ≡ length raw =
        length-write 24 _ _ ∙ length-write 8 _ raw in
      (same, parse_long _ (omega arith) ∙ ap ok (hide_both-hide k raw h e))

  abbrev pub Hidden : Bytes → Type 0
  Hidden raw =
      (raw' : Bytes) × (anonymize anon raw ≡ ok raw')
      × (length raw' ≡ length raw)
      × (parse raw' ≡ ok (hide anon (view raw)))

  anonymize-inet6 : (raw : Bytes) → 72 ≤ length raw → (view raw).family ≡ af_inet6 → Hidden raw
  unfolding anonymize
  anonymize-inet6 raw long e =
      let done = hide_both-parse 16 raw (omega arith) long (rw e) in
      (hide_both anon 16 raw, rw (parse_long raw long, e), done.0, done.1)

  anonymize-inet : (raw : Bytes) → 72 ≤ length raw → (view raw).family ≡ af_inet → Hidden raw
  unfolding anonymize
  anonymize-inet raw long e =
      let done = hide_both-parse 4 raw (omega arith) long (rw e) in
      (hide_both anon 4 raw, rw (parse_long raw long, e), done.0, done.1)

  anonymize-unknown :
      (raw : Bytes)
      → 72 ≤ length raw
      → (view raw).family ≢ af_inet6
      → (view raw).family ≢ af_inet
      → anonymize anon raw ≡ err unknown_af
  unfolding anonymize
  anonymize-unknown raw long n6 n4 = rw (parse_long raw long) (ground arith)

  -- On a message of 72 bytes or more, of a known address family, `Anonymize` succeeds; then `Parse`
  -- reads the same message but for the source and destination addresses, of which the anonymizer
  -- has rewritten all 16 bytes (AF_INET6) or the first 4 (AF_INET). On another family, or on fewer
  -- bytes, it reports the error that belongs to it.
  pub anonymize-hide :
      (raw : Bytes)
      → ((72 ≤ length raw)
          × (((view raw).family ≡ af_inet6) ⊎ ((view raw).family ≡ af_inet))
          × Hidden raw)
        ⊎ ((72 ≤ length raw)
            × ((view raw).family ≢ af_inet6)
            × ((view raw).family ≢ af_inet)
            × (anonymize anon raw ≡ err unknown_af))
        ⊎ ((length raw < 72) × (anonymize anon raw ≡ err idm_parse_failed))
  unfolding anonymize
  anonymize-hide raw = elim (dec_lt (length raw) 72) [
    | yes less ↦ inr (inr (less, rw (parse_short raw less)))
    | no more ↦
        let long : 72 ≤ length raw = omega arith in
        elim (ℕ_discrete (view raw).family af_inet6) [
          | yes e ↦ inl (long, inl e, anonymize-inet6 raw long e)
          | no n6 ↦ elim (ℕ_discrete (view raw).family af_inet) [
            | yes e ↦ inl (long, inr e, anonymize-inet raw long e)
            | no n4 ↦ inr (inl (long, n6, n4, anonymize-unknown raw long n6 n4))
          ]
        ]
  ]
