-- ===== src/Cache/Keys.antt =====
-- The cache's invariant, and that a marshaller which anonymizes a cached record does not disturb it.
use tcp_info.Base.Assoc.{lookup}
use tcp_info.Base.{
  ℕ, ◌≡◌, refl, subst, Option, ◌⊎◌, inl, inr, List, [], ◌∷◌, none, some, arith, ok, true, length,
}
use tcp_info.Bytes.{Bytes}
use tcp_info.Cache.Rounds.{key, has_key, put, put_all, lookup-put_current, lookup-put_previous}
use tcp_info.Cache.{Cache, update, end_cycle, new_cache}
use tcp_info.Inetdiag.Anon.{hide}
use tcp_info.Netlink.Compare.Anon.{anonymize_record, anonymize_record-cases}
use tcp_info.Inetdiag.SockId.{cookie_of}
use tcp_info.Inetdiag.{InetDiagMsg, parse}
use tcp_info.Netlink.{ArchivalRecord, idm_bytes}

-- Each map holds a record under its own cookie, and no cookie is in both maps: the record of the
-- round before goes out when that of this round comes in.
pub record IsValid (c : Cache) : Type 0 where
  pub current_keys : (k : ℕ) (r : ArchivalRecord) → lookup k c.current ≡ some r → key r ≡ some k
  pub previous_keys : (k : ℕ) (r : ArchivalRecord) → lookup k c.previous ≡ some r → key r ≡ some k
  pub apart : (k : ℕ) → (lookup k c.current ≡ none) ⊎ (lookup k c.previous ≡ none)

has_key-key : (k : ℕ) (r : ArchivalRecord) → has_key k r ≡ true → key r ≡ some k
has_key-key k r h = ground arith

pub put-IsValid : (c : Cache) (r : ArchivalRecord) → IsValid c → IsValid (put c r)
put-IsValid c r v = record {
  current_keys =
      λ k s e. ground (arith, lookup-put_current k c r, has_key-key k r, v.current_keys k s);
  previous_keys = λ k s e. ground (arith, lookup-put_previous k c r, v.previous_keys k s);
  apart = λ k. ground (arith, lookup-put_current k c r, lookup-put_previous k c r, v.apart k);
}

pub put_all-IsValid : (c : Cache) (rs : List ArchivalRecord) → IsValid c → IsValid (put_all c rs)
unfolding put_all
put_all-IsValid c [] v = v
put_all-IsValid c (r ∷ rs) v = put_all-IsValid (put c r) rs (put-IsValid c r v)

pub end_cycle-IsValid : (c : Cache) → IsValid c → IsValid (end_cycle c).0
unfolding end_cycle lookup
end_cycle-IsValid c v = record {
  current_keys = λ k r e. absurd (cc e);
  previous_keys = v.current_keys;
  apart = λ k. inl refl;
}

pub new_cache-IsValid : IsValid new_cache
unfolding lookup
new_cache-IsValid = record {
  current_keys = λ k r e. absurd (cc e);
  previous_keys = λ k r e. absurd (cc e);
  apart = λ k. inl refl;
}

-- Every cache that calls of `Update` and `EndCycle`, in any order, lead to from a new one.
pub data Reachable : Cache → Type 0 where
  fresh : Reachable new_cache
  updated :
      {c : Cache} (r : ArchivalRecord) (out : Cache × Option ArchivalRecord)
      → Reachable c
      → update c r ≡ ok out
      → Reachable out.0
  cycled : {c : Cache} → Reachable c → Reachable (end_cycle c).0

put-update :
    (c : Cache) (r : ArchivalRecord) (out : Cache × Option ArchivalRecord)
    → update c r ≡ ok out
    → put c r ≡ out.0
unfolding put
put-update c r out is = rw (put, is) refl

-- In every cache that calls of `Update` and `EndCycle` lead to, in the midst of a round too, each map
-- holds a record under its own cookie, and no cookie is in both maps.
pub Reachable-IsValid : {c : Cache} → Reachable c → IsValid c
Reachable-IsValid fresh = new_cache-IsValid
Reachable-IsValid (updated {c} r out h is) =
    subst IsValid (put-update c r out is) (put-IsValid c r (Reachable-IsValid h))
Reachable-IsValid (cycled {c} h) = end_cycle-IsValid c (Reachable-IsValid h)

pub key-parse :
    (r : ArchivalRecord) (m : InetDiagMsg)
    → parse (idm_bytes r) ≡ ok m
    → key r ≡ some (cookie_of m.id)
unfolding key
key-parse r m h = rw (h, key)

-- Anonymizing a record in place leaves its key alone, so that the maps stay keyed by it.
pub key-anonymize_record :
    (anon : Bytes → Bytes) (keeps : (a : Bytes) → length (anon a) ≡ length a) (r : ArchivalRecord)
    → key (anonymize_record anon r) ≡ key r
key-anonymize_record anon keeps r = elim (anonymize_record-cases anon keeps r) [
  | inl e ↦ rw e
  | inr (m, raw', parsed, hidden, e) ↦
      rw (e, key-parse r m parsed, key-parse (record r { raw_idm = some raw' }) _ hidden)
        (unfold hide in refl)
]
