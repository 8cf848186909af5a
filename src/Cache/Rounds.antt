-- ===== src/Cache/Rounds.antt =====
-- What a round of updates does, and what is left over at its end.
use tcp_info.Base.Assoc.{lookup, lookup-insert, lookup-delete}
use tcp_info.Base.{
  ℕ, ◌≡◌, refl, ◌∙◌, Bool, false, ◌||◌, ap, inl, inr, Option-cases, ==_iff, List, [], ◌∷◌, Option,
  none, some, arith, ok, err, panic, ◌==◌, if◌then◌else◌,
}
use tcp_info.Cache.{Cache, Records, drop_evicted, update_at, update, end_cycle}
use tcp_info.Inetdiag.SockId.{cookie_of}
use tcp_info.Inetdiag.{parse}
use tcp_info.Netlink.{ArchivalRecord, idm_bytes}

-- The key of a record: the cookie of its message, if that parses.
unfoldable pub key : ArchivalRecord → Option ℕ
key r = elim (parse (idm_bytes r)) [ ok m ↦ some (cookie_of m.id) | err e ↦ none | panic ↦ none ]

-- The cache after a record is handed in; a record that does not parse leaves it alone.
unfoldable pub put : Cache → ArchivalRecord → Cache
put c msg = elim (update c msg) [ ok (c', evicted) ↦ c' | err e ↦ c | panic ↦ c ]

unfoldable pub put_all : Cache → List ArchivalRecord → Cache
put_all c [] = c
put_all c (msg ∷ msgs) = put_all (put c msg) msgs

abbrev pub has_key : ℕ → ArchivalRecord → Bool
has_key k r = elim (key r) [ none ↦ false | some j ↦ j == k ]

-- Some record of the batch has the key; the last one that does, or `before`.
unfoldable pub seen : ℕ → List ArchivalRecord → Bool
seen k [] = false
seen k (r ∷ rs) = has_key k r || seen k rs

unfoldable pub latest : ℕ → Option ArchivalRecord → List ArchivalRecord → Option ArchivalRecord
latest k before [] = before
latest k before (r ∷ rs) = latest k (if has_key k r then some r else before) rs

lookup-drop_evicted :
    (k j : ℕ) (previous : Records)
    → lookup j (drop_evicted k (lookup k previous) previous)
      ≡ (if k == j then none else lookup j previous)
unfolding drop_evicted
lookup-drop_evicted k j previous = ground (arith, lookup-delete k j previous)

put-key :
    (c : Cache) (r : ArchivalRecord)
    → put c r ≡ (elim (key r) [ none ↦ c | some k ↦ (update_at k r c).0 ])
unfolding put update key
put-key c r = ground arith

module _ (k : ℕ) (c : Cache) (r : ArchivalRecord) where
  pub lookup-put_current :
      lookup k (put c r).current ≡ (if has_key k r then some r else lookup k c.current)
  unfolding update_at
  lookup-put_current = rw put-key (elim (Option-cases (key r)) [
    | inl e ↦ rw (e, has_key)
    | inr (j, e) ↦ rw (e, has_key) (lookup-insert j k r c.current)
  ])

  pub lookup-put_previous :
      lookup k (put c r).previous ≡ (if has_key k r then none else lookup k c.previous)
  unfolding update_at
  lookup-put_previous = rw put-key (elim (Option-cases (key r)) [
    | inl e ↦ rw (e, has_key)
    | inr (j, e) ↦ rw (e, has_key) (lookup-drop_evicted j k c.previous)
  ])

put_all-current :
    (k : ℕ) (c : Cache) (rs : List ArchivalRecord)
    → lookup k (put_all c rs).current ≡ latest k (lookup k c.current) rs
unfolding put_all latest
put_all-current k c [] = refl
put_all-current k c (r ∷ rs) = put_all-current k (put c r) rs ∙ rw (lookup-put_current k c r)

put_all-previous :
    (k : ℕ) (c : Cache) (rs : List ArchivalRecord)
    → lookup k (put_all c rs).previous ≡ (if seen k rs then none else lookup k c.previous)
unfolding put_all seen
put_all-previous k c [] = refl
put_all-previous k c (r ∷ rs) =
    put_all-previous k (put c r) rs ∙ rw (lookup-put_previous k c r) (ground arith)

-- A whole round: the batch, then `EndCycle`.
unfoldable pub round : Cache → List ArchivalRecord → Cache × Records
round c rs = end_cycle (put_all c rs)

-- `EndCycle` returns exactly the records of the round before that no record of this round replaces,
-- and the cache that goes into the next round holds the last record of each key of this one.
pub round_lem :
    (k : ℕ) (c : Cache) (rs : List ArchivalRecord)
    → c.current ≡ []
    → (lookup k (round c rs).1 ≡ (if seen k rs then none else lookup k c.previous))
      × (lookup k (round c rs).0.previous ≡ latest k none rs)
      × ((round c rs).0.current ≡ [])
unfolding round end_cycle
round_lem k c rs h = (
  put_all-previous k c rs,
  put_all-current k c rs ∙ ap (λ o. latest k o rs) (rw h (unfold lookup in refl)),
  refl,
)

-- Over two rounds from any cache between rounds: what the second leaves over is, for each key, the
-- last record of the first round if the second has none of that key, and nothing otherwise.
pub round_residual :
    (k : ℕ) (c : Cache) (first second : List ArchivalRecord)
    → c.current ≡ []
    → lookup k (round (round c first).0 second).1
      ≡ (if seen k second then none else latest k none first)
round_residual k c first second h =
    let one = round_lem k c first h in (round_lem k (round c first).0 second one.2).0 ∙ rw one.1

pub update-key :
    (c : Cache) (r : ArchivalRecord) (k : ℕ) → key r ≡ some k → update c r ≡ ok (update_at k r c)
unfolding update key
update-key c r k h = ground arith

-- What `Update` returns after a part of a round: the record of the round before, unless the round has
-- already replaced it. A second record of a key within one round finds nothing to evict.
update-evicts :
    (k : ℕ) (c : Cache) (rs : List ArchivalRecord) (r : ArchivalRecord)
    → key r ≡ some k
    → (c' : Cache) × (update (put_all c rs) r
        ≡ ok (c', if seen k rs then none else lookup k c.previous))
      × (lookup k c'.current ≡ some r)
unfolding update_at
update-evicts k c rs r h =
    let c' = (update_at k r (put_all c rs)).0 in
    (
      c',
      update-key (put_all c rs) r k h ∙ ap (λ o. ok (c', o)) (put_all-previous k c rs),
      rw lookup-insert (rw ((==_iff k k).1 refl)),
    )
