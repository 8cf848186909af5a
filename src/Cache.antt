-- ===== src/Cache.antt =====
-- cache/cache.go. The maps are association lists with the cookie for a key. The histogram of the
-- cache's size is not part of the state.
pub mod Rounds
pub mod Keys
use tcp_info.Base.Assoc.{lookup, insert, delete}
use tcp_info.Base.{ℕ, suc, List, [], ◌∷◌, Option, none, some, Result, ok, ◌>>=◌}
use tcp_info.Inetdiag.SockId.{cookie_of}
use tcp_info.Inetdiag.{parse}
use tcp_info.Netlink.{ArchivalRecord, idm_bytes}

abbrev pub Records : Type 0
Records = List (ℕ × ArchivalRecord)

-- `Cache`.
pub record Cache : Type 0 where
  pub current : Records
  pub previous : Records
  pub cycles : ℕ

-- `NewCache`.
abbrev pub new_cache : Cache
new_cache = record { current = []; previous = []; cycles = 0 }

-- `delete(c.previous, cookie)`, if the cookie is there.
unfoldable pub drop_evicted : ℕ → Option ArchivalRecord → Records → Records
drop_evicted cookie none previous = previous
drop_evicted cookie (some evicted) previous = delete cookie previous

-- `Update`, behind the parse.
unfoldable pub update_at : ℕ → ArchivalRecord → Cache → Cache × Option ArchivalRecord
update_at cookie msg c =
    let evicted = lookup cookie c.previous in
    (
      record c {
        current = insert cookie msg c.current;
        previous = drop_evicted cookie evicted c.previous;
      },
      evicted,
    )

-- `Update`: the cache after it and the evicted record, or the error of the parse, with the cache as
-- it was.
unfoldable pub update : Cache → ArchivalRecord → Result (Cache × Option ArchivalRecord)
update c msg = do idm ← parse (idm_bytes msg); ok (update_at (cookie_of idm.id) msg c)

-- `EndCycle`.
unfoldable pub end_cycle : Cache → Cache × Records
end_cycle c = (record { current = []; previous = c.current; cycles = suc c.cycles }, c.previous)

-- `CycleCount`.
abbrev pub cycle_count : Cache → ℕ
cycle_count c = c.cycles
