-- ===== src/Saver/Queue/Neat.antt =====
-- saver/saver.go: the writers that are open, against the tasks on the channels.
use tcp_info.Base.{
  ℕ, suc, ◌<◌, ◌≤◌, ◌≡◌, ◌≢◌, refl, sym, ap, ◌∙◌, false, ◌==◌, ◌⊎◌, inl, inr, List, [], ◌∷◌, ◌++◌,
  Option, none, some, arith, length, ℕ_discrete,
}
use tcp_info.Netlink.{ArchivalRecord, Metadata}
use tcp_info.Saver.Queue.Tidy.{
  AllTidy, AllTidy-send_on, closed, closed-send_on, closed_mono, closed_close, IsOwned, AllOwned,
  AllOwned-mono, AllOwned-snoc,
}
use tcp_info.Saver.Queue.{send_on, close_task, message_task}
use tcp_info.Saver.{Writer, Task}

-- The channels, the next serial number, and the writer that each cookie has open: no writer is used
-- behind its end, none that is open or still to come has been closed, and each is open for one
-- cookie at most, and each that was opened is closed or open.
pub record Neat (chans : List (List Task)) (tick : ℕ) (open_for : ℕ → Option Writer)
    (opened : List (Writer × Metadata)) : Type 0 where
  pub tidy : AllTidy chans
  pub fresh : (s : ℕ) → tick ≤ s → closed s chans ≡ false
  pub held : (k : ℕ) (w : Writer) → open_for k ≡ some w → closed w.serial chans ≡ false
  pub young : (k : ℕ) (w : Writer) → open_for k ≡ some w → w.serial < tick
  pub own :
      (j k : ℕ) (v w : Writer)
      → open_for j ≡ some v
      → open_for k ≡ some w
      → v.serial ≡ w.serial
      → j ≡ k
  pub owned : AllOwned chans open_for opened

module _ {chans : List (List Task)} {tick : ℕ} {f : ℕ → Option Writer}
    {opened : List (Writer × Metadata)} (n : Neat chans tick f opened) where
  -- The clock goes on.
  pub Neat-tick :
      (tick' : ℕ) (g : ℕ → Option Writer)
      → tick ≤ tick'
      → ((k : ℕ) → g k ≡ f k)
      → Neat chans tick' g opened
  Neat-tick tick' g later same = record {
    tidy = n.tidy;
    fresh = λ s h. n.fresh s (omega (arith, h));
    held = λ k w is. n.held k w (sym (same k) ∙ is);
    young = λ k w is. omega (arith, n.young k w (sym (same k) ∙ is));
    own = λ j k v w a b. n.own j k v w (sym (same j) ∙ a) (sym (same k) ∙ b);
    owned =
        AllOwned-mono chans chans f g opened
          (λ w o. elim o [ inl shut ↦ inl shut | inr (k, is) ↦ inr (k, same k ∙ is) ]) n.owned;
  }

  -- A message for the writer that a cookie has open.
  pub Neat-message :
      (q k : ℕ) (w : Writer) (msg : ArchivalRecord)
      → f k ≡ some w
      → Neat (send_on q (message_task msg (some w)) chans) tick f opened
  Neat-message q k w msg is = record {
    tidy =
        AllTidy-send_on q (message_task msg (some w)) chans
          (λ s used. let same : w.serial ≡ s = ground arith in rw (sym same) (n.held k w is))
          n.tidy;
    fresh = λ s h. closed-send_on s q (message_task msg (some w)) chans refl ∙ n.fresh s h;
    held = λ j v a. closed-send_on v.serial q (message_task msg (some w)) chans refl ∙ n.held j v a;
    young = n.young;
    own = n.own;
    owned =
        AllOwned-mono chans (send_on q (message_task msg (some w)) chans) f f opened
          (λ v o. elim o [
            | inl shut ↦ inl (closed_mono v.serial q (message_task msg (some w)) chans shut)
            | inr has ↦ inr has
          ])
          n.owned;
  }

  -- The writer of a cookie is closed.
  pub Neat-close :
      (q k : ℕ) (w : Writer) (tick' : ℕ) (g : ℕ → Option Writer)
      → f k ≡ some w
      → tick ≤ tick'
      → g k ≡ none
      → ((j : ℕ) → j ≢ k → g j ≡ f j)
      → q < length chans
      → Neat (send_on q (close_task w) chans) tick' g opened
  Neat-close q k w tick' g is later gone others reaches = record {
    tidy =
        AllTidy-send_on q (close_task w) chans
          (λ s used. let same : w.serial ≡ s = ground arith in rw (sym same) (n.held k w is))
          n.tidy;
    fresh = λ s h.
        closed-send_on s q (close_task w) chans (ground (arith, h, later, n.young k w is))
        ∙ n.fresh s (omega (arith, h, later));
    held = λ j v a.
        let b = kept j v a in
        closed-send_on v.serial q (close_task w) chans (other_serial j v a) ∙ n.held j v b;
    young = λ j v a. omega (arith, n.young j v (kept j v a));
    own = λ i j u v a b. n.own i j u v (kept i u a) (kept j v b);
    owned = AllOwned-mono chans (send_on q (close_task w) chans) f g opened still n.owned;
  }
    where
      still : (v : Writer) → IsOwned chans f v → IsOwned (send_on q (close_task w) chans) g v
      still v (inl shut) = inl (closed_mono v.serial q (close_task w) chans shut)
      still v (inr (j, has)) = elim (ℕ_discrete j k) [
        | yes at ↦
            let same : v.serial ≡ w.serial = ground (arith, has, is, ap f at) in
            inl (rw same (closed_close q w chans reaches))
        | no differs ↦ inr (j, others j differs ∙ has)
      ]

      other : (j : ℕ) (v : Writer) → g j ≡ some v → j ≢ k
      other j v a = λ same. ground (arith, a, gone, ap g same)

      kept : (j : ℕ) (v : Writer) → g j ≡ some v → f j ≡ some v
      kept j v a = sym (others j (other j v a)) ∙ a

      other_serial : (j : ℕ) (v : Writer) → g j ≡ some v → (w.serial == v.serial) ≡ false
      other_serial j v a = elim (ℕ_discrete w.serial v.serial) [
        | yes same ↦ absurd (other j v a (sym (n.own k j w v is (kept j v a) same)))
        | no differs ↦ ground (arith, differs)
      ]

  -- A new writer is opened for a cookie.
  pub Neat-open :
      (k : ℕ) (w : Writer) (header : Metadata) (g : ℕ → Option Writer)
      → f k ≡ none
      → w.serial ≡ tick
      → g k ≡ some w
      → ((j : ℕ) → j ≢ k → g j ≡ f j)
      → Neat chans (suc tick) g (opened ++ (w, header) ∷ [])
  Neat-open k w header g free now has others = record {
    tidy = n.tidy;
    fresh = λ s h. n.fresh s (omega (arith, h));
    held = λ j v a. elim (origin j v a) [
      | inl (_, new) ↦ n.fresh v.serial (omega (arith, new))
      | inr old ↦ n.held j v old
    ];
    young = λ j v a. elim (origin j v a) [
      | inl (_, new) ↦ omega (arith, new)
      | inr old ↦ omega (arith, n.young j v old)
    ];
    own = λ i j u v a b same. elim (origin i u a) [
      | inl (at, new) ↦ elim (origin j v b) [
        | inl (at', _) ↦ at ∙ sym at'
        | inr old ↦ absurd (omega (arith, n.young j v old, new, same))
      ]
      | inr old ↦ elim (origin j v b) [
        | inl (_, new) ↦ absurd (omega (arith, n.young i u old, new, same))
        | inr old' ↦ n.own i j u v old old' same
      ]
    ];
    owned =
        AllOwned-snoc chans g opened w header
          (AllOwned-mono chans chans f g opened
            (λ v o. elim o [
              | inl shut ↦ inl shut
              | inr (j, is) ↦ inr (j, others j (λ at. ground (arith, free, is, ap f at)) ∙ is)
            ])
            n.owned)
          (inr (k, has));
  }
    where
      origin : (j : ℕ) (v : Writer) → g j ≡ some v → ((j ≡ k) × (v.serial ≡ tick)) ⊎ (f j ≡ some v)
      origin j v a = elim (ℕ_discrete j k) [
        | yes at ↦ inl (at, ground (arith, a, has, now, ap g at))
        | no differs ↦ inr (sym (others j differs) ∙ a)
      ]
