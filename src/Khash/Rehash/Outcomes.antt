-- ===== src/Khash/Rehash/Outcomes.antt =====
-- The two ends of a round of the kick-out process: the element is written and the loop is left, or the
-- element that was there is carried on.
use distiller_fs.Prelude.{
  count-more, ℕ, suc, ◌≤◌, ◌<◌, ◌≡◌, ◌≢◌, refl, sym, ap, ◌∙◌, arith, inl, inr, Bool, true, false,
  not, ◌&&◌, Bool-cases, ltb, ◌==◌, if◌then◌else◌, Text, Option, none, some,
}
use distiller_fs.Khash.Flags.{
  is_either, is_either-or, set_isempty_false, set_isdel_true, is_empty-set_isempty_false,
  is_del-set_isempty_false, is_del-set_isdel_true, is_empty-set_isdel_true,
}
use distiller_fs.Khash.Table.{Work, put_at, settle}
use distiller_fs.Khash.Lookup.{try_at-lt}
use distiller_fs.Khash.Rehash.{HeldOld, HeldNew, Held, Has, Moving, Carrying, Gap, olds, news}
use distiller_fs.Khash.Rehash.Settle.{
  i, After, Held-before, Held-kept, key_kept, val_kept, key_here, val_here, was_empty, after-Moving,
  after-news,
}

module _ (n m : ℕ) (m_le : m ≤ 31) (P : Text → ℕ → Type 0) (w : Work) (key : Text) (val : ℕ)
    (c : Carrying n m P w key val) (g : Gap m m_le w.new_flags key) where
  abbrev at : ℕ
  at = i n m m_le P w key val c g

  abbrev moved : Work
  moved = record w {
    new_flags = set_isempty_false w.new_flags at;
    keys = put_at w.keys at key;
    vals = put_at w.vals at val;
  }

  abbrev kicked : Work
  kicked = record moved { flags = set_isdel_true w.flags at }

  -- An old element stands in the bucket.
  abbrev pub stands : Bool
  stands = ltb at n && not (is_either w.flags at)

  new-ne : (a : ℕ) → HeldNew m w a → at ≢ a
  new-ne a new e = cc (was_empty n m m_le P w key val c g, new.1)

  -- The element that was carried is in the bucket then.
  here :
      (q : Text) (v : ℕ) (w' : Work)
      → After n m m_le P w key val c g w'
      → q ≡ key
      → v ≡ val
      → Has n m w' q v
  here q v w' r k u = record {
    i = at;
    held = inr (try_at-lt m m_le key g.j, ground (arith, r.taken at));
    key_is = key_here n m m_le P w key val c g w' r ∙ sym k;
    val_is = val_here n m m_le P w key val c g w' r ∙ sym u;
  }

  pub record Ended (r : Work × Option (Text × ℕ)) : Type 0 where
    pub work : Work
    pub result : r ≡ (work, none)
    pub moving : Moving n m P work
    pub complete : (q : Text) (v : ℕ) → P q v → Has n m work q v
    pub same_olds : olds n work ≡ olds n w
    pub more_news : news m work ≡ suc (news m w)
    pub olds_gone : (a : ℕ) → HeldOld n work a → HeldOld n w a

  pub record Kicked (r : Work × Option (Text × ℕ)) : Type 0 where
    pub work : Work
    pub key' : Text
    pub val' : ℕ
    pub result : r ≡ (work, some (key', val'))
    pub carrying : Carrying n m P work key' val'
    pub less_olds : suc (olds n work) ≡ olds n w
    pub more_news : news m work ≡ suc (news m w)
    pub olds_gone : (a : ℕ) → HeldOld n work a → HeldOld n w a

  module _ (free : stands ≡ false) where
    -- The bucket at hand is not an old one.
    at_free : (a : ℕ) → at ≡ a → HeldOld n w a → ⊥
    at_free a e old =
        let low : at < n = omega (arith, e, old.0) in
        let full : is_either w.flags at ≡ false = ap (is_either w.flags) e ∙ old.1 in
        absurd (ground (arith, free, low, full))

    moved-After : After n m m_le P w key val c g moved
    moved-After = record {
      taken = is_empty-set_isempty_false w.new_flags at;
      undeleted = is_del-set_isempty_false w.new_flags at;
      keys_at = λ a. refl;
      vals_at = λ a. refl;
      old_before = λ a old. (old, λ e. at_free a e old);
      old_kept = λ a old ne. old;
    }

    not-at : {q : Text} {v : ℕ} → (has : Has n m w q v) → at ≢ has.i
    not-at has e = elim has.held [
      | inl old ↦ absurd (at_free has.i e old)
      | inr new ↦ new-ne has.i new e
    ]

    pub settle-Ended : Ended (settle n key val at w)
    unfolding settle
    settle-Ended = record {
      work = moved;
      result = rw free refl;
      moving = after-Moving n m m_le P w key val c g moved moved-After;
      complete = λ q v belongs. elim (c.complete q v belongs) [
        | inl has ↦
            let ne : at ≢ has.i = not-at has in
            record {
              i = has.i;
              held = Held-kept n m m_le P w key val c g moved moved-After has.i has.held ne;
              key_is = key_kept n m m_le P w key val c g moved moved-After has.i ne ∙ has.key_is;
              val_is = val_kept n m m_le P w key val c g moved moved-After has.i ne ∙ has.val_is;
            }
        | inr (k, u) ↦ here q v moved moved-After k u
      ];
      same_olds = refl;
      more_news = after-news n m m_le P w key val c g moved moved-After;
      olds_gone = λ a old. old;
    }

  module _ (full : stands ≡ true) where
    at_old : HeldOld n w at
    at_old = (ground (arith, full), ground (arith, full))

    is_either-kicked :
        (a : ℕ) → is_either kicked.flags a ≡ (if at == a then true else is_either w.flags a)
    is_either-kicked a = ground (
      arith,
      is_either-or kicked.flags a,
      is_either-or w.flags a,
      is_empty-set_isdel_true w.flags at a,
      is_del-set_isdel_true w.flags at a,
    )

    kicked_before : (a : ℕ) → HeldOld n kicked a → HeldOld n w a × (at ≢ a)
    kicked_before a old = (
      (old.0, ground (arith, is_either-kicked a, old.1)),
      ground (arith, is_either-kicked a, old.1),
    )

    kicked-After : After n m m_le P w key val c g kicked
    kicked-After = record {
      taken = is_empty-set_isempty_false w.new_flags at;
      undeleted = is_del-set_isempty_false w.new_flags at;
      keys_at = λ a. refl;
      vals_at = λ a. refl;
      old_before = λ a old. kicked_before a old;
      old_kept = λ a old ne. (old.0, ground (arith, is_either-kicked a, old.1, ne));
    }

    kicked_absent : (a : ℕ) → Held n m kicked a → kicked.keys a ≢ w.keys at
    kicked_absent a held e = elim (Bool-cases (at == a)) [
      | inl same ↦
          let e' : at ≡ a = ground (arith, same) in
          c.absent at (inl at_old) (
            sym e
            ∙ (sym (ap kicked.keys e') ∙ key_here n m m_le P w key val c g kicked kicked-After))
      | inr other ↦
          let ne : at ≢ a = ground (arith, other) in
          ne (
            c.moving.unique at a (inl at_old)
              (Held-before n m m_le P w key val c g kicked kicked-After a held ne)
              (sym e ∙ key_kept n m m_le P w key val c g kicked kicked-After a ne))
    ]

    pub settle-Kicked : Kicked (settle n key val at w)
    unfolding settle
    settle-Kicked = record {
      work = kicked;
      key' = w.keys at;
      val' = w.vals at;
      result = rw full refl;
      carrying = record {
        moving = after-Moving n m m_le P w key val c g kicked kicked-After;
        absent = kicked_absent;
        belongs = c.moving.sound at (inl at_old);
        complete = λ q v belongs. elim (c.complete q v belongs) [
          | inl has ↦ elim (Bool-cases (at == has.i)) [
            | inl same ↦
                let e : at ≡ has.i = ground (arith, same) in
                inr (sym has.key_is ∙ ap w.keys (sym e), sym has.val_is ∙ ap w.vals (sym e))
            | inr other ↦
                let ne : at ≢ has.i = ground (arith, other) in
                inl (record {
                  i = has.i;
                  held = Held-kept n m m_le P w key val c g kicked kicked-After has.i has.held ne;
                  key_is =
                      key_kept n m m_le P w key val c g kicked kicked-After has.i ne ∙ has.key_is;
                  val_is =
                      val_kept n m m_le P w key val c g kicked kicked-After has.i ne ∙ has.val_is;
                })
          ]
          | inr (k, u) ↦ inl (here q v kicked kicked-After k u)
        ];
      };
      less_olds = sym (
          count-more (λ a. not (is_either kicked.flags a)) (λ a. not (is_either w.flags a)) n at
            at_old.0 (λ a ne. ground (arith, is_either-kicked a, ne))
            (ground (arith, is_either-kicked at)) (ground (arith, at_old.1)));
      more_news = after-news n m m_le P w key val c g kicked kicked-After;
      olds_gone = λ a old. (kicked-After.old_before a old).0;
    }
