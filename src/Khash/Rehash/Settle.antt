-- ===== src/Khash/Rehash/Settle.antt =====
-- One round of the kick-out process keeps the invariant, with one more new bucket taken.
use distiller_fs.Prelude.{
  count-more, ℕ, suc, ◌^◌, ◌≤◌, ◌<◌, ◌≡◌, ◌≢◌, refl, sym, ap, ◌∙◌, subst, arith, inl, inr, true,
  false, not, Bool-cases, ◌==◌, if◌then◌else◌, Text, text_eq_iff,
}
use distiller_fs.Khash.Flags.{is_empty, is_del}
use distiller_fs.Khash.Table.{Work, goes_on}
use distiller_fs.Khash.Lookup.{try_at, try_at-lt}
use distiller_fs.Khash.Shape.{Reaches}
use distiller_fs.Khash.Rehash.{HeldOld, HeldNew, Held, Moving, Carrying, Gap, new_table, news}

module _ (n m : ℕ) (m_le : m ≤ 31) (P : Text → ℕ → Type 0) (w : Work) (key : Text) (val : ℕ)
    (c : Carrying n m P w key val) (g : Gap m m_le w.new_flags key) where
  abbrev pub i : ℕ
  i = try_at m key g.j

  -- What a round leaves, whichever way it ends.
  pub record After (w' : Work) : Type 0 where
    pub taken :
        (a : ℕ) → is_empty w'.new_flags a ≡ (if i == a then false else is_empty w.new_flags a)
    pub undeleted : (a : ℕ) → is_del w'.new_flags a ≡ is_del w.new_flags a
    pub keys_at : (a : ℕ) → w'.keys a ≡ (if i == a then key else w.keys a)
    pub vals_at : (a : ℕ) → w'.vals a ≡ (if i == a then val else w.vals a)
    pub old_before : (a : ℕ) → HeldOld n w' a → HeldOld n w a × (i ≢ a)
    pub old_kept : (a : ℕ) → HeldOld n w a → i ≢ a → HeldOld n w' a

  pub was_empty : is_empty w.new_flags i ≡ true
  was_empty = ground (arith, g.stop)

  module _ (w' : Work) (r : After w') where
    pub Held-before : (a : ℕ) → Held n m w' a → i ≢ a → Held n m w a
    Held-before a (inl old) ne = inl (r.old_before a old).0
    Held-before a (inr (low, full)) ne = inr (low, ground (arith, r.taken a, full, ne))

    pub Held-kept : (a : ℕ) → Held n m w a → i ≢ a → Held n m w' a
    Held-kept a (inl old) ne = inl (r.old_kept a old ne)
    Held-kept a (inr (low, full)) ne = inr (low, ground (arith, r.taken a, full, ne))

    pub key_kept : (a : ℕ) → i ≢ a → w'.keys a ≡ w.keys a
    key_kept a ne = ground (arith, r.keys_at a, ne)

    pub val_kept : (a : ℕ) → i ≢ a → w'.vals a ≡ w.vals a
    val_kept a ne = ground (arith, r.vals_at a, ne)

    pub key_here : w'.keys i ≡ key
    key_here = ground (arith, r.keys_at i)

    pub val_here : w'.vals i ≡ val
    val_here = ground (arith, r.vals_at i)

    not-Held_same : (a b : ℕ) → i ≡ a → i ≢ b → Held n m w' b → w'.keys a ≢ w'.keys b
    not-Held_same a b same ne held e =
        c.absent b (Held-before b held ne)
          (sym (key_kept b ne) ∙ (sym e ∙ (ap w'.keys (sym same) ∙ key_here)))

    after_unique : (a b : ℕ) → Held n m w' a → Held n m w' b → w'.keys a ≡ w'.keys b → a ≡ b
    after_unique a b ha hb e = elim (Bool-cases (i == a)) [
      | inl same_a ↦ elim (Bool-cases (i == b)) [
        | inl same_b ↦ ground arith
        | inr other_b ↦ absurd (not-Held_same a b (ground arith) (ground arith) hb e)
      ]
      | inr other_a ↦ elim (Bool-cases (i == b)) [
        | inl same_b ↦ absurd (not-Held_same b a (ground arith) (ground arith) ha (sym e))
        | inr other_b ↦
            let na : i ≢ a = ground arith in
            let nb : i ≢ b = ground arith in
            c.moving.unique a b (Held-before a ha na) (Held-before b hb nb)
              (sym (key_kept a na) ∙ (e ∙ key_kept b nb))
      ]
    ]

    goes_on-kept :
        (q : Text) (a : ℕ) → i ≢ a → goes_on (new_table w') q a ≡ goes_on (new_table w) q a
    unfolding goes_on
    goes_on-kept q a ne =
        let test : (i == a) ≡ false = ground (arith, ne) in
        rw (r.taken a, r.undeleted a, r.keys_at a, test) refl

    -- The tries for the key before the bucket are at new buckets with other keys.
    passes : (k : ℕ) → k < g.j → goes_on (new_table w') key (try_at m key k) ≡ true
    unfolding goes_on
    passes k low =
        let p = try_at m key k in
        let full : is_empty w.new_flags p ≡ false = ground (arith, g.before k low) in
        let ne : i ≢ p = λ e. cc (was_empty, full, ap (is_empty w.new_flags) e) in
        let other = c.absent p (inr (try_at-lt m m_le key k, full)) in
        goes_on-kept key p ne ∙ ground (arith, full, text_eq_iff (w.keys p) key, other)

    stops_here : goes_on (new_table w') key i ≡ false
    unfolding goes_on
    stops_here = ground (
      arith,
      r.taken i,
      r.undeleted i,
      c.moving.undeleted i,
      key_here,
      text_eq_iff (w'.keys i) key,
    )

    new-Reaches : Reaches m (new_table w') key i
    new-Reaches = record {
      trail = record { j = g.j; low = g.low; before = passes; stop = stops_here };
      ends = refl;
    }

    old-Reaches : (a : ℕ) → HeldNew m w a → i ≢ a → Reaches m (new_table w') (w.keys a) a
    unfolding goes_on
    old-Reaches a held ne =
        let o = c.moving.reached a held in
        record {
          trail = record {
            j = o.trail.j;
            low = o.trail.low;
            before = λ k low.
                let p = try_at m (w.keys a) k in
                let more = o.trail.before k low in
                let apart : i ≢ p =
                  λ e. ground (arith, more, was_empty, ap (is_empty w.new_flags) e) in
                goes_on-kept (w.keys a) p apart ∙ more;
            stop = goes_on-kept (w.keys a) _ (λ e. ne (e ∙ o.ends)) ∙ o.trail.stop;
          };
          ends = o.ends;
        }

    after-reached : (a : ℕ) → HeldNew m w' a → Reaches m (new_table w') (w'.keys a) a
    after-reached a (low, full) = elim (Bool-cases (i == a)) [
      | inl same ↦
          let at : i ≡ a = ground arith in
          subst (λ b. Reaches m (new_table w') (w'.keys b) b) at
            (subst (λ q. Reaches m (new_table w') q i) (sym key_here) new-Reaches)
      | inr other ↦
          let ne : i ≢ a = ground arith in
          subst (λ q. Reaches m (new_table w') q a) (sym (key_kept a ne))
            (old-Reaches a (low, ground (arith, r.taken a, full, ne)) ne)
    ]

    after-sound : (a : ℕ) → Held n m w' a → P (w'.keys a) (w'.vals a)
    after-sound a held = elim (Bool-cases (i == a)) [
      | inl same ↦
          let at : i ≡ a = ground arith in
          subst (λ b. P (w'.keys b) (w'.vals b)) at
            (subst (λ q. P q (w'.vals i)) (sym key_here) (subst (P key) (sym val_here) c.belongs))
      | inr other ↦
          let ne : i ≢ a = ground arith in
          subst (λ q. P q (w'.vals a)) (sym (key_kept a ne))
            (subst (P (w.keys a)) (sym (val_kept a ne)) (c.moving.sound a (Held-before a held ne)))
    ]

    pub after-Moving : Moving n m P w'
    after-Moving = record {
      unique = after_unique;
      apart = λ a old.
          let (before, ne) = r.old_before a old in
          ground (arith, r.taken a, c.moving.apart a before, ne);
      undeleted = λ a. r.undeleted a ∙ c.moving.undeleted a;
      reached = after-reached;
      sound = after-sound;
    }

    pub after-news : news m w' ≡ suc (news m w)
    after-news =
        count-more (λ a. not (is_empty w.new_flags a)) (λ a. not (is_empty w'.new_flags a)) (2 ^ m)
          i (try_at-lt m m_le key g.j) (λ a ne. ground (arith, r.taken a, ne))
          (ground (arith, was_empty)) (ground (arith, r.taken i))
