-- ===== src/Khash/Insert.antt =====
-- `kh_put` of src/khash.h behind the growth of the table: the bucket that it takes for a key.
use distiller_fs.Prelude.{
  ℕ, zero, suc, ◌+◌, ◌-◌, ◌*◌, ◌^◌, ◌≤◌, ◌<◌, ◌≡◌, ◌≢◌, refl, sym, ap, ◌∙◌, subst, arith, ◌⊎◌, inl,
  inr, true, false, not, ◌&&◌, Bool-cases, ◌==◌, if◌then◌else◌, Text, Option, none, some,
  two_pow_pos, bit_and,
}
use distiller_fs.Khash.Flags.{is_empty, is_del, is_either, is_either-or}
use distiller_fs.Khash.Table.{
  KhText, hash_string, kh_mask, advance, next_step, rounds, goes_on, put_loop, choose, find_bucket,
}
use distiller_fs.Khash.Positions.{next_step_lem}
use distiller_fs.Khash.Lookup.{try_at, try_at-lt, try_at-zero, try_at-suc, try_at-injective}
use distiller_fs.Khash.Shape.{Shape, IsLive, key_trail, stop-key}

module _ (m : ℕ) (h : KhText) (s : Shape m h) (key : Text) where
  -- `site` after `j` rounds: the last deleted bucket.
  site_at : ℕ → ℕ
  site_at zero = h.n_buckets
  site_at (suc j) = if is_del h.flags (try_at m key j) then try_at m key j else site_at j

  abbrev i0 : ℕ
  i0 = try_at m key 0

  put_step :
      (f j : ℕ)
      → suc j < 2 ^ m
      → goes_on h key (try_at m key j) ≡ true
      → put_loop h key i0 (suc f) (try_at m key j) j (site_at j)
        ≡ put_loop h key i0 f (try_at m key (suc j)) (suc j) (site_at (suc j))
  unfolding put_loop site_at
  put_step f j low more =
      let i = try_at m key j in
      let to : advance (kh_mask h.n_buckets) i j ≡ try_at m key (suc j) =
        ap (λ (t : ℕ). advance (kh_mask t) i j) s.buckets
        ∙ try_at-suc m s.m_le key j (omega (arith, low)) in
      let step : next_step j ≡ suc j =
        next_step_lem m s.m_le i (try_at-lt m s.m_le key j) j (omega (arith, low)) in
      let other : try_at m key (suc j) ≢ i0 = λ e.
        absurd (omega (arith, try_at-injective m s.m_le key (suc j) 0 low (two_pow_pos m) e)) in
      rw (put_loop, more, to, step) (ground (arith, other))

  put_stop :
      (f j : ℕ)
      → goes_on h key (try_at m key j) ≡ false
      → put_loop h key i0 (suc f) (try_at m key j) j (site_at j)
        ≡ some (record { x = h.n_buckets; site = site_at j; i = try_at m key j })
  unfolding put_loop
  put_stop f j stop = rw (put_loop, stop) refl

  put_walk :
      (j f : ℕ)
      → j < 2 ^ m
      → ((k : ℕ) → k < j → goes_on h key (try_at m key k) ≡ true)
      → put_loop h key i0 (j + f) i0 0 h.n_buckets
        ≡ put_loop h key i0 f (try_at m key j) j (site_at j)
  unfolding site_at
  put_walk zero f low before = ap (λ (t : ℕ). put_loop h key i0 t i0 0 h.n_buckets) (omega arith)
  put_walk (suc j) f low before =
      ap (λ (t : ℕ). put_loop h key i0 t i0 0 h.n_buckets) (omega arith)
      ∙ (put_walk j (suc f) (omega (arith, low)) (λ k b. before k (omega (arith, b)))
          ∙ put_step f j low (before j (omega arith)))

  abbrev last : ℕ
  last = (key_trail m h s key).j

  -- The bucket that is taken.
  pub taken : ℕ
  taken =
      if is_empty h.flags (try_at m key last) && not (site_at last == h.n_buckets)
      then site_at last
      else try_at m key last

  choose-taken :
      choose h (record { x = h.n_buckets; site = site_at last; i = try_at m key last }) ≡ taken
  unfolding choose taken
  choose-taken = ground arith

  -- A loop that would stop at its first try takes that bucket.
  first_stops : is_empty h.flags i0 ≡ true → last ≡ 0
  unfolding goes_on
  first_stops empty = elim (Bool-cases (last == 0)) [
    | inl zero_last ↦ ground arith
    | inr later ↦
        let more = (key_trail m h s key).before 0 (ground arith) in
        absurd (ground (arith, more, empty))
  ]

  taken-first : is_empty h.flags i0 ≡ true → taken ≡ i0
  unfolding taken site_at
  taken-first empty =
      ap
        (λ (j : ℕ).
          if is_empty h.flags (try_at m key j) && not (site_at j == h.n_buckets)
          then site_at j
          else try_at m key j)
        (first_stops empty)
      ∙ ground arith

  put_loop-taken :
      put_loop h key i0 (rounds h.n_buckets) i0 0 h.n_buckets
      ≡ some (record { x = h.n_buckets; site = site_at last; i = try_at m key last })
  put_loop-taken =
      let t = key_trail m h s key in
      let n = h.n_buckets in
      let f = 2 * n - 1 - t.j in
      let fuel : rounds n ≡ t.j + suc f = omega (arith, s.buckets, t.low) in
      ap (λ (r : ℕ). put_loop h key i0 r i0 0 n) fuel
      ∙ (put_walk t.j (suc f) t.low t.before ∙ put_stop f t.j t.stop)

  pub find_bucket-taken : find_bucket h key ≡ some taken
  unfolding find_bucket
  find_bucket-taken =
      let start : bit_and (hash_string key) (kh_mask h.n_buckets) ≡ i0 =
        ap (λ (k : ℕ). bit_and (hash_string key) (kh_mask k)) s.buckets
        ∙ try_at-zero m s.m_le key in
      let from : ℕ → Option ℕ = λ i.
        if is_empty h.flags i
        then some i
        else elim (put_loop h key i (rounds h.n_buckets) i 0 h.n_buckets) [
          | none ↦ none
          | some r ↦ some (choose h r)
        ] in
      ap from start ∙ elim (Bool-cases (is_empty h.flags i0)) [
        | inl empty ↦ rw empty (ap (λ (x : ℕ). some x) (sym (taken-first empty)))
        | inr full ↦ rw (full, put_loop-taken) (ap (λ (x : ℕ). some x) choose-taken)
      ]

  -- A free bucket among the tries, where the key is live nowhere.
  pub record IsFree (x : ℕ) : Type 0 where
    pub k : ℕ
    pub k_le : k ≤ last
    pub at : try_at m key k ≡ x
    pub free : is_either h.flags x ≡ true
    pub absent : is_empty h.flags (try_at m key last) ≡ true

  site_at-IsFree :
      (j : ℕ)
      → j ≤ last
      → is_empty h.flags (try_at m key last) ≡ true
      → (site_at j ≡ h.n_buckets) ⊎ IsFree (site_at j)
  unfolding site_at
  site_at-IsFree zero low empty = inl refl
  site_at-IsFree (suc j) low empty = elim (Bool-cases (is_del h.flags (try_at m key j))) [
    | inl deleted ↦ rw deleted (
        inr (record {
          k = j;
          k_le = omega (arith, low);
          at = refl;
          free = ground (arith, is_either-or h.flags (try_at m key j), deleted);
          absent = empty;
        }))
    | inr kept ↦ rw kept (site_at-IsFree j (omega (arith, low)) empty)
  ]

  -- The bucket of the last try, which has the key.
  pub record IsHeld (x : ℕ) : Type 0 where
    pub at : try_at m key last ≡ x
    pub live : IsLive h x
    pub has_key : h.keys x ≡ key

  -- The bucket that is taken holds the key, or is free while the key is live nowhere.
  pub taken-cases : IsHeld taken ⊎ IsFree taken
  unfolding taken goes_on
  taken-cases =
      let t = key_trail m h s key in
      let x = try_at m key last in
      let site = site_at last in
      elim (Bool-cases (is_empty h.flags x)) [
        | inl empty ↦
            let here : IsFree x = record {
              k = last;
              k_le = omega arith;
              at = refl;
              free = ground (arith, is_either-or h.flags x, empty);
              absent = empty;
            } in
            elim (Bool-cases (site == h.n_buckets)) [
              | inl no_site ↦
                  let same : x ≡ taken = ground (arith, empty, no_site) in
                  inr (subst IsFree same here)
              | inr some_site ↦
                  let same : site ≡ taken = ground (arith, empty, some_site) in
                  elim (site_at-IsFree last (omega arith) empty) [
                    | inl no_site ↦ absurd (ground (arith, no_site, some_site))
                    | inr deleted ↦ inr (subst IsFree same deleted)
                  ]
            ]
        | inr full ↦
            let same : x ≡ taken = ground (arith, full) in
            let live : IsLive h x = ground (arith, is_either-or h.flags x, t.stop, full) in
            let here : IsHeld x = record {
              at = refl;
              live = live;
              has_key = stop-key m h s key x t.stop live;
            } in
            inl (subst IsHeld same here)
      ]

  pub taken-lt : taken < 2 ^ m
  taken-lt = elim taken-cases [
    | inl held ↦ rw (← held.at) (try_at-lt m s.m_le key last)
    | inr f ↦ rw (← f.at) (try_at-lt m s.m_le key f.k)
  ]
