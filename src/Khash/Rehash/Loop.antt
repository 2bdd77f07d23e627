-- ===== src/Khash/Rehash/Loop.antt =====
-- The loops of `kh_resize` of src/khash.h: the kick-out process and the loop over the old buckets.
use distiller_fs.Prelude.{
  count-more, count-le, ℕ, zero, suc, ◌+◌, ◌^◌, ◌≤◌, ◌<◌, ◌≡◌, ◌≢◌, refl, sym, ap, ◌∙◌, arith, inl,
  inr, true, not, Bool-cases, ◌==◌, if◌then◌else◌, Text, Option, none, some,
}
use distiller_fs.Khash.Flags.{
  is_empty, is_either, is_either-or, set_isdel_true, is_del-set_isdel_true, is_empty-set_isdel_true,
}
use distiller_fs.Khash.Table.{Work, settle, kick_out, rehash}
use distiller_fs.Khash.Lookup.{try_at}
use distiller_fs.Khash.Rehash.{
  HeldOld, Held, Has, Moving, Carrying, Gap, gap_here, find_empty-Gap, olds, news,
}
use distiller_fs.Khash.Rehash.Outcomes.{stands, Kicked, settle-Ended, settle-Kicked}

module _ (n m : ℕ) (m_le : m ≤ 31) (P : Text → ℕ → Type 0) where
  -- What the kick-out process leaves: the element in hand is in the table too.
  pub record KickedOut (w : Work) (r : Option Work) : Type 0 where
    pub work : Work
    pub result : r ≡ some work
    pub moving : Moving n m P work
    pub complete : (q : Text) (v : ℕ) → P q v → Has n m work q v
    pub counts : olds n work + news m work ≡ suc (olds n w + news m w)
    pub olds_gone : (a : ℕ) → HeldOld n work a → HeldOld n w a

  module _ (w : Work) (key : Text) (val f : ℕ) (g : Gap m m_le w.new_flags key) where
    abbrev at : ℕ
    at = try_at m key g.j

    kick_out-last :
        (w' : Work)
        → settle n key val at w ≡ (w', none)
        → kick_out n (2 ^ m) (suc f) key val w ≡ some w'
    unfolding kick_out
    kick_out-last w' e =
        rw (kick_out, find_empty-Gap m m_le w.new_flags key g, e) (ap (λ r. some r.0) e)

    kick_out-next :
        (w' : Work) (key' : Text) (val' : ℕ)
        → settle n key val at w ≡ (w', some (key', val'))
        → kick_out n (2 ^ m) (suc f) key val w ≡ kick_out n (2 ^ m) f key' val' w'
    unfolding kick_out
    kick_out-next w' key' val' e =
        rw (kick_out, find_empty-Gap m m_le w.new_flags key g, e)
          (ap (λ r. kick_out n (2 ^ m) f key' val' r.0) e)

  abbrev gap : (w : Work) (key : Text) → olds n w + news m w < 2 ^ m → Gap m m_le w.new_flags key
  gap w key room = gap_here m m_le w.new_flags key (omega (arith, room))

  -- One round, with the rounds that follow it as an argument.
  round :
      (f : ℕ) (w : Work) (key : Text) (val : ℕ) (c : Carrying n m P w key val)
      (room : olds n w + news m w < 2 ^ m)
      → ((k : Kicked n m m_le P w key val c
            (gap w key room)
            (settle n key val (try_at m key (gap w key room).j) w))
          → KickedOut w (kick_out n (2 ^ m) (suc f) key val w))
      → KickedOut w (kick_out n (2 ^ m) (suc f) key val w)
  round f w key val c room next =
      let g = gap w key room in
      elim (Bool-cases (stands n m m_le P w key val c g)) [
        | inr free ↦
            let e = settle-Ended n m m_le P w key val c g free in
            record {
              work = e.work;
              result = kick_out-last w key val f g e.work e.result;
              moving = e.moving;
              complete = e.complete;
              counts = omega (arith, e.same_olds, e.more_news);
              olds_gone = e.olds_gone;
            }
        | inl full ↦ next (settle-Kicked n m m_le P w key val c g full)
      ]

  -- The process takes an old element with each round, so that it ends.
  pub kick_out-KickedOut :
      (f : ℕ) (w : Work) (key : Text) (val : ℕ)
      → Carrying n m P w key val
      → olds n w ≤ f
      → olds n w + news m w < 2 ^ m
      → KickedOut w (kick_out n (2 ^ m) (suc f) key val w)
  kick_out-KickedOut zero w key val c fuel room =
      round zero w key val c room (λ k. absurd (omega (arith, k.less_olds, fuel)))
  kick_out-KickedOut (suc f) w key val c fuel room = round (suc f) w key val c room (λ k.
      let g = gap w key room in
      let r =
        kick_out-KickedOut f k.work k.key' k.val' k.carrying (omega (arith, k.less_olds, fuel))
          (omega (arith, k.less_olds, k.more_news, room)) in
      record {
        work = r.work;
        result = kick_out-next w key val (suc f) g k.work k.key' k.val' k.result ∙ r.result;
        moving = r.moving;
        complete = r.complete;
        counts = omega (arith, r.counts, k.less_olds, k.more_news);
        olds_gone = λ a old. k.olds_gone a (r.olds_gone a old);
      })

  -- What the loop over the old buckets leaves: none of them is held.
  pub record Rehashed (w : Work) (r : Option Work) : Type 0 where
    pub work : Work
    pub result : r ≡ some work
    pub moving : Moving n m P work
    pub complete : (q : Text) (v : ℕ) → P q v → Has n m work q v
    pub none_old : (a : ℕ) → HeldOld n work a → ⊥
    pub counts : olds n work + news m work ≡ olds n w + news m w

  module _ (w : Work) (j : ℕ) (old : HeldOld n w j) where
    abbrev marked : Work
    marked = record w { flags = set_isdel_true w.flags j }

    is_either-marked :
        (a : ℕ) → is_either marked.flags a ≡ (if j == a then true else is_either w.flags a)
    is_either-marked a = ground (
      arith,
      is_either-or marked.flags a,
      is_either-or w.flags a,
      is_empty-set_isdel_true w.flags j a,
      is_del-set_isdel_true w.flags j a,
    )

    Held-marked : (a : ℕ) → Held n m marked a → Held n m w a
    Held-marked a (inl (low, live)) = inl (low, ground (arith, is_either-marked a, live))
    Held-marked a (inr new) = inr new

    marked-olds : olds n w ≡ suc (olds n marked)
    marked-olds =
        count-more (λ a. not (is_either marked.flags a)) (λ a. not (is_either w.flags a)) n j old.0
          (λ a ne. ground (arith, is_either-marked a, ne)) (ground (arith, is_either-marked j))
          (ground (arith, old.1))

    marked-Moving : Moving n m P w → Moving n m P marked
    marked-Moving s = record {
      unique = λ a b ha hb e. s.unique a b (Held-marked a ha) (Held-marked b hb) e;
      apart = λ a held. s.apart a (held.0, ground (arith, is_either-marked a, held.1));
      undeleted = s.undeleted;
      reached = s.reached;
      sound = λ a ha. s.sound a (Held-marked a ha);
    }

    marked-Held : (a : ℕ) → Held n m w a → j ≢ a → Held n m marked a
    marked-Held a (inl (low, live)) ne = inl (low, ground (arith, is_either-marked a, live, ne))
    marked-Held a (inr new) ne = inr new

    marked-ne : Moving n m P w → (a : ℕ) → Held n m marked a → j ≢ a
    marked-ne s a (inl (low, live)) e = ground (arith, is_either-marked a, live, e)
    marked-ne s a (inr (low, full)) e = cc (s.apart j old, full, ap (is_empty w.new_flags) e)

    marked-Carrying :
        Moving n m P w
        → ((q : Text) (v : ℕ) → P q v → Has n m w q v)
        → Carrying n m P marked (w.keys j) (w.vals j)
    marked-Carrying s complete = record {
      moving = marked-Moving s;
      absent = λ a ha e. marked-ne s a ha (s.unique j a (inl old) (Held-marked a ha) (sym e));
      belongs = s.sound j (inl old);
      complete = λ q v belongs.
          let has = complete q v belongs in
          elim (Bool-cases (j == has.i)) [
            | inl same ↦
                let e : j ≡ has.i = ground (arith, same) in
                inr (sym has.key_is ∙ ap w.keys (sym e), sym has.val_is ∙ ap w.vals (sym e))
            | inr other ↦ inl (record {
              i = has.i;
              held = marked-Held has.i has.held (ground (arith, other));
              key_is = has.key_is;
              val_is = has.val_is;
            })
          ];
    }

  behind :
      (w : Work) (j : ℕ) (old : HeldOld n w j)
      → ((a : ℕ) → HeldOld n w a → j ≤ a)
      → {r : Option Work} → (k : KickedOut (marked w j old) r) → (a : ℕ) → HeldOld n k.work a
      → suc j ≤ a
  behind w j old from k a held =
      let (low, live) = k.olds_gone a held in
      let ne : j ≢ a = ground (arith, is_either-marked w j old a, live) in
      let le = from a (low, ground (arith, is_either-marked w j old a, live)) in
      omega (arith, ne, le)

  -- The loop from bucket `j` on, with `r` buckets left and none held before it.
  pub rehash-Rehashed :
      (r j : ℕ) (w : Work)
      → r + j ≡ n
      → ((a : ℕ) → HeldOld n w a → j ≤ a)
      → Moving n m P w
      → ((q : Text) (v : ℕ) → P q v → Has n m w q v)
      → olds n w + news m w < 2 ^ m
      → Rehashed w (rehash n (2 ^ m) r j w)
  unfolding rehash
  rehash-Rehashed zero j w left from s complete room = record {
    work = w;
    result = refl;
    moving = s;
    complete = complete;
    none_old = λ a old. absurd (omega (arith, from a old, old.0, left));
    counts = refl;
  }
  rehash-Rehashed (suc r) j w left from s complete room = elim (Bool-cases (is_either w.flags j)) [
    | inl free ↦
        rw (rehash, free)
          (rehash-Rehashed r (suc j) w (omega (arith, left))
            (λ a old. ground (arith, from a old, ap (is_either w.flags), old.1, free)) s complete
            room)
    | inr live ↦
        let old : HeldOld n w j = (omega (arith, left), live) in
        let k =
          kick_out-KickedOut n (marked w j old) (w.keys j) (w.vals j)
            (marked-Carrying w j old s complete)
            (count-le (λ a. not (is_either (marked w j old).flags a)) n)
            (omega (arith, marked-olds w j old, room)) in
        let rest =
          rehash-Rehashed r (suc j) k.work (omega (arith, left)) (behind w j old from k) k.moving
            k.complete (omega (arith, k.counts, marked-olds w j old, room)) in
        record {
          work = rest.work;
          result = rw (rehash, live, k.result) rest.result;
          moving = rest.moving;
          complete = rest.complete;
          none_old = rest.none_old;
          counts = omega (arith, rest.counts, k.counts, marked-olds w j old);
        }
  ]
