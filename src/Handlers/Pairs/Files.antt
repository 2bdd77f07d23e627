-- ===== src/Handlers/Pairs/Files.antt =====
-- `loggedFS_readdir` and `loggedFS_write`.
use distiller_fs.Prelude.{
  [], ◌*◌, ◌^◌, true, false, Bool-cases, inl, inr, ℕ, suc, Text, Option, some, none, ◌≡◌, refl, ap,
  List, ◌∷◌, Bool, ◌&&◌, pos, negate, pure, gets, ◌>>◌,
}
use distiller_fs.Ops.{FuseOp, flag, op_readdir, log_success, log_unsuccess}
use distiller_fs.Khash.{Khash, KhashLaws}
use distiller_fs.Memory
use distiller_fs.Memory.{Heap, text}
use distiller_fs.Posix.{Posix, Outcome, done, failed, Dirent}
use distiller_fs.Logger.{free, should_log, log_op}
use distiller_fs.Logger.Invariant.{Entry}
use distiller_fs.Logger.Store.{chosen, note}
use distiller_fs.Logger.Ready.{Ready, log_op-Noted}
use distiller_fs.Handlers.{S, Reply, errno_after}
use distiller_fs.Handlers.Calls.{
  set, state_of, answer, Ends, Ends-log, step, step_, pure-Ends, free-done, free-Ready,
}
use distiller_fs.Handlers.Paths.{
  logged, view-borrowed, view-released, outcome, called, called-Ready, borrow_call,
}
use distiller_fs.Handlers.Pairs.{FillStat, fill_entries, readdir, readdir_outcome}

-- The reply that an error number gives.
abbrev pub refused : (B : Type 0) → ℕ → Reply B
refused B e = (negate e, none)

-- A directory stream with the buffer that it fills.
abbrev pub filled :
    {B : Type 0} → (B → Text → FillStat → B × Bool) → B → Outcome (List Dirent) → Outcome B
filled filler buf (failed e) = failed e
filled filler buf (done entries) = done (fill_entries filler buf entries)

-- What the filler is given for an entry.
abbrev entry_stat : Dirent → FillStat
entry_stat de = record { st_ino = de.d_ino; st_mode = de.d_type * 2 ^ 12 }

-- The filler makes this buffer of the entries: it takes them one by one, and stops at one that it
-- refuses.
pub data Fills {B : Type 0} (filler : B → Text → FillStat → B × Bool)
    : B → List Dirent → B → Type 0 where
  at_end : {buf : B} → Fills filler buf [] buf
  refuses :
      {buf : B} {de : Dirent} {rest : List Dirent}
      → (filler buf de.d_name (entry_stat de)).1 ≡ true
      → Fills filler buf (de ∷ rest) (filler buf de.d_name (entry_stat de)).0
  takes :
      {buf full : B} {de : Dirent} {rest : List Dirent}
      → (filler buf de.d_name (entry_stat de)).1 ≡ false
      → Fills filler (filler buf de.d_name (entry_stat de)).0 rest full
      → Fills filler buf (de ∷ rest) full

abbrev pub FillsFrom :
    {B : Type 0} → (B → Text → FillStat → B × Bool) → B → Outcome (List Dirent) → Outcome B → Type 0
FillsFrom {B} filler buf (failed e) reply = reply ≡ failed e
FillsFrom {B} filler buf (done entries) reply =
    (full : B) × (reply ≡ done full) × Fills filler buf entries full

fill_entries-Fills :
    {B : Type 0} (filler : B → Text → FillStat → B × Bool) (buf : B) (entries : List Dirent)
    → Fills filler buf entries (fill_entries filler buf entries)
unfolding fill_entries
fill_entries-Fills filler buf [] = at_end
fill_entries-Fills filler buf (de ∷ rest) =
    let r = filler buf de.d_name (entry_stat de) in
    elim (Bool-cases r.1) [
      | inl stops ↦ rw stops (refuses stops)
      | inr goes ↦ rw goes (takes goes (fill_entries-Fills filler r.0 rest))
    ]

filled-FillsFrom :
    {B : Type 0} (filler : B → Text → FillStat → B × Bool) (buf : B) (o : Outcome (List Dirent))
    → FillsFrom filler buf o (filled filler buf o)
filled-FillsFrom filler buf (failed e) = refl
filled-FillsFrom filler buf (done entries) =
    (fill_entries filler buf entries, refl, fill_entries-Fills filler buf entries)

module _ (kh : Khash) (laws : KhashLaws kh) (px : Posix) where
  -- The log of one event depends on the state by the filters and the log before.
  abbrev pub relog_one : S kh px → FuseOp → ℕ → Text → (Text → Option Entry) → Text → Option Entry
  relog_one s op st path = note (should_log s.op_flags op st && chosen s.filter path) path (flag op)

  module _ {temps : List ℕ} (path : Text) (p n : ℕ) (s : S kh px)
      (r : Ready kh (p ∷ temps) (suc n) s) where
    abbrev given_back : S kh px
    given_back = set s (Memory.released p s.heap) s.table s.locked s.world s.errno

    given_back-Ready : Ready kh temps (suc n) given_back
    given_back-Ready = free-Ready kh temps (suc n) s p r

    readdir_outcome-Ends :
        {B : Type 0} (filler : B → Text → FillStat → B × Bool) (buf : B) (o : Outcome (List Dirent))
        (e : ℕ)
        → s.errno ≡ errno_after o e
        → Ends kh
            (readdir_outcome kh px filler buf path p o)
            s
            temps
            n
            (answer (λ _. pos 0) (filled filler buf o))
            s.world
            s.errno
            (logged kh laws px s op_readdir (state_of o) path)
    unfolding readdir_outcome
    readdir_outcome-Ends {B} filler buf (failed m) e known =
        let c =
          log_op-Noted kh laws temps n op_readdir log_unsuccess path given_back given_back-Ready in
        Ends-log kh _
          (ap (relog_one s op_readdir log_unsuccess path)
            (view-released kh laws px s temps (suc n) p r))
          (step kh (gets (λ u. u.errno))
            (λ errno. free p >> (log_op kh op_readdir log_unsuccess path >> pure (refused B errno)))
            s _ _ _ _ _ (ap (λ (x : ℕ). some (x, s)) known)
            (step_ kh (free p) s (free-done kh temps (suc n) s p r) (
              step_ kh (log_op kh op_readdir log_unsuccess path) given_back c.run
                (pure-Ends kh s c.heap c.table s.world s.errno c.ready c.shows (negate m, none)))))
    readdir_outcome-Ends filler buf (done entries) e known =
        let c =
          log_op-Noted kh laws temps n op_readdir log_success path given_back given_back-Ready in
        Ends-log kh _
          (ap (relog_one s op_readdir log_success path)
            (view-released kh laws px s temps (suc n) p r))
          (step_ kh (free p) s (free-done kh temps (suc n) s p r) (
            step_ kh (log_op kh op_readdir log_success path) given_back c.run (
              pure-Ends kh s c.heap c.table s.world s.errno c.ready c.shows
                (pos 0, some (fill_entries filler buf entries)))))

  -- The run, with the buffer as the loop computes it.
  pub readdir-run :
      {temps : List ℕ} {B : Type 0} (filler : B → Text → FillStat → B × Bool) (buf : B)
      (path : Text) (n : ℕ) (s : S kh px)
      → Ready kh temps (suc n) s
      → let o = outcome kh laws px px.opendir path s in
        let t = called kh laws px px.opendir path s in
        Ends kh
          (readdir kh px filler buf path)
          s
          temps
          n
          (answer (λ _. pos 0) (filled filler buf o))
          t.world
          t.errno
          (logged kh laws px s op_readdir (state_of o) path)
  unfolding readdir
  readdir-run {temps} filler buf path n s r =
      let o = outcome kh laws px px.opendir path s in
      Ends-log kh _
        (ap (relog_one s op_readdir (state_of o) path)
          (view-borrowed kh laws px s temps (suc n) path r))
        (borrow_call kh laws px px.opendir path s (readdir_outcome kh px filler buf path) (
          readdir_outcome-Ends path s.heap.next n (called kh laws px px.opendir path s)
            (called-Ready kh laws px px.opendir path s (suc n) r) filler buf o s.errno refl))

  -- On a ready state, `readdir` returns the negated error number of `opendir` on the relative path, or
  -- 0 with the buffer into which the filler has put the entries one after another, each with its name,
  -- its inode and its type as a mode, up to the end or the first that the filler refuses. It logs one
  -- event under the filter state of the outcome, and gives back the string that it borrowed.
  pub readdir-Ends :
      {temps : List ℕ} {B : Type 0} (filler : B → Text → FillStat → B × Bool) (buf : B)
      (path : Text) (n : ℕ) (s : S kh px)
      → Ready kh temps (suc n) s
      → let o = outcome kh laws px px.opendir path s in
        let t = called kh laws px px.opendir path s in
        (reply : Outcome B) × FillsFrom filler buf o reply
        × Ends kh
            (readdir kh px filler buf path)
            s
            temps
            n
            (answer (λ _. pos 0) reply)
            t.world
            t.errno
            (logged kh laws px s op_readdir (state_of o) path)
  readdir-Ends filler buf path n s r =
      let o = outcome kh laws px px.opendir path s in
      (filled filler buf o, filled-FillsFrom filler buf o, readdir-run filler buf path n s r)
