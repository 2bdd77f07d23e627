-- ===== src/Startup/Ending.antt =====
-- The two ends of `main`: the state in which FUSE starts, and the report.
use distiller_fs.Prelude.{
  min, ◌+◌, map, length-append, ℕ, ◌≤◌, ◌≡◌, ◌≢◌, ◌↔◌, refl, ap, ◌∙◌, Text, Option, none, some,
  List, [], ◌∷◌, ◌++◌, length, All, true, arith,
}
use distiller_fs.Ops.{FuseOp, log_success, log_unsuccess}
use distiller_fs.Khash.{Khash, KhashLaws}
use distiller_fs.Memory
use distiller_fs.Memory.{Heap, plain}
use distiller_fs.Filter.{FilterDesc}
use distiller_fs.Config.{Parsed}
use distiller_fs.Logger.{State, int_max}
use distiller_fs.Logger.Accounts.{Sound}
use distiller_fs.Logger.Start.{empty-Sound, alloc_all-SetAside, view-new, new-Ready}
use distiller_fs.Logger.Invariant.{view}
use distiller_fs.Logger.Store.{Assigned}
use distiller_fs.Logger.Ready.{Ready}
use distiller_fs.Print.{printed, print_hash}
use distiller_fs.Print.Lines.{Listing, print_hash-Listing}
use distiller_fs.Print.Release.{Only, free_hash-Only}
use distiller_fs.Print.Masks.{Legend, char_at}
use distiller_fs.Startup.{
  path_copies, path_blocks, own_blocks, Dest, legend_char, legend, initial, write_report,
}

-- A letter of the legend is `a` exactly where only failures are logged, `s` exactly where only
-- successes are, and never `u`.
pub legend_char_lem :
    (op_flags : FuseOp → ℕ) (op : FuseOp)
    → ((legend_char op_flags op ≡ b'a') ↔ (op_flags op ≡ log_unsuccess))
      × ((legend_char op_flags op ≡ b's') ↔ (op_flags op ≡ log_success))
      × (legend_char op_flags op ≢ b'u')
unfolding legend_char
legend_char_lem op_flags op = (ground arith, ground arith, ground arith)

legend-Legend : (op_flags : FuseOp → ℕ) → Legend op_flags (legend op_flags)
unfolding legend legend_char
legend-Legend op_flags = record {
  columns = refl;
  failures = λ op e. char_at (legend_char op_flags) op ∙ ap some (ground (arith, e));
  successes = λ op e. char_at (legend_char op_flags) op ∙ ap some (ground (arith, e));
  others = λ op f g. char_at (legend_char op_flags) op ∙ ap some (ground (arith, f, g));
}

All-append : {A : Type 0} (P : A → Type 0) (xs ys : List A) → All P xs → All P ys → All P (xs ++ ys)
All-append P [] ys p q = q
All-append P (x ∷ xs) ys (p, ps) q = (p, All-append P xs ys ps q)

path_copies-plain : (paths : List (Option Text)) → All (λ b. plain b ≡ true) (path_copies paths)
path_copies-plain [] = tt
path_copies-plain (none ∷ paths) = path_copies-plain paths
path_copies-plain (some path ∷ paths) = (refl, path_copies-plain paths)

path_blocks-plain : (paths : List (Option Text)) → All (λ b. plain b ≡ true) (path_blocks paths)
path_blocks-plain [] = tt
path_blocks-plain (p ∷ paths) = (refl, path_copies-plain (p ∷ paths))

own_blocks-plain : (f : FilterDesc) → All (λ b. plain b ≡ true) (own_blocks f)
own_blocks-plain f = (
  refl,
  (
    refl,
    All-append (λ b. plain b ≡ true) (path_blocks f.exclude_path) (path_blocks f.include_path)
        (path_blocks-plain f.exclude_path) (path_blocks-plain f.include_path),
  ),
)

-- The blocks of a list of paths, by its length, and those of `main`.
abbrev blocks_for : List (Option Text) → ℕ
blocks_for paths = min 1 (length paths) + length paths

abbrev pub allocated : FilterDesc → ℕ
allocated f = 2 + blocks_for f.exclude_path + blocks_for f.include_path

length-map-some : (texts : List Text) → length (map some texts) ≡ length texts
length-map-some [] = refl
length-map-some (t ∷ texts) = omega (arith, length-map-some texts)

length-path_copies : (texts : List Text) → length (path_copies (map some texts)) ≡ length texts
length-path_copies [] = refl
length-path_copies (t ∷ texts) = omega (arith, length-path_copies texts)

length-path_blocks :
    (texts : List Text) → length (path_blocks (map some texts)) ≡ blocks_for (map some texts)
length-path_blocks [] = refl
length-path_blocks (t ∷ texts) = omega (arith, length-path_copies texts, length-map-some texts)

length-own_blocks : (f : FilterDesc) → Assigned f → length (own_blocks f) ≡ allocated f
length-own_blocks f a =
    let exc = ap (λ ps. length (path_blocks ps)) a.exclude_path in
    let inc = ap (λ ps. length (path_blocks ps)) a.include_path in
    let exc' = ap blocks_for a.exclude_path in
    let inc' = ap blocks_for a.include_path in
    omega (
      arith,
      length-append (path_blocks f.exclude_path) (path_blocks f.include_path),
      exc,
      inc,
      exc',
      inc',
      length-path_blocks a.excludes,
      length-path_blocks a.includes,
    )

module _ (kh : Khash) (laws : KhashLaws kh) {W : Type 0} where
  -- The beginning of a run of FUSE: the blocks that `main` allocated for itself are set aside, the log is
  -- empty, and the state is ready for `n` events.
  pub record Begun (conf : Parsed) (n : ℕ) (s : State kh.Table W) : Type 0 where
    pub aside : List ℕ
    pub number : length aside ≡ allocated conf.filter
    pub ready : Ready kh aside n s
    pub nothing : (q : Text) → view kh s.heap s.table q ≡ none

  -- With a filter whose paths were all assigned, the state in which `main` calls FUSE has no fault in its
  -- memory, in which are the blocks that `main` allocated for itself: its arguments, its filter, and for
  -- each list of paths that is not empty the array and the copies. The log is empty, and there is room
  -- for as many events as a count and the hash can hold.
  pub initial-Begun :
      (conf : Parsed) (world : W) (errno n : ℕ)
      → Assigned conf.filter
      → n ≤ int_max
      → n ≤ kh.capacity
      → Begun conf n (initial kh conf world errno)
  unfolding initial
  initial-Begun conf world errno n a room few =
      let x =
        alloc_all-SetAside kh laws 32 (own_blocks conf.filter) [] Memory.empty
          (own_blocks-plain conf.filter) (empty-Sound kh laws 32) in
      record {
        aside = x.aside;
        number = omega (arith, x.number, length-own_blocks conf.filter a);
        ready =
            new-Ready kh laws 32 x.aside (initial kh conf world errno) n x.sound refl refl a room
              few;
        nothing = view-new kh laws 32 (Memory.alloc_all (own_blocks conf.filter) Memory.empty);
      }

  -- The report of a state: the lines of its log, and a memory with the blocks that are set aside alone.
  pub record Reported (dest : Dest) (temps : List ℕ) (s : State kh.Table W)
      (v : Sound kh temps s.heap s.table) : Type 0 where
    pub listing : Listing kh laws s.heap s.table v.valid (print_hash kh (some s.table) s.heap)
    pub heap : Heap
    pub only : Only temps heap
    pub rows : Legend s.op_flags (legend s.op_flags)
    pub result :
        write_report kh dest s
        ≡ some (
          record {
            dest = dest;
            size = kh.kh_size s.table;
            op_legend = legend s.op_flags;
            entries = printed listing.lines;
          },
          heap,
        )

  -- From a sound log, the end of `main` does not fault: it writes the size, the legend and the lines of
  -- the log, each key once and as the log shows it, as many as the size, and gives back every block but
  -- those that are set aside. A mask has the letter of its column, in the row that `main` prints above
  -- the log, for each operation whose bit is set, and a dot for any other; the legend has `a` for an
  -- operation of which failures are logged alone, `s` for successes alone, and a dot for any other.
  pub write_report-Reported :
      (dest : Dest) {temps : List ℕ} (s : State kh.Table W) (v : Sound kh temps s.heap s.table)
      → Reported dest temps s v
  unfolding write_report
  write_report-Reported dest {temps} s v =
      let l = print_hash-Listing kh laws s.heap s.table v.valid in
      let (h, run, only) = free_hash-Only kh laws temps s.table s.heap v in
      record {
        listing = l;
        heap = h;
        only = only;
        rows = legend-Legend s.op_flags;
        result = rw (write_report, l.result, run) refl;
      }
