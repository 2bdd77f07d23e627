-- ===== src/Args/Vector.antt =====
-- What `processArgs` leaves for FUSE: the argument vector within its bounds, with the mount point in
-- its place.
use distiller_fs.Prelude.{
  ℕ, codes, ◌≤◌, ◌<◌, ◌==◌, ◌≡◌, refl, sym, ap, ◌∙◌, subst, Text, List, [], ◌∷◌, ◌++◌, Bool, true,
  false, Option, none, some, length, length-append, Option-cases, Bool-cases, inl, inr, arith,
  bind_some, Run, pure, ◌>>=◌, ◌>>◌, if◌then◌else◌, ltb,
}
use distiller_fs.Args.{
  LoggedFsArgs, max_fuse_args, is_absolute_path, common_opts, push_arg, modify, read_option,
  read_options, push_args, set_second, read_mount, process_args,
}

-- From a state with `P`, whatever `m` returns without a fault has `Q`.
abbrev Ensures :
    {A : Type 0}
    → (LoggedFsArgs → Type 0)
    → Run LoggedFsArgs A
    → (A → LoggedFsArgs → Type 0)
    → Type 0
Ensures {A} P m Q =
    (out : LoggedFsArgs) (a : A) (out' : LoggedFsArgs) → P out → m out ≡ some (a, out') → Q a out'

nothing-some :
    {A B : Type 0} (m : Run LoggedFsArgs A) (f : A → Run LoggedFsArgs B) (out : LoggedFsArgs)
    → m out ≡ none
    → (m >>= f) out ≡ none
nothing-some {A} {B} m f out e =
    ap
      (λ (r : Option (A × LoggedFsArgs)).
        let y : Option (B × LoggedFsArgs) = elim r [ none ↦ none | some (b, u) ↦ f b u ] in y)
      e

ensures_bind :
    {A B : Type 0} (P : LoggedFsArgs → Type 0) (m : Run LoggedFsArgs A) (f : A → Run LoggedFsArgs B)
    (Q : A → LoggedFsArgs → Type 0) (R : B → LoggedFsArgs → Type 0)
    → Ensures P m Q
    → ((a : A) → Ensures (Q a) (f a) R)
    → Ensures P (m >>= f) R
ensures_bind P m f Q R first second out b out' p e = elim (Option-cases (m out)) [
  | inl fault ↦ absurd (cc (nothing-some m f out fault, e))
  | inr ((a, mid), run) ↦
      second a mid b out' (first out a mid p run) (sym (bind_some m f out run) ∙ e)
]

args_of : {A : Type 0} → LoggedFsArgs → Option (A × LoggedFsArgs) → LoggedFsArgs
args_of out none = out
args_of out (some (a, out')) = out'

ensures_pure : {A : Type 0} (P : LoggedFsArgs → Type 0) (a : A) → Ensures P (pure a) (λ (b : A). P)
unfolding args_of
ensures_pure P a out b out' p e = subst P (ap (args_of out) e) p

ensures_if :
    {A : Type 0} (P : LoggedFsArgs → Type 0) (Q : A → LoggedFsArgs → Type 0) (b : Bool)
    (m n : Run LoggedFsArgs A)
    → Ensures P m Q
    → Ensures P n Q
    → Ensures P (if b then m else n) Q
ensures_if P Q true m n p q = p
ensures_if P Q false m n p q = q

-- The vector starts with the name of the program and one more element, and fits the array.
pub record Vector (name : Text) (second mount : Option Text) (out : LoggedFsArgs) : Type 0 where
  pub mounted : out.mount_point ≡ mount
  pub rest : List (Option Text)
  pub argv : out.fuse_argv ≡ some name ∷ second ∷ rest
  pub short : length out.fuse_argv ≤ max_fuse_args

module _ (name : Text) (second mount : Option Text) where
  abbrev V : LoggedFsArgs → Type 0
  V = Vector name second mount

  push_arg-Vector : (arg : Text) → Ensures V (push_arg arg) (λ _. V)
  unfolding push_arg args_of
  push_arg-Vector arg out a out' v e =
      elim (Bool-cases (ltb (length out.fuse_argv) max_fuse_args)) [
        | inl room ↦
            let grown : LoggedFsArgs = record out { fuse_argv = out.fuse_argv ++ some arg ∷ [] } in
            let run : push_arg arg out ≡ some (tt, grown) = rw (push_arg, room) refl in
            let same : grown ≡ out' = ap (args_of out) (sym run ∙ e) in
            let below : length out.fuse_argv < max_fuse_args = ground (arith, room) in
            subst V same (record {
              mounted = v.mounted;
              rest = v.rest ++ some arg ∷ [];
              argv = rw v.argv refl;
              short = omega (arith, length-append out.fuse_argv (some arg ∷ []), below);
            })
        | inr full ↦
            let run : push_arg arg out ≡ none = rw (push_arg, full) refl in absurd (cc (run, e))
      ]

  push_args-Vector : (args : List Text) → Ensures V (push_args args) (λ _. V)
  unfolding push_args
  push_args-Vector [] = ensures_pure V tt
  push_args-Vector (arg ∷ args) =
      ensures_bind V (push_arg arg) (λ _. push_args args) (λ _. V) (λ _. V) (push_arg-Vector arg)
        (λ _. push_args-Vector args)

  -- An option that sets other fields.
  modify-Vector :
      (f : LoggedFsArgs → LoggedFsArgs)
      → ((out : LoggedFsArgs) → (f out).fuse_argv ≡ out.fuse_argv)
      → ((out : LoggedFsArgs) → (f out).mount_point ≡ out.mount_point)
      → Ensures V (modify f) (λ _. V)
  unfolding args_of
  modify-Vector f kept same out a out' v e = subst V (ap (args_of out) e) (record {
    mounted = same out ∙ v.mounted;
    rest = v.rest;
    argv = kept out ∙ v.argv;
    short = rw (kept out) v.short;
  })

  -- Options that push two arguments.
  push_two-Vector :
      {A : Type 0} (first second_arg : Text) (a : A)
      → Ensures V (push_arg first >> (push_arg second_arg >> pure a)) (λ _. V)
  push_two-Vector first second_arg a =
      ensures_bind V (push_arg first) (λ _. push_arg second_arg >> pure a) (λ _. V) (λ _. V)
        (push_arg-Vector first)
        (λ _.
          ensures_bind V (push_arg second_arg) (λ _. pure a) (λ _. V) (λ _. V)
            (push_arg-Vector second_arg) (λ _. ensures_pure V a))

  read_option-Vector :
      (res : ℕ) (optarg : Text) (got_p : Bool) → Ensures V (read_option res optarg got_p) (λ _. V)
  unfolding read_option
  read_option-Vector res optarg got_p =
      ensures_if V (λ _. V) (res == b'h') _ _ (ensures_pure V none)
        (ensures_if V (λ _. V) (res == b'f') _ _
          (ensures_bind V (modify (λ out. record out { is_daemon = false; log_to_syslog = false }))
            _ (λ _. V) (λ _. V) (modify-Vector _ (λ out. refl) (λ out. refl))
            (λ _.
              ensures_bind V (push_arg (codes "-f")) _ (λ _. V) (λ _. V) (push_arg-Vector _)
                (λ _. ensures_pure V (some got_p))))
          (ensures_if V (λ _. V) (res == b'p') _ _ (push_two-Vector _ _ _)
            (ensures_if V (λ _. V) (res == b'e') _ _ (push_two-Vector _ _ _)
              (ensures_if V (λ _. V) (res == b'c') _ _
                (ensures_bind V (modify (λ out. record out { config_filename = some optarg })) _
                  (λ _. V) (λ _. V) (modify-Vector _ (λ out. refl) (λ out. refl))
                  (λ _. ensures_pure V (some got_p)))
                (ensures_if V (λ _. V) (res == b'l') _ _
                  (ensures_bind V
                    (modify
                      (λ out. record out { log_to_syslog = false; log_filename = some optarg }))
                    _ (λ _. V) (λ _. V) (modify-Vector _ (λ out. refl) (λ out. refl))
                    (λ _. ensures_pure V (some got_p)))
                  (ensures_pure V (some got_p)))))))

  next_Vector :
      (rest : List (ℕ × Text)) (next : Option Bool)
      → ((got : Bool) → Ensures V (read_options rest got) (λ _. V))
      → Ensures {A = Option Bool} V
          (elim next [ none ↦ pure none | some got ↦ read_options rest got ])
          (λ _. V)
  next_Vector rest none all = ensures_pure V none
  next_Vector rest (some got) all = all got

  read_options-Vector :
      (options : List (ℕ × Text)) (got_p : Bool) → Ensures V (read_options options got_p) (λ _. V)
  unfolding read_options
  read_options-Vector [] got_p = ensures_pure V (some got_p)
  read_options-Vector ((res, optarg) ∷ rest) got_p =
      ensures_bind V (read_option res optarg got_p) _ (λ _. V) (λ _. V)
        (read_option-Vector res optarg got_p)
        (λ next. next_Vector rest next (read_options-Vector rest))

bool_of : Bool → Option (Bool × LoggedFsArgs) → Bool
bool_of b none = b
bool_of b (some (a, out')) = a

-- The state that `processArgs` leaves where it returns true.
pub record Mounted (name : Text) (out : LoggedFsArgs) : Type 0 where
  pub mount : Text
  pub absolute : is_absolute_path mount ≡ true
  pub vector : Vector name (some mount) (some mount) out

abbrev IfTrue : Text → Bool → LoggedFsArgs → Type 0
IfTrue name b out = b ≡ true → Mounted name out

false_Mounted : (name : Text) (P : LoggedFsArgs → Type 0) → Ensures P (pure false) (IfTrue name)
false_Mounted name P out b out' p e t = absurd (cc (e, t))

mount_Vector :
    (name m : Text) (mount : Option Text)
    → Ensures
        (Vector name none mount)
        (modify
          (λ out. record out { mount_point = some m; fuse_argv = set_second m out.fuse_argv }))
        (λ _. Vector name (some m) (some m))
unfolding args_of set_second
mount_Vector name m mount out a out' v e =
    subst (Vector name (some m) (some m)) (ap (args_of out) e) (record {
      mounted = refl;
      rest = v.rest;
      argv = rw v.argv refl;
      short = rw v.argv (rw v.argv at v.short);
    })

read_mount_Mounted :
    (name : Text) (mount : Option Text) (rest : List Text)
    → Ensures (Vector name none mount) (read_mount rest) (IfTrue name)
unfolding read_mount bool_of args_of
read_mount_Mounted name mount [] = false_Mounted name (Vector name none mount)
read_mount_Mounted name mount (m ∷ extra) =
    ensures_bind (Vector name none mount) _ _ (λ _. Vector name (some m) (some m)) (IfTrue name)
      (mount_Vector name m mount)
      (λ _.
        ensures_bind (Vector name (some m) (some m)) (push_args extra)
          (λ _. pure (is_absolute_path m)) (λ _. Vector name (some m) (some m)) (IfTrue name)
          (push_args-Vector name (some m) (some m) extra)
          (λ _ out b out' v e t. record {
            mount = m;
            absolute = ap (bool_of false) e ∙ t;
            vector = subst (Vector name (some m) (some m)) (ap (args_of out) e) v;
          }))

module _ (name : Text) (mount : Option Text) where
  abbrev V0 : LoggedFsArgs → Type 0
  V0 = Vector name none mount

  common_Vector :
      (got_p : Bool)
      → Ensures V0
          (if got_p then pure tt else (push_arg (codes "-o") >> push_arg common_opts))
          (λ _. V0)
  common_Vector got_p =
      ensures_if V0 (λ _. V0) got_p _ _ (ensures_pure V0 tt)
        (ensures_bind V0 (push_arg (codes "-o")) (λ _. push_arg common_opts) (λ _. V0) (λ _. V0)
          (push_arg-Vector name none mount (codes "-o"))
          (λ _. push_arg-Vector name none mount common_opts))

  got_Mounted :
      (rest : List Text) (got : Option Bool)
      → Ensures V0
          (elim got [
            | none ↦ pure false
            | some got_p ↦ (do
              if got_p then pure tt else (do push_arg (codes "-o"); push_arg common_opts)
              read_mount rest)
          ])
          (IfTrue name)
  got_Mounted rest none = false_Mounted name V0
  got_Mounted rest (some got_p) =
      ensures_bind V0 _ (λ _. read_mount rest) (λ _. V0) (IfTrue name) (common_Vector got_p)
        (λ _. read_mount_Mounted name mount rest)

-- Where `processArgs` returns true, the mount point is absolute; the argument vector for FUSE starts
-- with the name of the program and the mount point, and its length is within `MaxFuseArgs`.
pub process_args-Mounted :
    (name : Text) (options : List (ℕ × Text)) (rest : List Text) (blank out : LoggedFsArgs)
    → process_args name options rest blank ≡ some (true, out)
    → Mounted name out
unfolding process_args
process_args-Mounted name options rest blank out e =
    ensures_bind (Vector name none blank.mount_point) (read_options options false) _
      (λ _. Vector name none blank.mount_point) (IfTrue name)
      (read_options-Vector name none blank.mount_point options false)
      (got_Mounted name blank.mount_point rest) _ true out
      (record { mounted = refl; rest = []; argv = refl; short = omega arith }) e refl
