-- ===== src/Logger/Threads/Order.antt =====
-- The order of events does not matter to the log, and so what threads still have to add to it can be
-- added one thread after another.
use mathlib.Core.Path.{fun_ext}
use distiller_fs.Prelude.{
  ℕ, ◌+◌, ◌≡◌, refl, ap, ◌∙◌, arith, Text, text_eq, text_eq_iff, List, [], ◌∷◌, Option, none, some,
  Bool, true, false, Bool-cases, inl, inr, bit_or_comm, bit_or_swap,
}
use distiller_fs.Filter.{FilterDesc}
use distiller_fs.Logger.Invariant.{Entry, bump}
use distiller_fs.Logger.View.{tally}
use distiller_fs.Logger.Store.{chosen, note}
use distiller_fs.Logger.Threads.{Call, Phase, idle, waiting, holding, looked, leaving}

abbrev pub Log : Type 0
Log = Text → Option Entry

bump_swap : (f g : ℕ) (e : Option Entry) → bump f (some (bump g e)) ≡ bump g (some (bump f e))
unfolding bump
bump_swap f g none = ap (λ (m : ℕ). record { count = 2; flags = m }) (bit_or_comm g f)
bump_swap f g (some e) =
    ap (λ (m : ℕ). record { count = e.count + 1 + 1; flags = m }) (bit_or_swap e.flags g f)

tally_swap_at :
    (p q : Text) (f g : ℕ) (log : Log) (r : Text)
    → tally p f (tally q g log) r ≡ tally q g (tally p f log) r
tally_swap_at p q f g log r = elim (Bool-cases (text_eq p q)) [
  | inl e ↦
      rw (← (text_eq_iff p q).0 e) (ground (arith, (text_eq_iff p p).1 refl, bump_swap f g (log p)))
  | inr e ↦ ground (arith, text_eq_iff p q, text_eq_iff q p, text_eq_iff p r, text_eq_iff q r)
]

pub tally_swap :
    (p q : Text) (f g : ℕ) (log : Log) → tally p f (tally q g log) ≡ tally q g (tally p f log)
tally_swap p q f g log = fun_ext (tally_swap_at p q f g log)

-- The calls of one thread, added to the log.
abbrev pub add_calls : FilterDesc → List Call → Log → Log
add_calls f [] log = log
add_calls f ((path, flag) ∷ calls) log = add_calls f calls (note (chosen f path) path flag log)

-- What a thread still has to add to the log, and what a list of threads has.
abbrev pub owes : FilterDesc → Phase → Log → Log
owes f (idle calls) log = add_calls f calls log
owes f (waiting path flag calls) log = add_calls f calls (tally path flag log)
owes f (holding path flag calls) log = add_calls f calls (tally path flag log)
owes f (looked path flag found calls) log = add_calls f calls (tally path flag log)
owes f (leaving calls) log = add_calls f calls log

abbrev pub all_owe : FilterDesc → List Phase → Log → Log
all_owe f [] log = log
all_owe f (p ∷ ps) log = all_owe f ps (owes f p log)

note-tally :
    (b : Bool) (p q : Text) (f g : ℕ) (log : Log)
    → note b p f (tally q g log) ≡ tally q g (note b p f log)
note-tally true p q f g log = tally_swap p q f g log
note-tally false p q f g log = refl

add_calls-tally :
    (d : FilterDesc) (calls : List Call) (q : Text) (g : ℕ) (log : Log)
    → add_calls d calls (tally q g log) ≡ tally q g (add_calls d calls log)
add_calls-tally d [] q g log = refl
add_calls-tally d ((path, flag) ∷ calls) q g log =
    ap (add_calls d calls) (note-tally (chosen d path) path q flag g log)
    ∙ add_calls-tally d calls q g (note (chosen d path) path flag log)

-- A thread adds the same before and after an event of another.
pub owes-tally :
    (d : FilterDesc) (p : Phase) (q : Text) (g : ℕ) (log : Log)
    → owes d p (tally q g log) ≡ tally q g (owes d p log)
owes-tally d (idle calls) q g log = add_calls-tally d calls q g log
owes-tally d (waiting path flag calls) q g log =
    ap (add_calls d calls) (tally_swap path q flag g log)
    ∙ add_calls-tally d calls q g (tally path flag log)
owes-tally d (holding path flag calls) q g log =
    ap (add_calls d calls) (tally_swap path q flag g log)
    ∙ add_calls-tally d calls q g (tally path flag log)
owes-tally d (looked path flag found calls) q g log =
    ap (add_calls d calls) (tally_swap path q flag g log)
    ∙ add_calls-tally d calls q g (tally path flag log)
owes-tally d (leaving calls) q g log = add_calls-tally d calls q g log
