-- ===== src/Printf/Keeps.antt =====
-- Console output leaves the process table alone.
use learning_mits.Base.{
  ℕ, if◌then◌else◌, Bool, true, false, Option, none, some, List, [], ◌∷◌, ◌==◌,
}
use learning_mits.Kernel.{putc, M, ◌>>◌, bad_argument, when, acquire, release, pr_lock}
use learning_mits.Kernel.Keeps
use learning_mits.Kernel.Keeps.{Keeps, keeps_rules}
use learning_mits.Printf.{
  consputc, takes_argument, puts, put_backwards, printint, printptr, Argument, int_arg, ptr_arg,
  str_arg, convert, format_loop, format, printf,
}

puts-Keeps : (cs : List ℕ) → Keeps (puts cs)
unfolding puts
puts-Keeps [] = search keeps_rules
puts-Keeps (c ∷ cs) = Keeps.then-Keeps (Keeps.event-Keeps (putc c) tt) (puts-Keeps cs)

put_backwards-Keeps : (cs : List ℕ) → Keeps (put_backwards cs)
unfolding put_backwards
put_backwards-Keeps [] = search keeps_rules
put_backwards-Keeps (c ∷ cs) = search (keeps_rules, put_backwards-Keeps cs)

convert-Keeps : (c : ℕ) (a : Argument) → Keeps (convert c a)
unfolding convert printint printptr
convert-Keeps c (int_arg x) = search (keeps_rules, put_backwards-Keeps)
convert-Keeps c (ptr_arg x) = search (keeps_rules, puts-Keeps) depth 12
convert-Keeps c (str_arg none) = search (keeps_rules, puts-Keeps)
convert-Keeps c (str_arg (some s)) = search (keeps_rules, puts-Keeps)

percent-Keeps :
    (c : ℕ) {rest : M (Unit {0})}
    → Keeps rest
    → Keeps (if c == b'%' then (do consputc b'%'; rest) else (do consputc b'%'; consputc c; rest))
percent-Keeps c rest = search keeps_rules depth 12

format_loop-Keeps :
    (after : Bool) (fmt : List ℕ) (args : List Argument) → Keeps (format_loop after fmt args)
unfolding format_loop
format_loop-Keeps true [] args = search keeps_rules
format_loop-Keeps false [] args = search keeps_rules
format_loop-Keeps false (c ∷ fmt) args =
    Keeps.branch-Keeps (c == b'%') (format_loop-Keeps true fmt args)
      (Keeps.then-Keeps (Keeps.event-Keeps (putc c) tt) (format_loop-Keeps false fmt args))
format_loop-Keeps true (c ∷ fmt) [] =
    Keeps.branch-Keeps (takes_argument c) (Keeps.fail-Keeps bad_argument)
      (percent-Keeps c (format_loop-Keeps false fmt []))
format_loop-Keeps true (c ∷ fmt) (a ∷ args) =
    Keeps.branch-Keeps (takes_argument c)
      (Keeps.then-Keeps (convert-Keeps c a) (format_loop-Keeps false fmt args))
      (percent-Keeps c (format_loop-Keeps false fmt (a ∷ args)))

format-Keeps : (fmt : Option (List ℕ)) (args : List Argument) → Keeps (format fmt args)
unfolding format
format-Keeps none args = search keeps_rules
format-Keeps (some s) args = format_loop-Keeps false s args

locked-Keeps :
    (locking : Bool) {m : M (Unit {0})}
    → Keeps m
    → Keeps (do when locking (acquire pr_lock); m; when locking (release pr_lock))
locked-Keeps true t = Keeps.bracket-Keeps pr_lock t
locked-Keeps false t = search (keeps_rules, t)

pub printf-Keeps : (fmt : Option (List ℕ)) (args : List Argument) → Keeps (printf fmt args)
unfolding printf
printf-Keeps fmt args = search (keeps_rules, format-Keeps, locked-Keeps)
