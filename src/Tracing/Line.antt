-- ===== src/Tracing/Line.antt =====
-- The line that syscall prints for a traced call, as the console gets it.
use learning_mits.Base.{
  ℕ, ◌≡◌, refl, ap, sym, ◌∙◌, Bool, true, false, some, List, [], ◌∷◌, ◌++◌, ◌==◌, if◌then◌else◌,
  inl, inr, Bool-cases,
}
use learning_mits.Kernel.{
  Kernel, M, Event, ok, putc, acquired, released, acquire, release, pr_lock, when, ◌>>=◌,
}
use learning_mits.Printf.{
  Argument, codes, puts, put_backwards, printint, printint_buf, printf, format, format_loop,
  convert, print, int_arg, str_arg,
}

-- The characters as events behind a trace.
abbrev pub typed : List ℕ → List Event → List Event
typed [] t = t
typed (c ∷ cs) t = typed cs (putc c ∷ t)

abbrev typed_on : List ℕ → Kernel → Kernel
typed_on cs k = record k { trace = typed cs k.trace }

abbrev backwards : List ℕ → List ℕ
backwards [] = []
backwards (c ∷ cs) = backwards cs ++ (c ∷ [])

typed-append : (cs ds : List ℕ) (t : List Event) → typed (cs ++ ds) t ≡ typed ds (typed cs t)
typed-append [] ds t = refl
typed-append (c ∷ cs) ds t = typed-append cs ds (putc c ∷ t)

puts-typed : (cs : List ℕ) (k : Kernel) → puts cs k ≡ ok tt (typed_on cs k)
unfolding puts
puts-typed [] k = refl
puts-typed (c ∷ cs) k = puts-typed cs (record k { trace = putc c ∷ k.trace })

put_backwards-typed :
    (cs : List ℕ) (k : Kernel) → put_backwards cs k ≡ ok tt (typed_on (backwards cs) k)
unfolding put_backwards
put_backwards-typed [] k = refl
put_backwards-typed (c ∷ cs) k =
    rw (put_backwards-typed cs k) (rw (typed-append (backwards cs) (c ∷ []) k.trace) refl)

-- An int in decimal digits, the highest first, after a '-' when it is negative.
unfoldable pub decimal : ℕ → List ℕ
decimal x = backwards (printint_buf x 10 true)

printint-typed : (x : ℕ) (k : Kernel) → printint x 10 true k ≡ ok tt (typed_on (decimal x) k)
unfolding printint decimal
printint-typed x k = put_backwards-typed (printint_buf x 10 true) k

unfoldable pub trace_line : ℕ → List ℕ → ℕ → List ℕ
unfolding decimal
trace_line pid name res =
    decimal pid ++ (codes ": syscall " ++ (name ++ (codes " -> " ++ (decimal res ++ codes "\n"))))

abbrev no_percent : List ℕ → Bool
no_percent [] = true
no_percent (c ∷ s) = if c == b'%' then false else no_percent s

no_percent-head : (c : ℕ) (s : List ℕ) → (c == b'%') ≡ true → no_percent (c ∷ s) ≡ false
no_percent-head c s e = rw e refl

no_percent-tail : (c : ℕ) (s : List ℕ) → (c == b'%') ≡ false → no_percent (c ∷ s) ≡ no_percent s
no_percent-tail c s e = rw e refl

module _ (fmt : List ℕ) (args : List Argument) (k : Kernel) where
  format-decimal :
      (x : ℕ)
      → format_loop false (b'%' ∷ b'd' ∷ fmt) (int_arg x ∷ args) k
        ≡ format_loop false fmt args (typed_on (decimal x) k)
  unfolding format_loop convert
  format-decimal x = rw (printint-typed x k) refl

  format-string :
      (s : List ℕ)
      → format_loop false (b'%' ∷ b's' ∷ fmt) (str_arg (some s) ∷ args) k
        ≡ format_loop false fmt args (typed_on s k)
  unfolding format_loop convert
  format-string s = rw (puts-typed s k) refl

  format-plain :
      (s : List ℕ)
      → no_percent s ≡ true
      → format_loop false (s ++ fmt) args k ≡ format_loop false fmt args (typed_on s k)
  unfolding format_loop
  format-plain s = plain s k
    where
      plain :
          (s : List ℕ) (k : Kernel)
          → no_percent s ≡ true
          → format_loop false (s ++ fmt) args k ≡ format_loop false fmt args (typed_on s k)
      plain [] k h = refl
      plain (c ∷ s) k h = elim (Bool-cases (c == b'%')) [
        | inl e ↦ absurd (cc (no_percent-head c s e, h))
        | inr ne ↦
            rw ne
              (plain s (record k { trace = putc c ∷ k.trace }) (sym (no_percent-tail c s ne) ∙ h))
      ]

format-end : (k : Kernel) → format_loop false [] [] k ≡ ok tt k
unfolding format_loop
format-end k = refl

line-typed :
    (pid res : ℕ) (name : List ℕ) (t : List Event)
    → typed (trace_line pid name res) t
      ≡ typed (codes "\n") (
          typed (decimal res) (
            typed (codes " -> ") (typed name (typed (codes ": syscall ") (typed (decimal pid) t)))))
unfolding trace_line
line-typed pid res name t =
    typed-append (decimal pid)
      (codes ": syscall " ++ (name ++ (codes " -> " ++ (decimal res ++ codes "\n")))) t
    ∙ typed-append name (codes " -> " ++ (decimal res ++ codes "\n"))
        (typed (codes ": syscall ") (typed (decimal pid) t))
    ∙ typed-append (decimal res) (codes "\n")
        (typed (codes " -> ") (typed name (typed (codes ": syscall ") (typed (decimal pid) t))))

-- What is left of the format behind each conversion.
abbrev behind_pid : List ℕ
behind_pid = codes ": syscall %s -> %d\n"

abbrev behind_name : List ℕ
behind_name = codes " -> %d\n"

abbrev end_of_line : List ℕ
end_of_line = codes "\n"

format-line :
    (pid res : ℕ) (name : List ℕ) (k : Kernel)
    → format_loop false
        (codes "%d: syscall %s -> %d\n")
        (int_arg pid ∷ str_arg (some name) ∷ int_arg res ∷ [])
        k
      ≡ ok tt (typed_on (trace_line pid name res) k)
format-line pid res name k =
    format-decimal behind_pid (str_arg (some name) ∷ int_arg res ∷ []) k pid
    ∙ format-plain (b'%' ∷ b's' ∷ behind_name) (str_arg (some name) ∷ int_arg res ∷ []) k1
        (codes ": syscall ") refl
    ∙ format-string behind_name (int_arg res ∷ []) k2 name
    ∙ format-plain (b'%' ∷ b'd' ∷ end_of_line) (int_arg res ∷ []) k3 (codes " -> ") refl
    ∙ format-decimal end_of_line [] k4 res
    ∙ format-plain [] [] k5 end_of_line refl
    ∙ format-end k6
    ∙ ap (λ t. ok tt (record k { trace = t })) (sym (line-typed pid res name k.trace))
  where
    k1 : Kernel
    k1 = typed_on (decimal pid) k

    k2 : Kernel
    k2 = typed_on (codes ": syscall ") k1

    k3 : Kernel
    k3 = typed_on name k2

    k4 : Kernel
    k4 = typed_on (codes " -> ") k3

    k5 : Kernel
    k5 = typed_on (decimal res) k4

    k6 : Kernel
    k6 = typed_on (codes "\n") k5

bracketed :
    (b : Bool) (m : M (Unit {0})) (k k' : Kernel)
    → b ≡ true
    → m (record k { trace = acquired pr_lock ∷ k.trace }) ≡ ok tt k'
    → (when b (acquire pr_lock) >>= λ _. m >>= λ _. when b (release pr_lock)) k
      ≡ ok tt (record k' { trace = released pr_lock ∷ k'.trace })
bracketed b m k k' locking e = rw locking (rw e refl)

pub print-line :
    (pid res : ℕ) (name : List ℕ) (k : Kernel)
    → k.pr_locking ≡ true
    → print "%d: syscall %s -> %d\n" (int_arg pid ∷ str_arg (some name) ∷ int_arg res ∷ []) k
      ≡ ok tt (record k {
        trace = released pr_lock ∷ typed (trace_line pid name res) (acquired pr_lock ∷ k.trace);
      })
unfolding printf format
print-line pid res name k locking =
    bracketed k.pr_locking
      (format_loop false (codes "%d: syscall %s -> %d\n")
        (int_arg pid ∷ str_arg (some name) ∷ int_arg res ∷ []))
      k _ locking (format-line pid res name (record k { trace = acquired pr_lock ∷ k.trace }))
