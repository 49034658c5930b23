-- ===== src/Printf.antt =====
-- Lab_traps/printf.c: formatted console output. A character goes out as the event `putc`; the last
-- one written is the newest event. `panic` prints and spins for ever: it is the outcome `panic` of
-- a run, and its output is left out.
pub mod Digits
pub mod Keeps
use Prim.Native.Char.{code}
use Prim.Native.String
use Prim.Native.String.{String}
use learning_mits.Base.{
  ℕ, zero, suc, ◌+◌, ◌-◌, ◌*◌, ◌/◌, ◌%◌, ◌^◌, ◌<◌, Bool, true, false, not, ◌&&◌, Option, none, some,
  List, [], ◌∷◌, ◌++◌, ◌==◌, leb, ltb, if◌then◌else◌,
}
use learning_mits.Kernel.{
  Kernel, M, pure, ◌>>=◌, ◌>>◌, fail, when, gets, modify, record_event, putc, acquire, release,
  initialized, pr_lock, bad_argument, null_fmt, out_of_fuel,
}
use learning_mits.Riscv.{pgroundup, pgrounddown, sub64, u64}
use learning_mits.Kernel.Memory.{load}

-- The characters of a literal.
abbrev pub codes : String → List ℕ
codes String.[] = []
codes (String.◌∷◌ c s) = code c ∷ codes s

-- The characters of a buffer up to its '\0'.
unfoldable pub c_string : List ℕ → List ℕ
c_string [] = []
c_string (c ∷ cs) = if c == 0 then [] else c ∷ c_string cs

-- `digits[d]`, for d below 16
abbrev pub digit : ℕ → ℕ
digit d = if ltb d 10 then d + b'0' else d - 10 + b'a'

abbrev pub consputc : ℕ → M (Unit {0})
consputc c = record_event (putc c)

unfoldable pub puts : List ℕ → M (Unit {0})
puts [] = pure tt
puts (c ∷ cs) = do consputc c; puts cs

-- The do-while of printint: the digits of x, the lowest first. A uint has 32 of them at most.
unfoldable pub digits_loop : ℕ → ℕ → ℕ → List ℕ
digits_loop zero base x = []
digits_loop (suc f) base x =
    let rest = digits_loop f base (x / base) in
    digit (x % base) ∷ (if x / base == 0 then [] else rest)

unfoldable pub is_negative : ℕ → Bool
is_negative xx = leb (2 ^ 31) xx

-- `buf` when its loops are done; `xx` is the bit pattern of an int.
unfoldable pub printint_buf : ℕ → ℕ → Bool → List ℕ
unfolding digits_loop is_negative
printint_buf xx base sign =
    if sign && is_negative xx
    then digits_loop 32 base ((2 ^ 32 - xx) % 2 ^ 32) ++ (b'-' ∷ [])
    else digits_loop 32 base xx

-- The loop that writes `buf` backwards.
unfoldable pub put_backwards : List ℕ → M (Unit {0})
put_backwards [] = pure tt
put_backwards (c ∷ cs) = do put_backwards cs; consputc c

unfoldable pub printint : ℕ → ℕ → Bool → M (Unit {0})
unfolding printint_buf put_backwards
printint xx base sign = put_backwards (printint_buf xx base sign)

-- The characters of the loop of printptr: the top four bits, then `x <<= 4`.
unfoldable pub nibbles : ℕ → ℕ → List ℕ
nibbles zero x = []
nibbles (suc n) x = digit (x / 2 ^ 60) ∷ nibbles n (u64 (x * 16))

unfoldable pub printptr : ℕ → M (Unit {0})
unfolding nibbles puts
printptr x = do consputc b'0'; consputc b'x'; puts (nibbles 16 x)

-- What `va_arg` finds: an int's bit pattern, a uint64, or a string, `none` for a null pointer.
pub data Argument : Type 0 where
  int_arg : ℕ → Argument
  ptr_arg : ℕ → Argument
  str_arg : Option (List ℕ) → Argument

-- One conversion with the argument it takes.
unfoldable pub convert : ℕ → Argument → M (Unit {0})
unfolding printint printptr puts
convert c (int_arg x) =
    if c == b'd'
    then printint x 10 true
    else if c == b'x'
    then printint x 16 true
    else fail bad_argument
convert c (ptr_arg x) = if c == b'p' then printptr x else fail bad_argument
convert c (str_arg none) = if c == b's' then puts (codes "(null)") else fail bad_argument
convert c (str_arg (some s)) = if c == b's' then puts s else fail bad_argument

abbrev pub takes_argument : ℕ → Bool
takes_argument c =
    if c == b'd' then true else if c == b'x' then true else if c == b'p' then true else c == b's'

-- The loop of printf over the rest of the format; `after_percent` says that the last character was
-- a '%'. Too few arguments are `bad_argument`.
unfoldable pub format_loop : Bool → List ℕ → List Argument → M (Unit {0})
unfolding convert
format_loop after_percent [] args = pure tt
format_loop false (c ∷ fmt) args =
    if c == b'%' then format_loop true fmt args else (do consputc c; format_loop false fmt args)
format_loop true (c ∷ fmt) [] =
    if takes_argument c
    then fail bad_argument
    else if c == b'%'
    then (do consputc b'%'; format_loop false fmt [])
    else (do consputc b'%'; consputc c; format_loop false fmt [])
format_loop true (c ∷ fmt) (a ∷ args) =
    if takes_argument c
    then (do convert c a; format_loop false fmt args)
    else if c == b'%'
    then (do consputc b'%'; format_loop false fmt (a ∷ args))
    else (do consputc b'%'; consputc c; format_loop false fmt (a ∷ args))

-- `none` is a null format.
unfoldable pub format : Option (List ℕ) → List Argument → M (Unit {0})
unfolding format_loop
format none args = fail null_fmt
format (some s) args = format_loop false s args

unfoldable pub printf : Option (List ℕ) → List Argument → M (Unit {0})
unfolding format
printf fmt args = do
  locking ← gets (λ k. k.pr_locking)
  when locking (acquire pr_lock)
  format fmt args
  when locking (release pr_lock)

-- A call with a literal for its format.
abbrev pub print : String → List Argument → M (Unit {0})
print s args = printf (some (codes s)) args

unfoldable pub printfinit : M (Unit {0})
printfinit = do record_event (initialized pr_lock); modify (λ k. record k { pr_locking = true })

-- The walk of backtrace from a frame pointer. Nothing in the code bounds it: `out_of_fuel` is a
-- walk that is longer than the fuel.
unfoldable pub backtrace_loop : ℕ → ℕ → M (Unit {0})
unfolding printf
backtrace_loop zero fp = λ _. out_of_fuel
backtrace_loop (suc f) fp =
    if not (fp == 0) && (leb (pgrounddown fp) fp && ltb fp (pgroundup fp))
    then (do
      return_address ← load (sub64 fp 8)
      print "%p\n" (ptr_arg return_address ∷ [])
      next ← load (sub64 fp 16)
      backtrace_loop f next)
    else pure tt

unfoldable pub backtrace : ℕ → ℕ → M (Unit {0})
unfolding backtrace_loop
backtrace fuel fp = do print "backtrace:\n" []; backtrace_loop fuel fp
