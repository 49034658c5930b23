-- ===== src/Tests/Console.antt =====
-- printf on literals, and printint at a negative number.
use learning_mits.Base.{
  ℕ, ◌-◌, ◌^◌, ◌≤◌, ◌≡◌, refl, true, List, [], ◌∷◌, ◌++◌, ◌&&◌, arith, if◌then◌else◌, length,
}
use learning_mits.Kernel.{Event, putc}
use learning_mits.Printf.{codes, printint_buf, is_negative}
use learning_mits.Printf.Digits.{ten, value, printint_reads_back}

printint_reads_back_example :
    (ds : List ℕ) × (printint_buf 0xffff_fff9 10 true
      ≡ ds ++ (if true && is_negative 0xffff_fff9 then b'-' ∷ [] else []))
    × (value 10 ds
        ≡ (if true && is_negative 0xffff_fff9 then 2 ^ 32 - 0xffff_fff9 else 0xffff_fff9))
    × (length (printint_buf 0xffff_fff9 10 true) ≤ 11)
printint_reads_back_example = printint_reads_back 0xffff_fff9 true ten (omega arith)

-- The characters of a run, the oldest first.
abbrev written : List ℕ → List Event → List ℕ
written out [] = out
written out (putc c ∷ es) = written (c ∷ out) es
written out (e ∷ es) = written out es

minus_seven : printint_buf 0xffff_fff9 10 true ≡ codes "7-"
unfolding printint_buf
minus_seven = refl
