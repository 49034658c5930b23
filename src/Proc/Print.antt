-- ===== src/Proc/Print.antt =====
-- procdump of proc.c.
use Prim.Native.String.{String}
use learning_mits.Base.{ℕ, zero, suc, ◌+◌, some, [], ◌∷◌, if◌then◌else◌}
use learning_mits.Kernel.{
  ProcState, unused, used, sleeping, runnable, running, zombie, M, pure, ◌>>=◌, ◌>>◌, gets,
}
use learning_mits.Layout.{Layout}
use learning_mits.Printf.{codes, c_string, print, int_arg, str_arg}
use learning_mits.Proc.Table.{is_unused}

-- `states[p->state]`; the entry of USED is null, and prints as "???".
unfoldable pub state_name : ProcState → String
state_name unused = "unused"
state_name used = "???"
state_name sleeping = "sleep "
state_name runnable = "runble"
state_name running = "run   "
state_name zombie = "zombie"

unfoldable pub procdump_from : ℕ → ℕ → M (Unit {0})
unfolding state_name c_string
procdump_from zero i = pure tt
procdump_from (suc n) i = do
  p ← gets (λ k. k.proc i)
  if is_unused p.state then procdump_from n (i + 1) else do
    print "%d %s %s" (
        int_arg p.pid
        ∷ str_arg (some (codes (state_name p.state)))
        ∷ str_arg (some (c_string p.name))
        ∷ [])
    print "\n" []
    procdump_from n (i + 1)

module _ ⦃l : Layout⦄ where
  open l use {nproc}

  unfoldable pub procdump : M (Unit {0})
  unfolding procdump_from
  procdump = do print "\n" []; procdump_from nproc 0
