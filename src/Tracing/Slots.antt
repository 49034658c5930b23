-- ===== src/Tracing/Slots.antt =====
-- What allocproc of Lab_syscall/proc.c does to the process table.
use learning_mits.Base.{
  update-here, update-other, ℕ, zero, suc, ◌+◌, ◌<◌, ◌≡◌, refl, ap, sym, ◌∙◌, ◌≢◌, inl, inr, true,
  false, Option, none, some, arith, ◌==◌, ==→eq, not, Bool-cases, eq→==, update,
}
use learning_mits.Kernel.{Kernel, Proc, used}
use learning_mits.Kernel.Ensures
use learning_mits.Kernel.Ensures.{Ensures, ensured, framed}
use learning_mits.Kernel.Keeps
use learning_mits.Kernel.Keeps.{Keeps, keeps_rules, Frame, frame}
use learning_mits.Layout.{Layout}
use learning_mits.Riscv.{u32}
use learning_mits.Vm.Keeps.{kfree-Keeps, kalloc-Keeps}
use learning_mits.Proc.Table.Keeps.{proc_pagetable-Keeps, proc_freepagetable-Keeps}
use learning_mits.Proc.Table.{is_unused, find_unused, allocpid}
use learning_mits.Tracing.Process.{cleared, freeproc, release_freed, init_found, allocproc}

-- The same processes and masks but for process i, and the same next pid.
pub record SameBut (i : ℕ) (f g : Frame) : Type 0 where
  pub others : (j : ℕ) → i ≢ j → g.0 j ≡ f.0 j
  pub masks : (j : ℕ) → i ≢ j → g.1 j ≡ f.1 j
  pub next_pid : g.2 ≡ f.2

-- The processes in use stay as they are, and the unused ones unused.
abbrev pub Refused : (ℕ → Proc) → (ℕ → Proc) → Type 0
Refused ps qs =
    ((j : ℕ) → is_unused (ps j).state ≡ false → qs j ≡ ps j)
    × ((j : ℕ) → is_unused (ps j).state ≡ true → is_unused (qs j).state ≡ true)

module _ {i : ℕ} {f : Frame} where
  pub SameBut-refl : SameBut i f f
  SameBut-refl = record { others = λ j ne. refl; masks = λ j ne. refl; next_pid = refl }

  pub SameBut-trans : {g h : Frame} → SameBut i f g → SameBut i g h → SameBut i f h
  SameBut-trans s t = record {
    others = λ j ne. t.others j ne ∙ s.others j ne;
    masks = λ j ne. t.masks j ne ∙ s.masks j ne;
    next_pid = t.next_pid ∙ s.next_pid;
  }

  pub SameBut-same : {g h : Frame} → SameBut i f g → h ≡ g → SameBut i f h
  SameBut-same s e = rw e s

  pub SameBut-edit :
      {ps : ℕ → Proc} {ms : ℕ → ℕ} {n : ℕ} (q : Proc)
      → SameBut i f (ps, ms, n)
      → SameBut i f (update ps i q, ms, n)
  SameBut-edit {ps} q s = record {
    others = λ j ne. update-other ps i q j ne ∙ s.others j ne;
    masks = s.masks;
    next_pid = s.next_pid;
  }

  pub SameBut-mask :
      {ps : ℕ → Proc} {ms : ℕ → ℕ} {n : ℕ} (m : ℕ)
      → SameBut i f (ps, ms, n)
      → SameBut i f (ps, update ms i m, n)
  SameBut-mask {ms = ms} m s = record {
    others = s.others;
    masks = λ j ne. update-other ms i m j ne ∙ s.masks j ne;
    next_pid = s.next_pid;
  }

  module _ ⦃l : Layout⦄ where
    pub freeproc-SameBut :
        (k : Kernel)
        → SameBut i f (frame k)
        → Ensures
            (λ _ k'. SameBut i f (frame k') × (is_unused (k'.proc i).state ≡ true))
            (freeproc i k)
    unfolding freeproc
    freeproc-SameBut k s =
        Ensures.bind
          (framed
            (Keeps.when-Keeps (not ((k.proc i).trapframe == 0)) (kfree-Keeps (k.proc i).trapframe))
            k)
          (λ _ k1 e1.
            Ensures.bind
              (framed
                (Keeps.when-Keeps (not ((k.proc i).pagetable == 0))
                  (proc_freepagetable-Keeps (k.proc i).pagetable (k.proc i).sz))
                _)
              (λ _ k2 e2. ensured (
                SameBut-edit _ (SameBut-same (SameBut-edit _ (SameBut-same s e1)) e2),
                ap (λ (q : Proc). is_unused q.state) (update-here k2.proc i (cleared (k2.proc i))),
              )))

pub Refused-SameBut :
    {i : ℕ} {ps : ℕ → Proc} {ms : ℕ → ℕ} {n : ℕ} {g : Frame}
    → is_unused (ps i).state ≡ true
    → SameBut i (ps, ms, n) g
    → is_unused (g.0 i).state ≡ true
    → Refused ps g.0
Refused-SameBut {i} free s freed = (
  (λ j busy. s.others j (λ e. cc (e, free, busy))),
  (λ j idle. elim (Bool-cases (i == j)) [
    | inl e ↦ rw (← ==→eq i j e) freed
    | inr ne ↦ rw (s.others j (λ e. cc (eq→== i j e, ne))) idle
  ]),
)

-- Process i has the pid, and all else is as in f.
abbrev Claimed : ℕ → Frame → ℕ → Frame → Type 0
Claimed i f pid g = SameBut i f g × ((g.0 i).pid ≡ pid)

Claimed-edit :
    {i : ℕ} {f : Frame} {pid : ℕ} {ps : ℕ → Proc} {ms : ℕ → ℕ} {n : ℕ} (q : Proc)
    → Claimed i f pid (ps, ms, n)
    → q.pid ≡ (ps i).pid
    → Claimed i f pid (update ps i q, ms, n)
Claimed-edit {i} {ps = ps} q (s, e) same =
    (SameBut-edit q s, ap (λ (p : Proc). p.pid) (update-here ps i q) ∙ same ∙ e)

Claimed-same :
    {i : ℕ} {f : Frame} {pid : ℕ} {g h : Frame} → Claimed i f pid g → h ≡ g → Claimed i f pid h
Claimed-same c e = rw e c

module _ ⦃l : Layout⦄ where
  open l use {nproc}

  -- What allocproc answers: a slot that was unused, with a fresh pid.
  abbrev pub Fresh : Kernel → Option ℕ → Kernel → Type 0
  Fresh k none k' = Refused k.proc k'.proc
  Fresh k (some np) k' =
      (np < nproc)
      × (is_unused (k.proc np).state ≡ true)
      × SameBut np (k.proc, k.trace_mask, u32 (k.nextpid + 1)) (frame k')
      × ((k'.proc np).pid ≡ k.nextpid)

  abbrev Scanned : ℕ → Kernel → Option ℕ → Kernel → Type 0
  Scanned end k none k' = frame k' ≡ frame k
  Scanned end k (some i) k' = (i < end) × (is_unused (k.proc i).state ≡ true) × (frame k' ≡ frame k)

  find_unused-Scanned :
      (n i : ℕ) (k k1 : Kernel)
      → frame k1 ≡ frame k
      → Ensures (Scanned (i + n) k) (find_unused n i k1)
  unfolding find_unused
  find_unused-Scanned zero i k k1 e = ensured e
  find_unused-Scanned (suc n) i k k1 e = elim (Bool-cases (is_unused (k1.proc i).state)) [
    | inl free ↦
        rw free (ensured (omega arith, ap (λ f. is_unused (f.0 i).state) (sym e) ∙ free, e))
    | inr busy ↦ rw busy (rw (end n i) (find_unused-Scanned n (i + 1) k _ e))
  ]
    where
      end : (n i : ℕ) → i + suc n ≡ i + 1 + n
      end n i = omega arith

  release_freed-Refused :
      {i : ℕ} {ms : ℕ → ℕ} {n : ℕ} (k k1 : Kernel)
      → is_unused (k.proc i).state ≡ true
      → SameBut i (k.proc, ms, n) (frame k1)
      → Ensures (Fresh k) (release_freed i k1)
  unfolding release_freed
  release_freed-Refused k k1 free s =
      Ensures.bind (freeproc-SameBut k1 s)
        (λ _ k2 (t, freed). ensured {a = none} (Refused-SameBut free t freed))

  init_found-Fresh :
      (i : ℕ) (k k1 : Kernel)
      → i < nproc
      → is_unused (k.proc i).state ≡ true
      → frame k1 ≡ frame k
      → Ensures (Fresh k) (init_found i k1)
  unfolding init_found allocpid
  init_found-Fresh i k k1 small free e = Ensures.bind (framed kalloc-Keeps _) (λ trap k2 e2.
      let c2 = Claimed-edit _ (Claimed-same start e2) refl in
      elim (Bool-cases (trap == 0)) [
        | inl z ↦ rw z (release_freed-Refused k _ free c2.0)
        | inr nz ↦ rw nz (
            Ensures.bind (framed (proc_pagetable-Keeps i) _) (λ pt k3 e3.
              let c3 = Claimed-edit _ (Claimed-same c2 e3) refl in
              elim (Bool-cases (pt == 0)) [
                | inl z ↦ rw z (release_freed-Refused k _ free c3.0)
                | inr nz' ↦
                    rw nz' (let c4 = Claimed-edit _ c3 refl in ensured (small, free, c4.0, c4.1))
              ]))
      ])
    where
      start :
          Claimed i
            (k.proc, k.trace_mask, u32 (k.nextpid + 1))
            k.nextpid
            (
              update k1.proc i (record (k1.proc i) { pid = k1.nextpid; state = used }),
              update k1.trace_mask i 0,
              u32 (k1.nextpid + 1),
            )
      start = (
        SameBut-mask 0 (
            SameBut-edit _
              (SameBut-same SameBut-refl (ap (λ (f : Frame). (f.0, f.1, u32 (f.2 + 1))) e))),
        ap (λ (p : Proc). p.pid) (update-here k1.proc i _) ∙ ap (λ f. f.2) e,
      )

  -- allocproc answers an unused slot with a fresh pid, or leaves the processes in use as they are.
  pub allocproc-Fresh : (k : Kernel) → Ensures (Fresh k) (allocproc k)
  unfolding allocproc
  allocproc-Fresh k =
      Ensures.bind_option _ (find_unused-Scanned nproc 0 k k refl)
        (λ k1 e. ensured (rw (ap (λ f. f.0) e) ((λ j busy. refl), (λ j idle. idle))))
        (λ i k1 (small, free, e). init_found-Fresh i k k1 (omega arith) free e)
