-- ===== src/Trap/Alarm.antt =====
-- The alarm: sigalarm, the timer ticks of usertrap, and sigreturn.
use learning_mits.Base.{
  ℕ, zero, suc, ◌+◌, ◌-◌, ◌^◌, ◌≤◌, ◌<◌, ◌≡◌, refl, ap, ◌∙◌, ◌≢◌, ◌⊎◌, inl, inr, true, ◌&&◌, arith,
  ◌==◌, leb, ltb, Bool-cases, ==→eq, eq→==, ne→==,
}
use learning_mits.Kernel.{Kernel, Proc, ok, M, pure, ◌>>◌}
use learning_mits.Kernel.Memory.{Memory}
use learning_mits.Kernel.Returns
use learning_mits.Kernel.Returns.{Returns, returns}
use learning_mits.Layout.{Layout}
use learning_mits.Riscv.{u32}
use learning_mits.Proc.Life.{copy_trapframe, epc_off}
use learning_mits.Trap.{alarm_tick}
use learning_mits.Syscall.Handlers.{sys_sigreturn}

-- The two trapframes of a process do not overlap.
abbrev pub FramesApart : Proc → Type 0
FramesApart p =
    (p.trapframe + 288 ≤ p.original_trapframe) ⊎ (p.original_trapframe + 288 ≤ p.trapframe)

-- The 36 words at `a` in one memory are those at `b` in another.
abbrev pub SameFrame : Memory → ℕ → Memory → ℕ → Type 0
SameFrame m a m' b = (off : ℕ) → off < 288 → m (a + off) ≡ m' (b + off)

copy_trapframe_lem :
    (dst src : ℕ) (m : Memory)
    → (off : ℕ) → off < 288
    → copy_trapframe dst src m (dst + off) ≡ m (src + off)
unfolding copy_trapframe
copy_trapframe_lem dst src m off h = rw (inside, offset)
  where
    inside : (leb dst (dst + off) && ltb (dst + off) (dst + 288)) ≡ true
    inside = ground arith

    offset : dst + off - dst ≡ off
    offset = omega arith

copy_trapframe_apart :
    (dst src : ℕ) (m : Memory) (a : ℕ)
    → (a < dst) ⊎ (dst + 288 ≤ a)
    → copy_trapframe dst src m a ≡ m a
unfolding copy_trapframe
copy_trapframe_apart dst src m a (inl h) = ground arith
copy_trapframe_apart dst src m a (inr h) = ground arith

apart_ne :
    (p : Proc) (o : ℕ) → FramesApart p → o < 288 → p.trapframe + epc_off ≢ p.original_trapframe + o
apart_ne p o apart h e = omega arith

-- The fields that a tick leaves alone.
abbrev pub SameAlarm : Proc → Proc → Type 0
SameAlarm p q =
    (q.alarmticks ≡ p.alarmticks)
    × (q.trapframe ≡ p.trapframe)
    × (q.original_trapframe ≡ p.original_trapframe)

with_remain : ℕ → Proc → Proc
with_remain r p = record p { alarmremain = r }

module _ ⦃l : Layout⦄ where
  -- What one timer tick does to a process with an alarm.
  pub record Ticked (me : ℕ) (k k' : Kernel) : Type 0 where
    pub kept : SameAlarm (k.proc me) (k'.proc me)
    -- The alarm is off: nothing happens.
    pub off : (k.proc me).alarmticks ≡ 0 → k' ≡ k
    -- Ticks remain: the count goes down, and the trapframe stays.
    pub waiting :
        (k.proc me).alarmticks ≢ 0
        → (k.proc me).alarmremain ≢ 0
        → (k'.mem ≡ k.mem)
          × ((k'.proc me).alarmremain ≡ u32 ((k.proc me).alarmremain + 0xffff_ffff))
    -- No tick remains: the trapframe is saved, and the process will go on in the handler.
    pub fires :
        (k.proc me).alarmticks ≢ 0
        → (k.proc me).alarmremain ≡ 0
        → SameFrame k'.mem (k.proc me).original_trapframe k.mem (k.proc me).trapframe
          × (k'.mem ((k.proc me).trapframe + epc_off) ≡ (k.proc me).alarmhandler)
          × ((k'.proc me).alarmremain ≡ 0xffff_ffff)

  -- For a process whose two trapframes are apart, a timer tick does nothing without an alarm; while
  -- ticks remain it only counts them down; and when none remains it saves the trapframe, sends the
  -- process to its handler, and lets the count go below zero.
  pub alarm_tick-Ticked :
      (me : ℕ) (k : Kernel)
      → FramesApart (k.proc me)
      → Returns (λ _ k'. Ticked me k k') (alarm_tick me k)
  unfolding alarm_tick
  alarm_tick-Ticked me k apart = elim (Bool-cases ((k.proc me).alarmticks == 0)) [
    | inl z ↦ rw z (
        returns (record {
          kept = (refl, refl, refl);
          off = λ _. refl;
          waiting = λ ne _. absurd (ne (==→eq _ _ z));
          fires = λ ne _. absurd (ne (==→eq _ _ z));
        }))
    | inr nz ↦ rw nz (elim (Bool-cases ((k.proc me).alarmremain == 0)) [
      | inl r ↦ rw r (
          returns (record {
            kept = rw (eq→== me me refl) (refl, refl, refl);
            off = λ e. cc (eq→== _ 0 e);
            waiting = λ _ ne. absurd (ne (==→eq _ _ r));
            fires = λ _ e. (
              (λ o h.
                  rw (ne→== _ ((k.proc me).original_trapframe + o) (apart_ne (k.proc me) o apart h))
                    (copy_trapframe_lem (k.proc me).original_trapframe (k.proc me).trapframe k.mem o
                      h)),
              rw (eq→== ((k.proc me).trapframe + 24) _ refl),
              rw (eq→== me me refl) (omega (arith, e)),
            );
          }))
      | inr nr ↦ rw nr (
          returns (record {
            kept = rw (eq→== me me refl) (refl, refl, refl);
            off = λ e. cc (eq→== _ 0 e);
            waiting = λ _ _. (refl, rw (eq→== me me refl));
            fires = λ _ e. cc (eq→== _ 0 e);
          }))
    ])
  ]

  -- `n` timer ticks of process `me`.
  pub tick_times : ℕ → ℕ → M (Unit {0})
  tick_times me zero = pure tt
  tick_times me (suc n) = do alarm_tick me; tick_times me n

  -- For a process with an alarm and `n + rest` ticks remaining, below 2 ^ 32, `n` ticks leave `rest`
  -- of them, memory as it was, and the alarm on.
  pub alarm_counts_down :
      (me n rest : ℕ) (k : Kernel)
      → (k.proc me).alarmticks ≢ 0
      → (k.proc me).alarmremain ≡ n + rest
      → n + rest < 2 ^ 32
      → Returns
          (λ _ k'.
            (k'.mem ≡ k.mem)
            × ((k'.proc me).alarmremain ≡ rest)
            × ((k'.proc me).alarmticks ≡ (k.proc me).alarmticks))
          (tick_times me n k)
  unfolding tick_times alarm_tick
  alarm_counts_down me zero rest k on count small = returns (refl, omega (arith, count), refl)
  alarm_counts_down me (suc n) rest k on count small =
      rw (ne→== (k.proc me).alarmticks 0 on, ne→== (k.proc me).alarmremain 0 (omega (arith, count)))
        (Returns.weaken
          (alarm_counts_down me n rest _ (rw (eq→== me me refl) on)
            (rw (eq→== me me refl) (omega (arith, count))) (omega arith))
          (λ _ k' (m, r, t). (m, r, t ∙ rw (eq→== me me refl))))

  pub ticks_down :
      (me n : ℕ) (k : Kernel)
      → (k.proc me).alarmticks ≢ 0
      → (k.proc me).alarmremain ≡ n
      → n < 2 ^ 32
      → Returns
          (λ _ k'. (k'.mem ≡ k.mem) × (k'.proc me ≡ record (k.proc me) { alarmremain = 0 }))
          (tick_times me n k)
  unfolding tick_times alarm_tick with_remain
  ticks_down me zero k on count small =
      returns (refl, ap {A = ℕ} (λ r. with_remain r (k.proc me)) count)
  ticks_down me (suc n) k on count small =
      rw (ne→== (k.proc me).alarmticks 0 on, ne→== (k.proc me).alarmremain 0 (omega (arith, count)))
        (Returns.weaken
          (ticks_down me n _ (rw (eq→== me me refl) on)
            (rw (eq→== me me refl) (omega (arith, count))) (omega arith))
          (λ _ k' (m, same). (m, same ∙ rw (eq→== me me refl) refl)))

  pub sigreturn_copies :
      (me tf original : ℕ) (k1 : Kernel)
      → (k1.proc me).trapframe ≡ tf
      → (k1.proc me).original_trapframe ≡ original
      → Returns
          (λ r k2.
            (r ≡ 0)
            × SameFrame k2.mem tf k1.mem original
            × ((k2.proc me).alarmremain ≡ (k1.proc me).alarmticks))
          (sys_sigreturn me k1)
  unfolding sys_sigreturn
  sigreturn_copies me tf original k1 e f = returns (
    refl,
    rw (eq→== me me refl, e, f) (copy_trapframe_lem tf original k1.mem),
    rw (eq→== me me refl),
  )

  -- The handler's detour, for a process with an alarm, no tick remaining, and a saved trapframe that
  -- is apart from the trapframe: when sys_sigreturn runs after the tick, in a state where the
  -- process's struct and its saved trapframe are as the tick left them, it answers 0, the trapframe
  -- is word for word the one from before the tick, and the count starts again at the interval.
  pub alarm_resumes :
      (me : ℕ) (k k' k1 : Kernel)
      → (k.proc me).alarmticks ≢ 0
      → (k.proc me).alarmremain ≡ 0
      → FramesApart (k.proc me)
      → alarm_tick me k ≡ ok tt k'
      → k1.proc me ≡ k'.proc me
      → SameFrame k1.mem (k.proc me).original_trapframe k'.mem (k.proc me).original_trapframe
      → Returns
          (λ r k2.
            (r ≡ 0)
            × SameFrame k2.mem (k.proc me).trapframe k.mem (k.proc me).trapframe
            × ((k2.proc me).alarmremain ≡ (k.proc me).alarmticks))
          (sys_sigreturn me k1)
  alarm_resumes me k k' k1 on due apart tick same frame =
      let t = Returns.result (alarm_tick-Ticked me k apart) tick in
      let (ticks, tf, original) = t.kept in
      Returns.weaken
        (sigreturn_copies me _ _ k1 (ap (λ p. p.trapframe) same ∙ tf)
          (ap (λ p. p.original_trapframe) same ∙ original))
        (λ r k2 (zero_answer, copied, count). (
          zero_answer,
          (λ o h. copied o h ∙ frame o h ∙ (t.fires on due).0 o h),
          count ∙ ap (λ p. p.alarmticks) same ∙ ticks,
        ))
