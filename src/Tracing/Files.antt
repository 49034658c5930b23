-- ===== src/Tracing/Files.antt =====
-- The loop of fork over the open files.
use learning_mits.Base.{
  update-here, update-other, ℕ, zero, suc, ◌+◌, ◌≤◌, ◌<◌, ◌≡◌, refl, ap, ◌∙◌, ◌≢◌, inl, inr, false,
  ◌∷◌, arith, ◌==◌, Bool-cases, ==→eq, update,
}
use learning_mits.Kernel.{Kernel, Proc, file_dup}
use learning_mits.Kernel.Ensures
use learning_mits.Kernel.Ensures.{Ensures, ensured}
use learning_mits.Kernel.Keeps.{frame}
use learning_mits.Layout.{Layout, Extern}
use learning_mits.Proc.Life.{dup_files}
use learning_mits.Tracing.Slots.{SameBut, SameBut-refl, SameBut-trans, SameBut-edit}

module _ ⦃l : Layout⦄ (ext : Extern) where
  open ext use {filedup}

  -- Of process np only the open files change; from `i` on they are those of process me, where it
  -- has one. Those below `i` stay.
  pub record Duped (me np n i : ℕ) (k k' : Kernel) : Type 0 where
    pub files : ℕ → ℕ
    pub child : k'.proc np ≡ record (k.proc np) { ofile = files }
    pub same : SameBut np (frame k) (frame k')
    pub mask : k'.trace_mask ≡ k.trace_mask
    pub mem : k'.mem ≡ k.mem
    pub below : (fd : ℕ) → fd < i → files fd ≡ (k.proc np).ofile fd
    pub dup :
        (fd : ℕ)
        → i ≤ fd
        → fd < i + n
        → ((k.proc me).ofile fd == 0) ≡ false
        → files fd ≡ filedup ((k.proc me).ofile fd)

  pub dup_files-Duped :
      (me np n i : ℕ) (k : Kernel)
      → np ≢ me
      → Ensures (λ _ k'. Duped me np n i k k') (dup_files ext me np n i k)
  unfolding dup_files
  dup_files-Duped me np zero i k ne = ensured record {
    files = (k.proc np).ofile;
    child = refl;
    same = SameBut-refl;
    mask = refl;
    mem = refl;
    below = λ fd h. refl;
    dup = λ fd lo hi. absurd (omega arith);
  }
  dup_files-Duped me np (suc n) i k ne = elim (Bool-cases ((k.proc me).ofile i == 0)) [
    | inl closed ↦ rw closed (
        Ensures.weaken (dup_files-Duped me np n (i + 1) k ne) (λ _ k' d. record {
          files = d.files;
          child = d.child;
          same = d.same;
          mask = d.mask;
          mem = d.mem;
          below = λ fd h. d.below fd (omega arith);
          dup = λ fd lo hi used. elim (Bool-cases (i == fd)) [
            | inl e ↦ absurd (cc (closed, used, ==→eq i fd e))
            | inr other ↦ d.dup fd (ground arith) (omega arith) used
          ];
        }))
    | inr used ↦
        rw used (Ensures.weaken (dup_files-Duped me np n (i + 1) _ ne) (λ _ k' d. copied d))
  ]
    where
      new : Proc
      new = record (k.proc np) {
        ofile = update (k.proc np).ofile i (filedup ((k.proc me).ofile i));
      }

      k1 : Kernel
      k1 = record k {
        proc = update k.proc np new;
        trace = file_dup ((k.proc me).ofile i) ∷ k.trace;
      }

      parent : k1.proc me ≡ k.proc me
      parent = update-other k.proc np new me ne

      copied : {k' : Kernel} → Duped me np n (i + 1) k1 k' → Duped me np (suc n) i k k'
      copied d = record {
        files = d.files;
        child =
            d.child ∙ ap (λ (p : Proc). record p { ofile = d.files }) (update-here k.proc np new);
        same = SameBut-trans (SameBut-edit new SameBut-refl) d.same;
        mask = d.mask;
        mem = d.mem;
        below = λ fd h.
            d.below fd (omega arith)
            ∙ ap (λ (p : Proc). p.ofile fd) (update-here k.proc np new)
            ∙ update-other (k.proc np).ofile i _ fd (λ e. omega arith);
        dup = λ fd lo hi used. elim (Bool-cases (i == fd)) [
          | inl e ↦ rw (← ==→eq i fd e) (
              d.below i (omega arith)
              ∙ ap (λ (p : Proc). p.ofile i) (update-here k.proc np new)
              ∙ update-here (k.proc np).ofile i _)
          | inr other ↦
              d.dup fd (ground arith) (omega arith) (rw parent used)
              ∙ ap (λ (p : Proc). filedup (p.ofile fd)) parent
        ];
      }
