-- ===== src/Exec.antt =====
-- Lab_page_tables/exec.c: exec and loadseg. The file system (`Files`) and elf.h (`ElfFormat`) are not
-- in the repository: they are parameters. A string is the list of its bytes without the '\0', and
-- `argv` the list of its strings.
pub mod Argc
pub mod Pushed
pub mod Size
pub mod Stack
pub mod Total
pub mod Keeps
pub mod Outcome
use learning_mits.Base.{
  ℕ, zero, suc, ◌+◌, ◌-◌, ◌*◌, ◌/◌, ◌%◌, Bool, true, false, not, Option, none, some, List, [], ◌∷◌,
  ◌++◌, ◌==◌, ltb, leb, if◌then◌else◌, length,
}
use learning_mits.Kernel.{
  M, Status, success, failure, pure, ◌>>=◌, ◌>>◌, fail, when, modify, modify_proc, gets,
  record_event, op_begun, op_ended, inode_locked, inode_unlocked_put, loadseg_panic, ustack_overrun,
  page_fuel, out_of_fuel,
}
use learning_mits.Kernel.Memory.{store, store_bytes}
use learning_mits.Layout.{Layout}
use learning_mits.Riscv.{u32, u64, sub64, pgsize, pgroundup}
use learning_mits.Vm.Walk.{walkaddr}
use learning_mits.Vm.Map.{uvmclear}
use learning_mits.Vm.User.{uvmalloc}
use learning_mits.Vm.Copy.{copyout}
use learning_mits.Vm.Print.{vmprint}
use learning_mits.Proc.Life.{epc_off, sp_off, a_off}
use learning_mits.Proc.Usyscall.{proc_pagetable, proc_freepagetable}

-- namei (0 for none) and readi (inode, offset, size) of fs.c; readi answers the bytes that it read.
pub record Files : Type 0 where
  pub namei : List ℕ → ℕ
  pub readi : ℕ → ℕ → ℕ → List ℕ
  pub safestrcpy : List ℕ → List ℕ → ℕ → List ℕ

pub record ElfHeader : Type 0 where
  pub magic : ℕ
  pub phoff : ℕ
  pub phnum : ℕ
  pub entry : ℕ

pub record ProgHeader : Type 0 where
  pub type : ℕ
  pub off : ℕ
  pub vaddr : ℕ
  pub filesz : ℕ
  pub memsz : ℕ

-- `sizeof` the two structs, their fields in the bytes read, and the constants of elf.h.
pub record ElfFormat : Type 0 where
  pub elfhdr_size : ℕ
  pub proghdr_size : ℕ
  pub elfhdr : List ℕ → ElfHeader
  pub proghdr : List ℕ → ProgHeader
  pub elf_magic : ℕ
  pub elf_prog_load : ℕ

-- `last` once the loop over the path is done: what follows its last '/'.
unfoldable pub base_name : List ℕ → List ℕ → List ℕ
base_name last [] = last
base_name last (c ∷ s) = base_name (if c == b'/' then s else last) s

-- A word in the bytes that copyout takes, the lowest first.
unfoldable pub word_bytes : ℕ → ℕ → List ℕ
word_bytes zero w = []
word_bytes (suc n) w = (w % 256) ∷ word_bytes n (w / 256)

-- `ustack` with the 0 behind it.
unfoldable pub ustack_bytes : List ℕ → List ℕ
unfolding word_bytes
ustack_bytes [] = word_bytes 8 0
ustack_bytes (sp ∷ sps) = word_bytes 8 sp ++ ustack_bytes sps

-- `sp -= n; sp -= sp % 16;`
unfoldable pub push : ℕ → ℕ → ℕ
push sp n = let sp' = sub64 sp n in sp' - sp' % 16

module _ ⦃l : Layout⦄ where
  open l use {maxarg}

  -- The loop that pushes the strings of `argv`: `sp` and `ustack`, or `none` at `goto bad`.
  unfoldable pub push_args : ℕ → ℕ → ℕ → List ℕ → List (List ℕ) → M (Option (ℕ × List ℕ))
  unfolding push
  push_args pagetable stackbase sp ustack [] = pure (some (sp, ustack))
  push_args pagetable stackbase sp ustack (s ∷ argv) =
      if leb maxarg (length ustack)
      then pure none
      else if ltb (push sp (length s + 1)) stackbase
      then pure none
      else (do
        r ← copyout pagetable (push sp (length s + 1)) (s ++ (0 ∷ []))
        elim r [
          | failure ↦ pure none
          | success ↦
              push_args pagetable stackbase (push sp (length s + 1))
                (ustack ++ (push sp (length s + 1) ∷ [])) argv
        ])

  -- The stack page from `stackbase` up to `sp`: the strings, then the array of pointers to them.
  -- With exactly MAXARG strings the code writes the 0 one word behind `ustack`, which is a panic of
  -- the model.
  unfoldable pub build_stack : ℕ → ℕ → ℕ → List (List ℕ) → M (Option (ℕ × ℕ))
  unfolding push_args ustack_bytes push
  build_stack pagetable stackbase sp argv = do
    pushed ← push_args pagetable stackbase sp [] argv
    elim pushed [
      | none ↦ pure none
      | some (sp', ustack) ↦
          (if leb maxarg (length ustack)
            then fail ustack_overrun
            else if ltb (push sp' ((length ustack + 1) * 8)) stackbase
            then pure none
            else (do
              r ← copyout pagetable (push sp' ((length ustack + 1) * 8)) (ustack_bytes ustack)
              elim r [
                | failure ↦ pure none
                | success ↦ pure (some (push sp' ((length ustack + 1) * 8), length ustack))
              ]))
    ]

  -- The two pages above the program: a guard page that user code cannot reach, and the stack.
  -- `none` is `goto bad` before they are there, with `sz` as it is then.
  unfoldable pub make_stack : ℕ → ℕ → List (List ℕ) → M (ℕ × Option (ℕ × ℕ))
  unfolding build_stack
  make_stack pagetable sz argv = do
    sz1 ← uvmalloc pagetable sz (u64 (sz + 2 * pgsize))
    if sz1 == 0 then pure (sz, none) else (do
      uvmclear pagetable (sub64 sz1 (2 * pgsize))
      r ← build_stack pagetable (sub64 sz1 pgsize) sz1 argv
      pure (sz1, r))

  module _ (fs : Files) (elf : ElfFormat) where
    open fs use {namei, readi, safestrcpy}
    open elf use {elfhdr_size, proghdr_size, elfhdr, proghdr, elf_magic, elf_prog_load}

    -- `i`, `n`, `offset` and `sz` are uints.
    unfoldable pub loadseg_loop : ℕ → ℕ → ℕ → ℕ → ℕ → ℕ → ℕ → M Status
    loadseg_loop zero pagetable va ip offset sz i = λ _. out_of_fuel
    loadseg_loop (suc f) pagetable va ip offset sz i = if not (ltb i sz) then pure success else do
      pa ← walkaddr pagetable (u64 (va + i))
      if pa == 0 then fail loadseg_panic else do
        let n = if ltb (sz - i) pgsize then sz - i else pgsize
        let bytes = readi ip (u32 (offset + i)) n
        modify (λ k. record k { mem = store_bytes pa bytes k.mem })
        if not (length bytes == n)
            then pure failure
            else loadseg_loop f pagetable va ip offset sz (u32 (i + pgsize))

    -- A uint takes 2 ^ 20 pages at most.
    unfoldable pub loadseg : ℕ → ℕ → ℕ → ℕ → ℕ → M Status
    unfolding loadseg_loop
    loadseg pagetable va ip offset sz = loadseg_loop (sz / pgsize + 2) pagetable va ip offset sz 0

    -- One program header: whether exec goes on, and `sz` then.
    unfoldable pub load_segment : ℕ → ℕ → ProgHeader → ℕ → M (Bool × ℕ)
    load_segment pagetable ip ph sz =
        if not (ph.type == elf_prog_load)
        then pure (true, sz)
        else if ltb ph.memsz ph.filesz
        then pure (false, sz)
        else if ltb (u64 (ph.vaddr + ph.memsz)) ph.vaddr
        then pure (false, sz)
        else (do
          sz1 ← uvmalloc pagetable sz (u64 (ph.vaddr + ph.memsz))
          if sz1 == 0
              then pure (false, sz)
              else if not (ph.vaddr % pgsize == 0)
              then pure (false, sz1)
              else (do
                r ← loadseg pagetable ph.vaddr ip (u32 ph.off) (u32 ph.filesz)
                elim r [ success ↦ pure (true, sz1) | failure ↦ pure (false, sz1) ]))

    -- The loop over the program headers, `n` of them from offset `off` on.
    unfoldable pub load_program : ℕ → ℕ → ℕ → ℕ → ℕ → M (Bool × ℕ)
    unfolding load_segment
    load_program zero pagetable ip off sz = pure (true, sz)
    load_program (suc n) pagetable ip off sz =
        if not (length (readi ip off proghdr_size) == proghdr_size) then pure (false, sz) else (do
          (go_on, sz1) ← load_segment pagetable ip (proghdr (readi ip off proghdr_size)) sz
          if go_on
              then load_program n pagetable ip (u32 (off + proghdr_size)) sz1
              else pure (false, sz1))

    -- The label `bad`; `ip` is `none` once the file is closed.
    unfoldable pub exec_bad : ℕ → ℕ → Option ℕ → M (Option ℕ)
    exec_bad pagetable sz ip = do
      when (not (pagetable == 0)) (proc_freepagetable pagetable sz)
      elim ip [
        | none ↦ pure none
        | some i ↦ (do record_event (inode_unlocked_put i); record_event op_ended; pure none)
      ]

    -- From `p->trapframe->a1 = sp` on: the new image replaces the old one.
    unfoldable pub exec_commit : ℕ → List ℕ → ElfHeader → ℕ → ℕ → ℕ → ℕ → M (Option ℕ)
    unfolding base_name
    exec_commit me path header pagetable sz sp argc = do
      p ← gets (λ k. k.proc me)
      store (p.trapframe + a_off 1) sp
      modify_proc me (λ q. record q {
        name = safestrcpy q.name (base_name path path) 16;
        pagetable = pagetable;
        sz = sz;
      })
      store (p.trapframe + epc_off) header.entry
      store (p.trapframe + sp_off) sp
      proc_freepagetable p.pagetable p.sz
      when (p.pid == 1) (vmprint 3 pagetable 1)
      pure (some argc)

    -- From the loading of the program on.
    unfoldable pub exec_image : ℕ → List ℕ → List (List ℕ) → ℕ → ElfHeader → ℕ → M (Option ℕ)
    exec_image me path argv ip header pagetable = do
      (loaded, sz) ← load_program header.phnum pagetable ip (u32 header.phoff) 0
      if not loaded then exec_bad pagetable sz (some ip) else do
        record_event (inode_unlocked_put ip)
        record_event op_ended
        (sz1, stack) ← make_stack pagetable (pgroundup sz) argv
        elim stack [
          | none ↦ exec_bad pagetable sz1 none
          | some (sp, argc) ↦ exec_commit me path header pagetable sz1 sp argc
        ]

    -- `none` is -1; else the answer is argc.
    unfoldable pub exec : ℕ → List ℕ → List (List ℕ) → M (Option ℕ)
    exec me path argv = do
      record_event op_begun
      if namei path == 0 then (do record_event op_ended; pure none) else do
        record_event (inode_locked (namei path))
        let bytes = readi (namei path) 0 elfhdr_size
        if not (length bytes == elfhdr_size)
            then exec_bad 0 0 (some (namei path))
            else if not ((elfhdr bytes).magic == elf_magic)
            then exec_bad 0 0 (some (namei path))
            else (do
              pagetable ← proc_pagetable me
              if pagetable == 0
                  then exec_bad 0 0 (some (namei path))
                  else exec_image me path argv (namei path) (elfhdr bytes) pagetable)
