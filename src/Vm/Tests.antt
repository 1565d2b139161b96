-- ===== src/Vm/Tests.antt =====
-- A small address space, runs of the operations on it, and the theorems at it.
use cs537_spring.Prelude.{
  ◌⊎◌, negsuc, ◌≤◌, ℕ, ◌+◌, ◌*◌, ◌%◌, ◌≡◌, ◌≢◌, ◌<◌, refl, some, none, arith, pos, minus_one,
  if◌then◌else◌, ◌==◌, ap, sym, subst,
}
use cs537_spring.Vm.Word.{sealed, pground_down, pdx, ptx}
use cs537_spring.Vm.Machine.{fault, Machine, clocksize, empty_slot, load_pte, Returns, and_then}
use cs537_spring.Vm.Crypt.{mencrypt}
use cs537_spring.Vm.Crypt.Pages.{Mapped, Encrypted, Pages}
use cs537_spring.Vm.Crypt.Range.{all_user, mencrypt-Pages}
use cs537_spring.Vm.Clock.{wsetdelete, wsetinsert, insert_fuel, mdecrypt}
use cs537_spring.Vm.Clock.Resident.{ResidentPage, IsResident}
use cs537_spring.Vm.Clock.Insert.{Inserted}
use cs537_spring.Vm.Clock.Sweep.{wsetinsert-Inserted}
use cs537_spring.Vm.Clock.Delete.{Deleted, wsetdelete-Deleted}
use cs537_spring.Vm.Clock.Fault.{decrypted_at, mdecrypt-Inserted}
use cs537_spring.Vm.Clock.Fault.Restore.{Restored, mencrypt-mdecrypt}
use cs537_spring.Vm.Exec.Image.{Image}
use cs537_spring.Vm.Copy.{copyout}
use cs537_spring.Vm.Copy.Copied.{CopyEnd}
use cs537_spring.Vm.Copy.User.{frame_at, copyout-CopyEnd}
use cs537_spring.Vm.Crypt.Sealing.{Sealing}

-- Pages 0 to 8 are in the frames 16 to 24: user pages, present and referenced. Page 9 is encrypted,
-- page 10 is a guard page.
abbrev table : ℕ → ℕ
table i =
    if i == 9
    then 25 * 4096 + 0x206
    else if i == 10
    then 26 * 4096 + 0x003
    else (i + 16) * 4096 + 0x027

-- Pages 0 to 7 are in the queue; the hand is at slot 0.
abbrev machine : Machine
machine = record {
  dir = λ d. if d == 0 then some table else none;
  mem = λ k j. (k + j) % 256;
  sz = 45056;
  clockqueue = λ s. s * 4096;
  clockhand = pos 0;
}

-- With an empty queue.
abbrev idle : Machine
idle = record machine { clockqueue = λ s. empty_slot; clockhand = minus_one }

page :
    (m : Machine) (i : ℕ)
    → i < 9
    → load_pte (i * 4096) m ≡ some ((i + 16) * 4096 + 0x027)
    → ResidentPage m (i * 4096)
page m i l e = record {
  aligned = omega arith;
  small = omega arith;
  entry = (i + 16) * 4096 + 0x027;
  loaded = e;
  present = ground arith;
  plain = ground arith;
  user = ground arith;
}

low : (i : ℕ) → i < 9 → table i ≡ (i + 16) * 4096 + 0x027
low i l = ground arith

loaded : (i : ℕ) → i < 9 → load_pte (i * 4096) machine ≡ some ((i + 16) * 4096 + 0x027)
unfolding load_pte
loaded i l =
    let d : pdx (i * 4096) ≡ 0 = omega arith in
    let t : ptx (i * 4096) ≡ i = omega arith in
    subst
      (λ k.
        (elim (machine.dir k) [ none ↦ none | some f ↦ some (f (ptx (i * 4096))) ])
        ≡ some ((i + 16) * 4096 + 0x027))
      (sym d) (ap some (subst (λ k. table k ≡ (i + 16) * 4096 + 0x027) (sym t) (low i l)))

machine-IsResident : IsResident machine
machine-IsResident = record {
  pages = λ s ls o. page machine s (omega arith) (loaded s (omega arith));
  distinct = λ s t ls lt ne o x. ne (omega arith);
  hand = (1, omega arith, refl);
}

idle-IsResident : IsResident idle
idle-IsResident = record {
  pages = λ s ls o. cc;
  distinct = λ s t ls lt ne o x. cc;
  hand = (0, omega arith, refl);
}

-- The page at 8, which is not in the queue, and the first two pages.
page_out : ResidentPage machine 32768
page_out = page machine 8 (omega arith) (loaded 8 (omega arith))

out_of_queue : (s : ℕ) → s < clocksize → machine.clockqueue s ≢ 32768
out_of_queue s ls x = omega arith

encrypted_entry : load_pte 36865 machine ≡ some (25 * 4096 + 0x206)
unfolding load_pte
encrypted_entry = refl

guard_entry : load_pte 40970 idle ≡ some (26 * 4096 + 0x003)
unfolding load_pte
guard_entry = refl

two-Mapped : Pages (Mapped machine) 2 0
two-Mapped =
    ((16 * 4096 + 0x027, loaded 0 (omega arith)), ((17 * 4096 + 0x027, loaded 1 (omega arith)), tt))

mencrypt-Pages_example :
    Returns
      (λ r m'.
        if all_user 2 0 machine
        then (r ≡ pos 0)
          × Pages (Encrypted m') 2 0
          × ((b : ℕ) → Encrypted machine b → Encrypted m' b)
          × Sealing sealed 2 0 machine m'
        else (r ≡ minus_one) × (m' ≡ machine))
      (mencrypt 5 (pos 2) machine)
mencrypt-Pages_example = mencrypt-Pages 5 (pos 2) machine two-Mapped

wsetinsert-Inserted_example :
    Returns (λ r m'. (r ≡ pos 0) × Inserted machine 32768 m') (wsetinsert insert_fuel 32768 machine)
wsetinsert-Inserted_example =
    wsetinsert-Inserted machine 32768 machine-IsResident (page_out, out_of_queue)

mdecrypt-Inserted_example :
    Returns
      (λ r m'. (r ≡ pos 0) × Inserted (decrypted_at 36865 (25 * 4096 + 0x206) machine) 36864 m')
      (mdecrypt 36865 machine)
mdecrypt-Inserted_example =
    mdecrypt-Inserted machine 36865 (25 * 4096 + 0x206) machine-IsResident (omega arith)
      encrypted_entry refl refl

mencrypt-mdecrypt_example :
    Returns
      (λ r m'.
        (r ≡ pos 0)
        × (m₂ : Machine) × Restored 32768 page_out.entry machine m₂
        × Inserted m₂ 32768 m')
      (and_then (mencrypt 32768 (pos 1) machine) (λ _ m₁. mdecrypt 32768 m₁))
mencrypt-mdecrypt_example =
    mencrypt-mdecrypt machine 32768 page_out machine-IsResident out_of_queue (omega arith)

-- A process of two pages, of which page 0 is in the queue.
abbrev small : Machine
small = record idle { sz = 8192; clockqueue = λ s. if s == 0 then 0 else empty_slot }

first_page : (a : ℕ) → 0 ≤ a → a < 105 → pground_down a ≡ a → a ≡ 0
first_page a lo hi e = omega arith

copyout-CopyEnd_example :
    Returns (CopyEnd (frame_at machine) (λ j. j) 5 100 machine) (copyout (λ _ j. j) 5 100 machine)
copyout-CopyEnd_example =
    copyout-CopyEnd (λ j. j) machine 5 100 (omega arith)
      (λ a al lo hi.
        subst (Mapped machine) (sym (first_page a (omega arith) hi al))
          (16 * 4096 + 0x027, loaded 0 (omega arith)))
      (λ a b f al bl lo hi lo' hi' _ _. omega arith)

wsetdelete-Deleted_example :
    Returns
      (λ r m'.
        ((r ≡ pos 0)
          × ((s : ℕ) × (s < clocksize) × (machine.clockqueue s ≡ 12288))
          × Deleted 12288 machine m')
        ⊎ ((r ≡ minus_one)
            × ((s : ℕ) → s < clocksize → machine.clockqueue s ≢ 12288)
            × (m' ≡ machine)))
      (wsetdelete 12288 machine)
    × ((k : ℕ) → wsetdelete 12288 (record machine { clockhand = negsuc k }) ≡ fault)
wsetdelete-Deleted_example =
    wsetdelete-Deleted 12288 0 machine machine-IsResident refl (omega arith) (λ e. omega arith)

-- Two pages: the first a user's and present, the second the guard page.
abbrev image : Machine
image = record machine {
  dir = λ d.
      if d == 0 then some (λ i. if i == 0 then 16 * 4096 + 0x007 else 26 * 4096 + 0x003) else none;
}
