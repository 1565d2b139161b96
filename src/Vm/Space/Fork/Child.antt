-- ===== src/Vm/Space/Fork/Child.antt =====
-- `setupkvm` and `copyuvm` of p6/vm.c as a whole.
use cs537_spring.Prelude.{
  ℕ, ◌+◌, ◌*◌, ◌≡◌, ◌≢◌, ◌≤◌, ◌<◌, ◌⊎◌, refl, arith, ap, sym, ◌∙◌, subst, ltb, Option, none, some,
  List, All, length, [], ◌∷◌, if◌then◌else◌, inl, inr,
}
use cs537_spring.Vm.Crypt.{kernbase}
use cs537_spring.Vm.Space.{
  Space, Returns, Returns-bind, Returns-mono, and_then, phystop, fill, kalloc_from, entry, round_up,
}
use cs537_spring.Vm.Space.Entry.{visible, GoodFrame, GoodFree}
use cs537_spring.Vm.Space.Fork.{
  Directory, kernpage, kernlink, kmaps, map_kernel, setup_at, setupkvm, copy_all, copyuvm,
}
use cs537_spring.Vm.Space.Fork.Keep.{Out, Distinct, GoodFrame-move, update_other}
use cs537_spring.Vm.Space.Fork.Copied.{Fresh, Parent, Copied}
use cs537_spring.Vm.Space.Fork.Kernel.{map_kernel-KernelEnd}
use cs537_spring.Vm.Space.Fork.Mapping.{kernel_entry, UpTo, KernelEnd, user_none}
use cs537_spring.Vm.Space.Fork.Loop.{CopyEnd, copy_all-CopyEnd}

-- A new directory with the kernel's mappings, in the frame `d`, which was free. The frames that were
-- not free are as before.
pub record Setup (data_page d : ℕ) (s s' : Space) : Type 0 where
  pub kernel :
      (j : ℕ) → visible (entry j s') ≡ (if ltb j 0x10_0000 then kernel_entry data_page j else none)
  pub fresh : Fresh s'
  pub frame : GoodFrame s' d
  pub frame_free : (g : ℕ) → Out g s.free → d ≢ g
  pub frame_taken : Out d s'.free
  pub bytes : (g : ℕ) → Out g s.free → s'.mem g ≡ s.mem g
  pub out : (g : ℕ) → Out g s.free → Out g s'.free
  pub first : s'.first ≡ s.first
  pub spent : length s.free ≤ length s'.free + 70

abbrev pub SetupEnd : ℕ → Space → Option ℕ → Space → Type 0
SetupEnd data_page s r s' =
    ((d : ℕ) × (r ≡ some d) × Setup data_page d s s') ⊎ ((r ≡ none) × (length s.free ≤ 70))

-- The state in which the frame `d` has become an empty directory.
abbrev based : ℕ → List ℕ → Space → Space
based d fs s = record (fill d 0 (record s { free = fs })) { dir = λ i. none }

module _ (data_page d : ℕ) (fs : List ℕ) (s : Space) (g : GoodFree s) (n : Distinct s.free)
    (e : s.free ≡ d ∷ fs) where
  based-empty : (j : ℕ) → visible (entry j (based d fs s)) ≡ none
  unfolding entry
  based-empty j = refl

  based-Fresh : Fresh (based d fs s)
  based-Fresh = record {
    empty = λ j l. based-empty j;
    free = (subst (All (GoodFrame s)) e g).1;
    tables = λ i table at. absurd (cc at);
    distinct = (subst Distinct e n).1;
  }

  based-Setup :
      (s' : Space)
      → UpTo data_page d 0x10_0000 (based d fs s) s'
      → length fs ≤ length s'.free + 69
      → Setup data_page d s s'
  based-Setup s' u p = record {
    kernel = u.mapping;
    fresh = record {
      empty = λ j l. u.mapping j ∙ user_none data_page 0x10_0000 j (omega (arith, l));
      free = u.free;
      tables = u.keep.tables based-Fresh.free based-Fresh.tables;
      distinct = u.keep.distinct (subst Distinct e n).1;
    };
    frame = GoodFrame-move s s' d u.first (subst (All (GoodFrame s)) e g).0;
    frame_free = λ x o. (subst (Out x) e o).0;
    frame_taken = u.keep.out d (subst Distinct e n).0;
    bytes = λ x o.
        u.keep.bytes x (subst (Out x) e o).1
        ∙ update_other d x s.mem (λ j. 0) (subst (Out x) e o).0;
    out = λ x o. u.keep.out x (subst (Out x) e o).1;
    first = u.first;
    spent = omega (arith, p, ap length e);
  }

setup_from :
    (data_page : ℕ) (s : Space) (fs : List ℕ)
    → kernlink < data_page
    → data_page < kernpage + phystop
    → 0 < s.first
    → GoodFree s
    → Distinct s.free
    → s.free ≡ fs
    → Returns (SetupEnd data_page s) (and_then (kalloc_from s fs) (setup_at data_page))
setup_from data_page s [] lo hi pos g n e = inr (refl, omega (arith, ap length e))
setup_from data_page s (d ∷ fs) lo hi pos g n e =
    Returns-mono _ _ (map_kernel (kmaps data_page) d (based d fs s))
      (map_kernel-KernelEnd data_page d (based d fs s) (based-Fresh data_page d fs s g n e) pos
        (subst (All (GoodFrame s)) e g).0 lo hi (based-empty data_page d fs s g n e))
      λ r s' h. end r s' h
  where
    end :
        (r : Option ℕ) (s' : Space)
        → KernelEnd data_page d (based d fs s) r s'
        → SetupEnd data_page s r s'
    end r s' (inl (same, (u, p))) = inl (d, same, based-Setup data_page d fs s g n e s' u p)
    end r s' (inr (same, short)) = inr (same, omega (arith, short, ap length e))

-- If the frames of the free list are between the kernel and the top of memory and none is there
-- twice, and the kernel's data starts between its text and the top of memory, then `setupkvm` does
-- not panic. Either it returns a directory, in a frame that was free, that maps every page as
-- `kmap` says and no page of a user; the frames that were not free are as before. Or it returns 0,
-- and there were 70 free frames at most.
pub setupkvm-SetupEnd :
    (data_page : ℕ) (s : Space)
    → kernlink < data_page
    → data_page < kernpage + phystop
    → 0 < s.first
    → GoodFree s
    → Distinct s.free
    → Returns (SetupEnd data_page s) (setupkvm data_page s)
unfolding setupkvm
setupkvm-SetupEnd data_page s lo hi pos g n = setup_from data_page s s.free lo hi pos g n refl

-- A directory `mid` of the kernel's mappings, and the parent's pages copied into it.
abbrev pub ChildEnd : ℕ → Directory → ℕ → Space → Option ℕ → Space → Type 0
ChildEnd data_page pgdir n s r s' =
    ((d : ℕ) × (mid : Space) × ((r ≡ some d) × (Setup data_page d s mid × Copied pgdir n mid s')))
    ⊎ ((r ≡ none) × (length s.free < 71 + 2 * n))

-- The parent's pages after `setupkvm`.
Parent-Setup :
    (data_page d n : ℕ) (pgdir : Directory) (s mid : Space)
    → Setup data_page d s mid
    → Parent pgdir n s
    → Parent pgdir n mid
Parent-Setup data_page d n pgdir s mid u p j l =
    let (w, found, used, o) = p j l in (w, found, used, u.out _ o)

copy_after :
    (data_page sz : ℕ) (pgdir : Directory) (s : Space)
    → sz ≤ kernbase
    → 0 < s.first
    → Parent pgdir (round_up sz) s
    → (r : Option ℕ) (mid : Space) → SetupEnd data_page s r mid
    → Returns (ChildEnd data_page pgdir (round_up sz) s) (copy_all pgdir sz r mid)
copy_after data_page sz pgdir s small pos parent r mid (inr (e, short)) =
    subst (λ r. Returns (ChildEnd data_page pgdir (round_up sz) s) (copy_all pgdir sz r mid))
      (sym e) (inr (refl, omega (arith, short)))
copy_after data_page sz pgdir s small pos parent r mid (inl (d, e, u)) =
    subst (λ r. Returns (ChildEnd data_page pgdir (round_up sz) s) (copy_all pgdir sz r mid))
      (sym e)
      (Returns-mono _ _ (copy_all pgdir sz (some d) mid)
        (copy_all-CopyEnd pgdir sz d mid u.fresh (subst (λ n. 0 < n) (sym u.first) pos) u.frame
          small (Parent-Setup data_page d (round_up sz) pgdir s mid u parent))
        end)
  where
    end :
        (r : Option ℕ) (s' : Space)
        → CopyEnd pgdir (round_up sz) d mid r s'
        → ChildEnd data_page pgdir (round_up sz) s r s'
    end r s' (inl (same, c)) = inl (d, mid, (same, (u, c)))
    end r s' (inr (same, short)) = inr (same, omega (arith, short, u.spent))

-- `copyuvm` of a parent whose pages up to a size of at most KERNBASE are all present or encrypted,
-- in frames that are not free, does not panic, under the conditions of `setupkvm`. Either it
-- returns a directory, in a frame that was free: the mappings of `kmap`, and each page of the parent
-- in a frame of its own that was free, with the entry that `mappages` makes of the parent's flags
-- and with the bytes of the parent's page; the frames that were not free are as before. Or it
-- returns 0, and there were fewer than 71 free frames and two for each page.
pub copyuvm-ChildEnd :
    (data_page sz : ℕ) (pgdir : Directory) (s : Space)
    → kernlink < data_page
    → data_page < kernpage + phystop
    → 0 < s.first
    → GoodFree s
    → Distinct s.free
    → sz ≤ kernbase
    → Parent pgdir (round_up sz) s
    → Returns (ChildEnd data_page pgdir (round_up sz) s) (copyuvm data_page pgdir sz s)
unfolding copyuvm
copyuvm-ChildEnd data_page sz pgdir s lo hi pos g n small parent =
    Returns-bind (SetupEnd data_page s) _ (setupkvm data_page s) _
      (setupkvm-SetupEnd data_page s lo hi pos g n)
      (copy_after data_page sz pgdir s small pos parent)
