-- ===== src/Tests/Kalloc.antt =====
-- The kernel ends at KERNBASE + 4096, and the page behind it is given to an empty list.
use os_project.Prelude.{ℕ, ◌≡◌, ◌⊎◌, refl, arith, [], ◌∷◌}
use os_project.Prelude.Outcome.{ok, panic}
use os_project.Kalloc.{Kmem, kfree, kalloc, IsPage, IsFree, kfree-kalloc}

abbrev nothing : Kmem
nothing = record { freelist = 0; next = λ v. 0 }

abbrev kernel_end : ℕ
kernel_end = 2147487744

nothing-IsFree : IsFree kernel_end nothing []
nothing-IsFree = record { chain = refl; each = tt; distinct = tt }

kfree-kalloc_example :
    ((kfree kernel_end 2147491840 nothing ≡ panic) × ¬ (IsPage kernel_end 2147491840))
    ⊎ (IsPage kernel_end 2147491840
        × (k' : Kmem) × (k'' : Kmem) × (kfree kernel_end 2147491840 nothing ≡ ok k')
        × IsFree kernel_end k' (2147491840 ∷ [])
        × (kalloc k' ≡ (k'', 2147491840))
        × IsFree kernel_end k'' [])
kfree-kalloc_example = kfree-kalloc kernel_end 2147491840 nothing [] (omega arith) nothing-IsFree tt
