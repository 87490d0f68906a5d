-- ===== src/Log/Install.antt =====
-- install_trans: the logged blocks are copied home, and the log can be replayed all the while.
use os_project.Prelude.{
  ℕ, ◌+◌, ◌≤◌, ◌<◌, ◌≡◌, ◌≢◌, ◌⊎◌, inl, inr, ◌∙◌, ap, refl, false, List, [], ◌∷◌, All, length, ◌==◌,
  none, arith, update, Bool-cases,
}
use os_project.Log.Power.{Block, Disk, Machine, bread}
use os_project.Log.{install_from}
use os_project.Log.Header.{listed}
use os_project.Log.Holds.{
  Ends, went, Ends->>=, bwrite-Ends, has, IsHome, IsHome-cases, Logged, Holds,
}

-- A write outside the log blocks leaves them as they are.
pub Logged-away :
    (start size tail b : ℕ) (w : Block) (bs : List ℕ) (d f : Disk)
    → (b ≤ start + tail) ⊎ (start + size ≤ b)
    → tail + length bs < size
    → Logged start tail bs d f
    → Logged start tail bs (update d b w) f
Logged-away start size tail b w [] d f h l g = tt
Logged-away start size tail b w (x ∷ bs) d f h l (e, g) = (
  away (start + tail + 1) (omega arith) ∙ e,
  Logged-away start size (tail + 1) b w bs d f (omega arith) (omega arith) g,
)
  where
    away : (p : ℕ) → b ≢ p → update d b w p ≡ d p
    away p n = ground arith

pub home_away :
    (start size tail b : ℕ) → IsHome start size b → (b ≤ start + tail) ⊎ (start + size ≤ b)
home_away start size tail b (inl l) = inl (omega arith)
home_away start size tail b (inr l) = inr l

Holds-home :
    (start size b : ℕ) (f d : Disk)
    → IsHome start size b
    → Holds start size f d
    → Holds start size f (update d b (f b))
Holds-home start size b f d h g = record {
  blocks = g.blocks;
  head = ap listed away ∙ g.head;
  short = g.short;
  listable = g.listable;
  homes = g.homes;
  logged =
      Logged-away start size 0 b (f b) g.blocks d f (home_away start size 0 b h)
        (omega (arith, g.short)) g.logged;
  rest = λ c hc free. elim (Bool-cases (b == c)) [
    | inl same ↦ ground arith
    | inr other ↦ ground (arith, g.rest c hc free)
  ];
}
  where
    away : update d b (f b) start ≡ d start
    away = ground (arith, g.short)

-- The state of the loop with the blocks `bs` still to be copied.
pub record Installing (start size tail : ℕ) (bs : List ℕ) (f : Disk) (m : Machine) : Type 0 where
  pub holds : Holds start size f m.disk
  pub fits : tail + length bs < size
  pub homes : All (IsHome start size) bs
  pub logged : Logged start tail bs m.disk f
  pub done : (b : ℕ) → IsHome start size b → has bs b ≡ false → m.disk b ≡ f b
  pub clean : (b : ℕ) → start ≤ b → b < start + size → m.cache b ≡ none
  pub clean_rest : (b : ℕ) → IsHome start size b → has bs b ≡ false → m.cache b ≡ none

-- What the loop leaves.
pub record Installed (start size : ℕ) (f : Disk) (m : Machine) : Type 0 where
  pub holds : Holds start size f m.disk
  pub home : (b : ℕ) → IsHome start size b → m.disk b ≡ f b
  pub clean : (b : ℕ) → m.cache b ≡ none

pub bread-clean : (m : Machine) (b : ℕ) → m.cache b ≡ none → bread m b ≡ m.disk b
unfolding bread
bread-clean m b e = rw (e, bread) refl

install_step :
    (start size tail b : ℕ) (bs : List ℕ) (f : Disk) (m : Machine) (n : ℕ)
    → Installing start size tail (b ∷ bs) f m
    → Installing start size
        (tail + 1)
        bs
        f
        (record { disk = update m.disk b (f b); cache = update m.cache b none; writes = n })
install_step start size tail b bs f m n g = record {
  holds = Holds-home start size b f m.disk g.homes.0 g.holds;
  fits = omega (arith, g.fits);
  homes = g.homes.1;
  logged =
      Logged-away start size (tail + 1) b (f b) bs m.disk f
        (home_away start size (tail + 1) b g.homes.0) (omega (arith, g.fits)) g.logged.1;
  done = λ c hc free. elim (Bool-cases (b == c)) [
    | inl same ↦ ground arith
    | inr other ↦ ground (arith, g.done c hc)
  ];
  clean = λ c lo hi. ground (arith, g.clean c);
  clean_rest = λ c hc free. ground (arith, g.clean_rest c hc);
}

pub install_from-Ends :
    (start size tail : ℕ) (bs : List ℕ) (f : Disk) (m : Machine)
    → Installing start size tail bs f m
    → Ends (Installed start size f) (Holds start size f) (install_from start tail bs m)
unfolding install_from
install_from-Ends start size tail [] f m g = went m (record {
  holds = g.holds;
  home = λ b h. g.done b h refl;
  clean = λ b. elim (IsHome-cases start size b) [
    | inl h ↦ g.clean_rest b h refl
    | inr (lo, hi) ↦ g.clean b lo hi
  ];
})
install_from-Ends start size tail (b ∷ bs) f m g =
    let log : bread m (start + tail + 1) ≡ f b =
      bread-clean m (start + tail + 1)
        (g.clean (start + tail + 1) (omega arith) (omega (arith, g.fits)))
      ∙ g.logged.0 in
    Ends->>= {P = Installing start size (tail + 1) bs f} _ _
      (bwrite-Ends b _ m g.holds (λ n. rw log (install_step start size tail b bs f m n g)))
      (λ m' g'. install_from-Ends start size (tail + 1) bs f m' g')
