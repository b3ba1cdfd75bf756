-- ===== src/Loader/Handler.antt =====
-- The search of `try_load_for_fault` in group-16-4/SimpleSmartLoader.c through the program headers.
use operating_systems_compon.Base.{ℕ, ◌≡◌, refl, ◌∙◌, none, List, [], ◌∷◌, ◌++◌, true, false, add32}
use operating_systems_compon.Loader.{
  Segment, System, Loader, loader_map_segment, holds, try_load_for_fault, segv_handler,
}

-- No segment of the list is loaded at the address.
pub data Misses (fault : ℕ) : List Segment → Type 0 where
  misses_nil : Misses fault []
  misses_cons :
      {seg : Segment} {phdr : List Segment}
      → holds seg fault ≡ false
      → Misses fault phdr
      → Misses fault (seg ∷ phdr)

-- The page fault is counted.
pub counted : Loader → Loader
counted loader = record loader { no_page_faults = add32 loader.no_page_faults 1 }

module _ (system : System) (fault : ℕ) where
  try_load_for_fault-skip :
      (before after : List Segment) (loader : Loader)
      → Misses fault before
      → try_load_for_fault system (before ++ after) fault loader
        ≡ try_load_for_fault system after fault loader
  unfolding try_load_for_fault
  try_load_for_fault-skip [] after loader misses_nil = refl
  try_load_for_fault-skip (seg ∷ before) after loader (misses_cons miss rest) =
      rw miss (try_load_for_fault-skip before after loader rest)

  try_load_for_fault-hit :
      (seg : Segment) (after : List Segment) (loader : Loader)
      → holds seg fault ≡ true
      → try_load_for_fault system (seg ∷ after) fault loader
        ≡ loader_map_segment system seg fault loader
  unfolding try_load_for_fault
  try_load_for_fault-hit seg after loader hit = rw hit refl

  try_load_for_fault-miss :
      (phdr : List Segment) (loader : Loader)
      → Misses fault phdr
      → try_load_for_fault system phdr fault loader ≡ none
  unfolding try_load_for_fault
  try_load_for_fault-miss _ loader misses_nil = refl
  try_load_for_fault-miss _ loader (misses_cons {seg} {phdr} miss rest) =
      rw miss (try_load_for_fault-miss phdr loader rest)

  -- A fault at an address outside every PT_LOAD segment ends the program.
  segv_handler-outside :
      (phdr : List Segment) (loader : Loader)
      → Misses fault phdr
      → segv_handler system phdr fault loader ≡ none
  unfolding segv_handler
  segv_handler-outside phdr loader misses = try_load_for_fault-miss phdr _ misses

  -- The handler counts the fault and loads a page of the first PT_LOAD segment around the address,
  -- whatever segments follow.
  pub segv_handler-first :
      (before : List Segment) (seg : Segment) (after : List Segment) (loader : Loader)
      → Misses fault before
      → holds seg fault ≡ true
      → segv_handler system (before ++ (seg ∷ after)) fault loader
        ≡ loader_map_segment system seg fault (counted loader)
  unfolding segv_handler counted
  segv_handler-first before seg after loader misses hit =
      try_load_for_fault-skip before (seg ∷ after) _ misses ∙ try_load_for_fault-hit seg after _ hit
